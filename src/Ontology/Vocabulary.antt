-- ===== src/Ontology/Vocabulary.antt =====
-- The closed vocabulary (backend/pkg/ontology/labels.go).
use perspectivegraph.Base.Maps.{elem}
use perspectivegraph.Base.{String, String_discrete, Bool, List, [], ◌∷◌}

abbrev pub labels : List String
labels =
    "VirtualMachine" ∷ "Container" ∷ "Function" ∷ "VPC" ∷ "LoadBalancer" ∷ "Database" ∷ "Bucket"
    ∷ "API" ∷ "Repository" ∷ "Image" ∷ "Package" ∷ "Library" ∷ "User" ∷ "IAM_Role"
    ∷ "ServiceAccount" ∷ "IdentityProvider" ∷ "CVE" ∷ "Weakness" ∷ "Misconfiguration" ∷ "Secret"
    ∷ []

abbrev pub edge_types : List String
edge_types =
    "HOSTS" ∷ "CONNECTS_TO" ∷ "EXPOSES" ∷ "ROUTES_TO" ∷ "DEPENDS_ON" ∷ "COMPILED_INTO"
    ∷ "BUILT_FROM" ∷ "ASSUMES" ∷ "HAS_PERMISSION" ∷ "CAN_ESCALATE_TO" ∷ "AUTHENTICATES"
    ∷ "ESCAPES_TO" ∷ "AFFECTS" ∷ "EXPLOITS" ∷ "MITIGATES" ∷ []

unfoldable pub is_valid_label : String → Bool
is_valid_label l = elem String_discrete l labels

unfoldable pub is_valid_edge_type : String → Bool
is_valid_edge_type t = elem String_discrete t edge_types
