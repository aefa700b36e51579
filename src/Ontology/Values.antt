-- ===== src/Ontology/Values.antt =====
-- Property bags: `map[string]any` (backend/pkg/ontology/event.go) and the well-known keys of
-- backend/pkg/ontology/labels.go that the modelled code reads.
use mathlib.Core.List.{lookup}
use perspectivegraph.Base.Maps.{Map}
use perspectivegraph.Base.{String, String_discrete, Bool, Option, none, some, ℤ}

-- The dynamic types that the code tells apart. A float32 is kept as the float64 that it converts
-- to, `number` is a json.Number by its text, and `other` is any value of another type.
pub data Value (F : Type 0) : Type 0 where
  null : Value F
  bool : Bool → Value F
  int : ℤ → Value F
  int64 : ℤ → Value F
  float64 : F → Value F
  float32 : F → Value F
  number : String → Value F
  str : String → Value F
  other : Value F

abbrev pub Props : Type 0 → Type 0
Props F = Map String (Value F)

-- `props[key]`, where a missing key reads as `none`.
abbrev pub read : {F : Type 0} → String → Props F → Option (Value F)
read = lookup String_discrete

-- `v, ok := x.(bool)`
unfoldable pub as_bool : {F : Type 0} → Option (Value F) → Option Bool
as_bool (some (bool b)) = some b
as_bool _ = none

-- `s, _ := x.(string)`: the empty text where `x` is no text.
unfoldable pub as_string : {F : Type 0} → Option (Value F) → String
as_string (some (str s)) = s
as_string _ = ""

abbrev pub internet_exposed_key : String
internet_exposed_key = "internet_exposed"

abbrev pub network_exposed_key : String
network_exposed_key = "network_exposed"

abbrev pub credential_exposed_key : String
credential_exposed_key = "credential_exposed"

abbrev pub public_access_key : String
public_access_key = "public_access"

abbrev pub crown_jewel_key : String
crown_jewel_key = "crown_jewel"

abbrev pub runtime_alert_key : String
runtime_alert_key = "runtime_alert"

abbrev pub repo_slug_key : String
repo_slug_key = "repo_slug"

abbrev pub pr_number_key : String
pr_number_key = "pr_number"

abbrev pub commit_sha_key : String
commit_sha_key = "commit_sha"

abbrev pub last_seen_key : String
last_seen_key = "last_seen"

abbrev pub resolution_method_key : String
resolution_method_key = "resolution_method"
