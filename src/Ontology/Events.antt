-- ===== src/Ontology/Events.antt =====
-- Normalized events and what they may retract (backend/pkg/ontology/event.go), and the check of
-- their vocabulary (backend/pkg/ontology/labels.go).
use Prim.Native.Char.{code}
use Prim.Native.String.{len}
use perspectivegraph.Base.{
  ℕ, String, String_discrete, Bool, true, false, not, ◌||◌, Option, none, some, List, [], ◌∷◌, Time,
  Floats, float_zero, ltb, is_yes, ltb_ℤ, pos, if◌then◌else◌,
}
use perspectivegraph.Ontology.Values.{
  Value, int, int64, float64, str, read, as_string, commit_sha_key, pr_number_key,
}
use perspectivegraph.Ontology.Nodes.{Node, Edge}
use perspectivegraph.Ontology.Vocabulary.{is_valid_label, is_valid_edge_type}

-- A declaration that the event is all there is of a scope.
pub record Declaration : Type 0 where
  pub scope : String
  pub taken : Time

pub record Event (F : Type 0) : Type 0 where
  pub source : String
  pub kind : String
  pub observed_at : Time
  pub tenant : String
  pub nodes : List (Node F)
  pub edges : List (Edge F)
  pub snapshot : Option Declaration

abbrev pub max_scope_len : ℕ
max_scope_len = 256

-- The loop of ValidScope over the runes.
printable : String → Bool
printable String.[] = true
printable (String.◌∷◌ c s) =
    let rest = printable s in if ltb (code c) 0x21 || ltb 0x7e (code c) then false else rest

unfoldable pub valid_scope : String → Bool
unfolding printable
valid_scope s =
    if is_yes (String_discrete s "") || ltb max_scope_len (len s) then false else printable s

module _ {F : Type 0} (fl : Floats F) where
  -- The type switch on the pull-request number.
  is_pr_number : Option (Value F) → Bool
  is_pr_number none = false
  is_pr_number (some (int v)) = ltb_ℤ (pos 0) v
  is_pr_number (some (int64 v)) = ltb_ℤ (pos 0) v
  is_pr_number (some (float64 v)) = fl.lt (float_zero fl) v
  is_pr_number (some (str v)) =
      not (is_yes (String_discrete v "") || is_yes (String_discrete v "0"))
  is_pr_number (some _) = false

  node_carries_pr : Node F → Bool
  unfolding is_pr_number as_string
  node_carries_pr n =
      not (is_yes (String_discrete (as_string (read commit_sha_key n.properties)) ""))
      || is_pr_number (read pr_number_key n.properties)

  unfoldable pub carries_pr_context : List (Node F) → Bool
  unfolding node_carries_pr
  carries_pr_context [] = false
  carries_pr_context (n ∷ ns) = node_carries_pr n || carries_pr_context ns

  complete_of : Option Declaration → Bool → Option Declaration
  complete_of none pr = none
  complete_of (some d) pr = if not (valid_scope d.scope) || pr then none else some d

  unfoldable pub complete_snapshot : Event F → Option Declaration
  unfolding complete_of
  complete_snapshot ev = complete_of ev.snapshot (carries_pr_context ev.nodes)

-- What ValidateVocabulary reports: the first offender.
pub data Unknown : Type 0 where
  label : String → String → Unknown
  edge_type : String → String → String → Unknown

module _ {F : Type 0} where
  unfoldable pub validate_edges : List (Edge F) → Option Unknown
  validate_edges [] = none
  validate_edges (e ∷ es) =
      if not (is_valid_edge_type e.typ)
      then some (edge_type e.from e.to e.typ)
      else validate_edges es

  unfoldable pub validate_nodes : List (Node F) → List (Edge F) → Option Unknown
  validate_nodes [] es = validate_edges es
  validate_nodes (n ∷ ns) es =
      if not (is_valid_label n.label) then some (label n.id n.label) else validate_nodes ns es

  unfoldable pub validate_vocabulary : Event F → Option Unknown
  unfolding validate_nodes validate_edges
  validate_vocabulary ev = validate_nodes ev.nodes ev.edges
