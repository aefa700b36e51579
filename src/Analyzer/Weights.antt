-- ===== src/Analyzer/Weights.antt =====
-- Where a hop's probability comes from, and the adjacency that the searches read
-- (backend/internal/analyzer/attackpath.go).
use Prim.Native.Char.{code}
use mathlib.Core.List.{lookup}
use perspectivegraph.Base.Maps.{Map, insert}
use perspectivegraph.Base.{
  ◌+◌, ◌-◌, ◌*◌, ◌^◌, ℕ, String, String_discrete, Bool, true, false, not, ◌||◌, Option, none, some,
  List, [], ◌∷◌, ◌++◌, foldl, ℤ, pos, negsuc, ltb_ℤ, Floats, float_zero, float_one, float_le,
  is_yes, ltb, leb, ◌==◌, if◌then◌else◌,
}
use perspectivegraph.Ontology.{
  Value, null, int, int64, float64, float32, number, Props, read, as_string, Node, Edge, bool_prop,
  runtime_alert_key, resolution_method_key,
}
use perspectivegraph.Graph.Contract.{Snapshot}

abbrev pub weight_cause_key : String
weight_cause_key = "weight_cause"

abbrev pub weight_basis_key : String
weight_basis_key = "weight_basis"

abbrev pub evidence_count_key : String
evidence_count_key = "evidence_count"

abbrev pub cvss_key : String
cvss_key = "cvss"

abbrev pub resolution_confidence_key : String
resolution_confidence_key = "resolution_confidence"

-- One hop of an attack path.
pub record Step (F : Type 0) : Type 0 where
  pub edge_type : String
  pub from : String
  pub to : String
  pub probability : F
  pub resolution_method : String
  pub resolution_confidence : F
  pub weight_basis : String
  pub weight_confidence : F
  pub evidence_count : ℤ
  pub weight_cause : String

pub record OutEdge (F : Type 0) : Type 0 where
  pub to : String
  pub typ : String
  pub weight : F
  pub prob : F
  pub res_method : String
  pub res_conf : F
  pub basis : String
  pub basis_conf : F
  pub evid : ℤ
  pub cause : String

-- strconv.ParseInt(s, 10, 64), as json.Number.Int64 calls it.
parse_digits : String → ℕ → Option ℕ
parse_digits String.[] n = some n
parse_digits (String.◌∷◌ c s) n =
    let rest = parse_digits s (10 * n + (code c - 48)) in
    if ltb (code c) 48 || ltb 57 (code c) then none else rest

parse_unsigned : String → Option ℕ
unfolding parse_digits
parse_unsigned String.[] = none
parse_unsigned (String.◌∷◌ c s) = parse_digits (String.◌∷◌ c s) 0

to_int64 : Option ℕ → Option ℤ
to_int64 none = none
to_int64 (some n) = if ltb n (2 ^ 63) then some (pos n) else none

to_negative : Option ℕ → Option ℤ
to_negative none = none
to_negative (some n) =
    if n == 0 then some (pos 0) else if leb n (2 ^ 63) then some (negsuc (n - 1)) else none

unfoldable pub parse_int64 : String → Option ℤ
unfolding parse_unsigned to_int64 to_negative
parse_int64 String.[] = none
parse_int64 (String.◌∷◌ c s) =
    let plus = to_int64 (parse_unsigned s) in
    let minus = to_negative (parse_unsigned s) in
    let bare = to_int64 (parse_unsigned (String.◌∷◌ c s)) in
    if code c == 43 then plus else if code c == 45 then minus else bare

-- A positive count, or 0.
unfoldable pub positive : ℤ → ℤ
positive v = if ltb_ℤ (pos 0) v then v else pos 0

positive_of : Option ℤ → ℤ
unfolding positive
positive_of none = pos 0
positive_of (some v) = positive v

module _ {F : Type 0} (fl : Floats F) where
  unfoldable pub clamp_prob : F → F
  clamp_prob p =
      if float_le fl p (float_zero fl)
      then fl.hundredths 1
      else if fl.lt (float_one fl) p
      then float_one fl
      else p

  unfoldable pub basis_confidence : String → F
  basis_confidence basis =
      if is_yes (String_discrete basis "kev")
      then fl.hundredths 95
      else if is_yes (String_discrete basis "runtime")
      then fl.hundredths 90
      else if is_yes (String_discrete basis "epss")
      then fl.hundredths 85
      else if is_yes (String_discrete basis "cvss")
      then fl.hundredths 60
      else if is_yes (String_discrete basis "severity")
      then fl.hundredths 40
      else if is_yes (String_discrete basis "heuristic")
      then fl.hundredths 35
      else fl.hundredths 30

  evidence_count : Option (Value F) → ℤ
  unfolding positive positive_of parse_int64
  evidence_count (some (int v)) = positive v
  evidence_count (some (int64 v)) = positive v
  evidence_count (some (float64 v)) = if fl.lt (float_zero fl) v then fl.to_int64 v else pos 0
  evidence_count (some (number s)) = positive_of (parse_int64 s)
  evidence_count _ = pos 0

  unfoldable pub evidence_count_of : Edge F → ℤ
  unfolding evidence_count
  evidence_count_of e = evidence_count (read evidence_count_key e.properties)

  -- `props[key] != nil`
  abbrev not_nil : Option (Value F) → Bool
  not_nil none = false
  not_nil (some null) = false
  not_nil (some v) = true

  unfoldable pub weight_basis : Edge F → Node F → Node F → String
  unfolding as_string
  weight_basis e from to =
      let stamped = as_string (read weight_basis_key e.properties) in
      if not (is_yes (String_discrete stamped ""))
      then stamped
      else if bool_prop from runtime_alert_key || bool_prop to runtime_alert_key
      then "runtime"
      else if is_yes (String_discrete e.typ "AFFECTS") || is_yes (String_discrete e.typ "EXPLOITS")
      then (if not_nil (read cvss_key to.properties) || not_nil (read cvss_key from.properties)
          then "cvss"
          else "severity")
      else "heuristic"

  -- weightBasisOf
  unfoldable pub weight_basis_of : Edge F → Node F → Node F → String × F × ℤ
  unfolding weight_basis basis_confidence evidence_count_of
  weight_basis_of e from to =
      let b = weight_basis e from to in (b, basis_confidence b, evidence_count_of e)

  -- weightCauseOf; `upper_trim` is strings.ToUpper after strings.TrimSpace.
  unfoldable pub weight_cause_of : (String → String) → Edge F → Node F → String
  unfolding as_string
  weight_cause_of upper_trim e to =
      let stamped = as_string (read weight_cause_key e.properties) in
      if not (is_yes (String_discrete stamped ""))
      then stamped
      else elim (String_discrete e.typ "AFFECTS") [
        | no _ ↦ ""
        | yes _ ↦
            if not (is_yes (String_discrete to.label "CVE"))
            then ""
            else if not (is_yes (String_discrete (upper_trim to.name) ""))
            then upper_trim to.name
            else to.id
      ]

  confidence_of : Option (Value F) → F
  confidence_of (some (float64 v)) = v
  confidence_of (some (float32 v)) = v
  confidence_of (some (int v)) = fl.of_int64 v
  confidence_of (some (int64 v)) = fl.of_int64 v
  confidence_of _ = float_zero fl

  unfoldable pub resolution_of : Props F → String × F
  unfolding confidence_of as_string
  resolution_of props = (
    as_string (read resolution_method_key props),
    confidence_of (read resolution_confidence_key props),
  )

  -- The out-edge that an edge becomes, given the nodes at its ends.
  unfoldable pub out_edge : (String → String) → Edge F → Node F → Node F → OutEdge F
  unfolding clamp_prob resolution_of weight_basis_of weight_cause_of
  out_edge upper_trim e from to =
      let p = clamp_prob e.exploit_probability in
      let (method, conf) = resolution_of e.properties in
      let (basis, basis_conf, evid) = weight_basis_of e from to in
      record {
        to = e.to;
        typ = e.typ;
        weight = fl.minus_log p;
        prob = p;
        res_method = method;
        res_conf = conf;
        basis = basis;
        basis_conf = basis_conf;
        evid = evid;
        cause = weight_cause_of upper_trim e to;
      }

abbrev pub Adjacency : Type 0 → Type 0
Adjacency F = Map String (List (OutEdge F))

module _ {F : Type 0} where
  -- `nodes[id]`: a missing id reads as the zero node.
  abbrev pub node_of : Map String (Node F) → String → Node F
  node_of nodes id = elim (lookup String_discrete id nodes) [
    | none ↦ record { id = ""; label = ""; name = ""; properties = [] }
    | some n ↦ n
  ]

  -- Snapshot.NodeByID
  unfoldable pub node_by_id : Snapshot F → Map String (Node F)
  node_by_id snap = foldl (λ m n. insert String_discrete n.id n m) [] snap.nodes

  -- `adj[id]`: a missing id has no out-edges.
  abbrev pub out_of : Adjacency F → String → List (OutEdge F)
  out_of adj id = elim (lookup String_discrete id adj) [ none ↦ [] | some es ↦ es ]

  unfoldable pub add_out_edge :
      Floats F → (String → String) → Map String (Node F) → Adjacency F → Edge F → Adjacency F
  unfolding out_edge
  add_out_edge fl upper_trim nodes adj e =
      insert String_discrete e.from
        (out_of adj e.from
          ++ out_edge fl upper_trim e (node_of nodes e.from) (node_of nodes e.to) ∷ [])
        adj

  -- buildAdjacency
  unfoldable pub build_adjacency :
      Floats F → (String → String) → List (Edge F) → Map String (Node F) → Adjacency F
  unfolding add_out_edge
  build_adjacency fl upper_trim edges nodes = foldl (add_out_edge fl upper_trim nodes) [] edges
