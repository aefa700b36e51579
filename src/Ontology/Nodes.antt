-- ===== src/Ontology/Nodes.antt =====
-- Nodes and edges, and where an attack may start (backend/pkg/ontology/event.go).
use perspectivegraph.Base.{
  String, String_discrete, Bool, true, false, Option, none, some, ◌||◌, ◌≡◌, arith, is_yes,
  if◌then◌else◌,
}
use perspectivegraph.Ontology.Values.{
  Props, read, as_bool, as_string, internet_exposed_key, network_exposed_key,
  credential_exposed_key, public_access_key, repo_slug_key, commit_sha_key,
}

pub record Node (F : Type 0) : Type 0 where
  pub id : String
  pub label : String
  pub name : String
  pub properties : Props F

pub record Edge (F : Type 0) : Type 0 where
  pub typ : String
  pub from : String
  pub to : String
  pub exploit_probability : F
  pub properties : Props F

abbrev pub or_false : Option Bool → Bool
or_false none = false
or_false (some b) = b

-- Where the network source gave a verdict it decides; otherwise what any source claimed.
exposure : Option Bool → Bool → Bool
exposure (some v) claimed = v
exposure none claimed = claimed

module _ {F : Type 0} where
  -- Node.Bool
  unfoldable pub bool_prop : Node F → String → Bool
  unfolding as_bool
  bool_prop n key = or_false (as_bool (read key n.properties))

  unfoldable pub internet_exposed : Node F → Bool
  unfolding exposure
  internet_exposed n =
      exposure (as_bool (read network_exposed_key n.properties)) (bool_prop n internet_exposed_key)

  unfoldable pub held_by_attacker : Node F → Bool
  held_by_attacker n = bool_prop n public_access_key || bool_prop n credential_exposed_key

  unfoldable pub is_seed : Node F → Bool
  is_seed n =
      internet_exposed n || bool_prop n credential_exposed_key || bool_prop n public_access_key

  -- StampedWith: an empty slug or commit stamps nothing.
  unfoldable pub stamped_with : Props F → String → String → Bool
  unfolding as_string
  stamped_with props slug sha =
      if is_yes (String_discrete slug "") || is_yes (String_discrete sha "")
      then false
      else elim (String_discrete (as_string (read repo_slug_key props)) slug) [
        | yes _ ↦ is_yes (String_discrete (as_string (read commit_sha_key props)) sha)
        | no _ ↦ false
      ]

  -- What an attacker holds without an edge is also a place where an attack starts.
  pub held-is_seed : (n : Node F) → held_by_attacker n ≡ true → is_seed n ≡ true
  unfolding held_by_attacker is_seed
  held-is_seed n h = ground arith
