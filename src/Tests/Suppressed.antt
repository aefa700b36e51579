-- ===== src/Tests/Suppressed.antt =====
-- A store of suppressions with a file: two decisions, one of them expiring.
use mathlib.Core.List.{lookup}
use perspectivegraph.Base.Maps.{insert}
use perspectivegraph.Base.Sorting.{sort_by, text_before}
use perspectivegraph.Base.{
  String, String_discrete, true, false, some, none, List, [], ◌≡◌, refl, sym,
}
use perspectivegraph.Suppress.{
  Record, ok, err, missing_owner, not_saved, Codec, Store, new, put, get, persist, normalize, keep,
  all_records, load,
}
use perspectivegraph.Suppress.Refine.{Reach}
use perspectivegraph.Suppress.Promise.{decisions, IsMap, Reach-IsMap}
use perspectivegraph.Suppress.Saved.{CodecLaws, saved_reopens}

-- A file that is the list of its records.
abbrev plain : Codec (List Record)
plain = record { encode = λ rs. some rs; decode = λ rs. some rs; is_empty = λ rs. false }

plain_laws : CodecLaws plain
plain_laws = record { reads_back = λ rs b q. sym q; not_empty = λ rs b q. refl }

abbrev empty : Store (List Record)
empty = record { has_file = true; by_tenant = []; file = none }

abbrev accepted : Record
accepted = record {
  path_id = "p1";
  tenant = "";
  reason = "accept-risk";
  owner = "ann";
  note = "";
  created_at = 0;
  expires_at = some 20;
}

abbrev duplicate : Record
duplicate = record accepted { path_id = "p2"; reason = "duplicate"; expires_at = none }

one : Store (List Record)
one = (put plain empty accepted 5 true).1

two : Store (List Record)
two = (put plain one duplicate 9 true).1

-- The first decision is in force until 20, in the tenant that an empty name stands for.
two_decisions :
    (get plain two "default" "p1" 10
      ≡ some (record accepted { tenant = "default"; created_at = 5 }))
    × (get plain two "" "p1" 20 ≡ none)
    × ((put plain two (record accepted { owner = "" }) 9 true).0 ≡ err missing_owner)
    × ((put plain two accepted 9 false).0 ≡ err not_saved)
unfolding one two put get normalize keep persist all_records sort_by text_before lookup insert
    String_discrete
two_decisions = (refl, refl, refl, refl)

start : new plain true none ≡ ok empty
unfolding new load
start = refl

two_reached : Reach plain two
unfolding one two
two_reached =
    Reach.put_in duplicate 9 true (Reach.put_in accepted 5 true (Reach.started true none start))

two_saved : persist plain two true ≡ ok two
unfolding one two put normalize keep persist all_records sort_by text_before lookup insert
    String_discrete
two_saved = refl

two_has_file : two.has_file ≡ true
unfolding one two put normalize keep persist all_records sort_by text_before lookup insert
    String_discrete
two_has_file = refl

Reach-IsMap_example : IsMap plain two
Reach-IsMap_example = Reach-IsMap plain two two_reached

saved_reopens_example :
    (u : Store (List Record)) × (new plain true two.file ≡ ok u)
    × ((tenant path : String) → decisions plain u tenant path ≡ decisions plain two tenant path)
saved_reopens_example = saved_reopens plain two two plain_laws two_reached two_has_file two_saved
