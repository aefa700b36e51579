-- ===== src/Tests/Journal.antt =====
-- The audit log written to three times, and a log that was tampered with.
use perspectivegraph.Base.{
  String, String_discrete, ℕ_discrete, true, false, Option, none, some, List, [], ◌∷◌, ◌≡◌, ◌↔◌,
  ◌⊎◌, refl, pos, map, length,
}
use mathlib.Core.List.{reverse}
use perspectivegraph.Audit.Stored.{IsKept, storable-IsKept}
use perspectivegraph.Audit.Storable.{
  array, item, no_item, Json, text, object, no_member, member, other, others_clean, clean, storable,
  strip_nul, put_member, clean-storable,
}
use perspectivegraph.Audit.Log.{
  Record, Log, written, broken_link, hashed_text, hash_record, encode_line, decode_line, new_record,
  append, record_entry, open_log, tail_from, check_record, verify, verify_from, ℤ_discrete,
}
use perspectivegraph.Audit.Chain.{records_of, IsChain, verify_iff}
use perspectivegraph.Audit.Writing.{WrittenAs, HashesKept, all_fit, Reach, written_verifies}
use perspectivegraph.Audit.Evidence.{Collision, tamper_evident}
use perspectivegraph.Tests.Codec.{codec, codec-CodecLaws, codec-DigestLaws}

abbrev fresh : Log
fresh = record { seq = pos 0; prev_hash = ""; lines = []; broken = false }

denied : Log → Log
denied l = record_entry codec l written "req-1" 5 "auth.deny" "mallory" "" "" no_member

journal : Log
unfolding denied
journal = denied (denied fresh)

journal_reached : Reach codec journal
unfolding journal denied
journal_reached =
    Reach.recorded written "req-1" 5 "auth.deny" "mallory" "" "" no_member
      (Reach.recorded written "req-1" 5 "auth.deny" "mallory" "" "" no_member Reach.empty)

journal_code : Unit {0}
unfolding journal denied codec record_entry new_record encode_line decode_line append hash_record
    verify verify_from check_record tail_from open_log storable put_member strip_nul String_discrete
    ℤ_discrete ℕ_discrete
journal_code = tt

journal_whole : (journal.broken ≡ false) × (all_fit codec journal.lines ≡ true)
unfolding journal_code
journal_whole = (refl, refl)

written_verifies_example :
    (rs : List Record) × WrittenAs codec journal.lines rs
    × ((verify codec journal.lines ≡ (length journal.lines, none))
        ↔ HashesKept codec journal.lines rs)
    × (open_log codec journal.lines ≡ some journal)
written_verifies_example =
    written_verifies codec codec-CodecLaws journal_reached journal_whole.0 journal_whole.1

-- The last line alone does not verify: its link is broken.
cut_head : List String → List String
cut_head [] = []
cut_head (l ∷ ls) = ls

dropped_first : (verify codec (cut_head journal.lines)) ≡ (0, some broken_link)
unfolding journal_code cut_head
dropped_first = refl

verify_iff_example : (verify codec journal.lines ≡ (2, none)) ↔ (
    (rs : List Record) × (records_of codec journal.lines ≡ some rs)
    × IsChain codec "" (pos 0) rs
    × (2 ≡ length rs))
verify_iff_example = verify_iff codec journal.lines 2

abbrev read_records : Option (List Record) → List Record
read_records none = []
read_records (some rs) = rs

entries : List Record
entries = read_records (records_of codec journal.lines)

entries_lem :
    (records_of codec journal.lines ≡ some entries) × (verify codec journal.lines ≡ (2, none))
unfolding journal_code entries
entries_lem = (refl, refl)

tamper_evident_example :
    (map (hashed_text codec) (reverse entries) ≡ map (hashed_text codec) (reverse entries))
    ⊎ Collision codec
tamper_evident_example =
    tamper_evident codec codec-DigestLaws journal.lines journal.lines 2 2 entries entries
      entries_lem.1 entries_lem.1 entries_lem.0 entries_lem.0 refl

abbrev nested : Json
nested = object (member "path" (text "/x") (member "count" (other "3") no_member))

nested_clean : others_clean nested ≡ true
unfolding others_clean
nested_clean = refl

clean-storable_example : clean (storable nested) ≡ true
clean-storable_example = clean-storable nested nested_clean

abbrev dirty : Json
dirty = object (member "path" (array (item (text "/x\0") no_item)) no_member)

storable-IsKept_example : IsKept dirty (storable dirty)
storable-IsKept_example = storable-IsKept dirty
