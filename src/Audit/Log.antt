-- ===== src/Audit/Log.antt =====
-- Writing, reopening and verifying the audit log (backend/internal/audit/audit.go). The file is its
-- lines: neither JSON nor base64 text has a line break. The lock makes each operation one step, and the
-- clock is an argument.
use perspectivegraph.Base.{
  ℕ, zero, suc, ◌+◌, ◌-◌, ◌^◌, String, String_discrete, Bool, true, false, not, Option, none, some,
  List, [], ◌∷◌, ◌++◌, Time, ℤ, pos, negsuc, ℕ_discrete, ap, sym, ◌≡◌, ◌≢◌, arith, is_yes, ◌==◌,
  ◌>>=◌, if◌then◌else◌,
}
use perspectivegraph.Audit.Storable.{
  Members, no_member, text, strip_nul, put_member, storable_members,
}

pub record Record : Type 0 where
  pub seq : ℤ
  pub time : Time
  pub action : String
  pub subject : String
  pub role : String
  pub tenant : String
  pub fields : Members
  pub prev_hash : String
  pub hash : String

abbrev pub zero_record : Record
zero_record = record {
  seq = pos 0;
  time = 0;
  action = "";
  subject = "";
  role = "";
  tenant = "";
  fields = no_member;
  prev_hash = "";
  hash = "";
}

-- What the log uses of other packages: json.Marshal and json.Unmarshal, which keeps what the
-- receiving record has for a key that the text lacks; the hex form of a SHA-256 sum; the sealer;
-- base64; whether the scanner's buffer holds a line; and whether a line starts with a brace.
pub record Codec : Type 0 where
  pub marshal : Record → Option String
  pub unmarshal : Record → String → Option Record
  pub digest : String → String
  pub enabled : Bool
  pub seal : String → Option String
  pub unseal : String → Option String
  pub to_base64 : String → String
  pub of_base64 : String → Option String
  pub fits : String → Bool
  pub is_brace : String → Bool

-- `n + 1`, as an int64.
abbrev pub next : ℤ → ℤ
next (pos n) = if n == 2 ^ 63 - 1 then negsuc (2 ^ 63 - 1) else pos (n + 1)
next (negsuc zero) = pos 0
next (negsuc (suc n)) = negsuc n

pub pos_injective : (a b : ℕ) → pos a ≡ pos b → a ≡ b
pos_injective a b e = ground arith

pub negsuc_injective : (a b : ℕ) → negsuc a ≡ negsuc b → a ≡ b
negsuc_injective a b e = ground arith

pub pos-ne-negsuc : (a b : ℕ) → pos a ≢ negsuc b
pos-ne-negsuc a b e = ground arith

unfoldable pub ℤ_discrete : Discrete ℤ
unfolding ℕ_discrete
ℤ_discrete (pos a) (pos b) = elim (ℕ_discrete a b) [
  | yes p ↦ yes (ap pos p)
  | no h ↦ no (λ e. h (pos_injective a b e))
]
ℤ_discrete (pos a) (negsuc b) = no (pos-ne-negsuc a b)
ℤ_discrete (negsuc a) (pos b) = no (λ e. pos-ne-negsuc b a (sym e))
ℤ_discrete (negsuc a) (negsuc b) = elim (ℕ_discrete a b) [
  | yes p ↦ yes (ap negsuc p)
  | no h ↦ no (λ e. h (negsuc_injective a b e))
]

-- The state of a Log and its file; `broken` is the error that the buffered writer keeps.
pub record Log : Type 0 where
  pub seq : ℤ
  pub prev_hash : String
  pub lines : List String
  pub broken : Bool

-- What becomes of a write: all of it reaches the file, or a part of it before an error.
pub data Writing : Type 0 where
  written : Writing
  cut_short : String → Writing

pub data Fault : Type 0 where
  too_long : Fault
  bad_line : Fault
  broken_link : Fault
  seq_jump : Fault
  hash_mismatch : Fault

-- What becomes of the log when a line is written for a record.
unfoldable pub append : Log → Record → Writing → String → Log
append l rec written out =
    if l.broken
    then l
    else record { seq = rec.seq; prev_hash = rec.hash; lines = l.lines ++ out ∷ []; broken = false }
append l rec (cut_short part) out = if l.broken then l else record l {
  lines = if is_yes (String_discrete part "") then l.lines else l.lines ++ part ∷ [];
  broken = true;
}

module _ (cd : Codec) where
  abbrev or_empty_text : Option String → String
  or_empty_text none = ""
  or_empty_text (some s) = s

  -- The text that a record's hash is of.
  abbrev pub hashed_text : Record → String
  hashed_text r = or_empty_text (cd.marshal (record r { hash = "" }))

  unfoldable pub hash_record : Record → String
  hash_record r = cd.digest (hashed_text r)

  unfoldable pub encode_line : String → Option String
  encode_line line =
      if not cd.enabled then some line else cd.seal line >>= (λ sealed. some (cd.to_base64 sealed))

  unfoldable pub decode_line : String → Option String
  decode_line line = if cd.is_brace line then some line else cd.of_base64 line >>= cd.unseal

  -- The request's id goes into the fields.
  unfoldable pub with_request_id : String → Members → Members
  with_request_id id fields =
      if is_yes (String_discrete id "") then fields else put_member "request_id" (text id) fields

  -- The record that Record builds.
  unfoldable pub new_record :
      Log → String → Time → String → String → String → String → Members → Record
  unfolding with_request_id hash_record strip_nul storable_members
  new_record l id now action subject role tenant fields =
      let rec : Record = record {
        seq = next l.seq;
        time = now;
        action = action;
        subject = strip_nul subject;
        role = role;
        tenant = strip_nul tenant;
        fields = storable_members (with_request_id id fields);
        prev_hash = l.prev_hash;
        hash = "";
      } in
      record rec { hash = hash_record rec }

  -- Record
  unfoldable pub record_entry :
      Log → Writing → String → Time → String → String → String → String → Members → Log
  unfolding new_record encode_line append
  record_entry l w id now action subject role tenant fields =
      let rec = new_record l id now action subject role tenant fields in
      elim (cd.marshal rec >>= encode_line) [ none ↦ l | some out ↦ append l rec w out ]

  -- The loop of tail: the last record read, if every line is one.
  unfoldable pub tail_from : Record → List String → Option Record
  unfolding decode_line
  tail_from last [] = some last
  tail_from last (l ∷ ls) =
      let skip = tail_from last ls in
      if not (cd.fits l)
      then none
      else if is_yes (String_discrete l "")
      then skip
      else elim (decode_line l >>= cd.unmarshal last) as (λ _. Option Record) [
        | none ↦ none
        | some r ↦ tail_from r ls
      ]

  -- Open, on the lines of the file (none, if there is no file).
  unfoldable pub open_log : List String → Option Log
  unfolding tail_from
  open_log lines =
      tail_from zero_record lines
      >>= (λ r. some (record { seq = r.seq; prev_hash = r.hash; lines = lines; broken = false }))

  -- The three tests of Verify on a record.
  unfoldable pub check_record : String → ℤ → Record → Option Fault
  unfolding hash_record
  check_record prev seq r =
      if not (is_yes (String_discrete r.prev_hash prev))
      then some broken_link
      else if not (is_yes (ℤ_discrete r.seq (next seq)))
      then some seq_jump
      else if not (is_yes (String_discrete (hash_record r) r.hash))
      then some hash_mismatch
      else none

  -- The loop of Verify: how many records are good, and the first fault.
  unfoldable pub verify_from : String → ℤ → ℕ → List String → ℕ × Option Fault
  unfolding decode_line check_record
  verify_from prev seq n [] = (n, none)
  verify_from prev seq n (l ∷ ls) =
      let skip = verify_from prev seq n ls in
      if not (cd.fits l)
      then (n, some too_long)
      else if is_yes (String_discrete l "")
      then skip
      else elim (decode_line l >>= cd.unmarshal zero_record) as (λ _. ℕ × Option Fault) [
        | none ↦ (n, some bad_line)
        | some r ↦ elim (check_record prev seq r) [
          | some fault ↦ (n, some fault)
          | none ↦ verify_from r.hash r.seq (n + 1) ls
        ]
      ]

  -- Verify
  unfoldable pub verify : List String → ℕ × Option Fault
  unfolding verify_from
  verify lines = verify_from "" (pos 0) 0 lines
