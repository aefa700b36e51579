-- ===== src/Tests/Codec.antt =====
-- A small codec of audit records that has the laws: it keeps the number, the link and the hash, and its
-- digest is the text with a letter before it.
use Prim.Native.Char.{Char, code}
use perspectivegraph.Base.{
  ℕ, zero, suc, String, Bool, true, false, Option, none, some, ◌≡◌, ◌≢◌, refl, ap, sym, ◌∙◌, arith,
  ℤ, pos, negsuc, ◌==◌, ◌>>=◌, if◌then◌else◌,
}
use perspectivegraph.Audit.Log.{Record, zero_record, Codec, decode_line, encode_line}
use perspectivegraph.Audit.Writing.{IsWritten, CodecLaws}
use perspectivegraph.Audit.Evidence.{DigestLaws}

abbrev one : Char
one = "1"

abbrev nought : Char
nought = "0"

abbrev is_one : Char → Bool
is_one c = code c == 49

put_nat : ℕ → String → String
put_nat zero t = String.◌∷◌ nought t
put_nat (suc n) t = String.◌∷◌ one (put_nat n t)

get_nat : String → ℕ × String
get_nat String.[] = (0, "")
get_nat (String.◌∷◌ c s) = let (n, t) = get_nat s in if is_one c then (suc n, t) else (0, s)

get-put_nat : (n : ℕ) (t : String) → get_nat (put_nat n t) ≡ (n, t)
unfolding get_nat put_nat
get-put_nat zero t = ground arith
get-put_nat (suc n) t = ground (arith, get-put_nat n t)

put_text : String → String → String
put_text String.[] t = String.◌∷◌ nought t
put_text (String.◌∷◌ c s) t = String.◌∷◌ one (String.◌∷◌ c (put_text s t))

get_text : String → String × String
get_text String.[] = ("", "")
get_text (String.◌∷◌ c String.[]) = ("", "")
get_text (String.◌∷◌ c (String.◌∷◌ d s)) =
    let (a, b) = get_text s in if is_one c then (String.◌∷◌ d a, b) else ("", String.◌∷◌ d s)

get-put_text : (s t : String) → get_text (put_text s t) ≡ (s, t)
unfolding get_text put_text
get-put_text String.[] String.[] = refl
get-put_text String.[] (String.◌∷◌ d t) = ground arith
get-put_text (String.◌∷◌ c s) t = ground (arith, get-put_text s t)

put_int : ℤ → String → String
unfolding put_nat
put_int (pos n) t = String.◌∷◌ nought (put_nat n t)
put_int (negsuc n) t = String.◌∷◌ one (put_nat n t)

get_int : String → ℤ × String
unfolding get_nat
get_int String.[] = (pos 0, "")
get_int (String.◌∷◌ c s) = let (n, t) = get_nat s in if is_one c then (negsuc n, t) else (pos n, t)

get-put_int : (n : ℤ) (t : String) → get_int (put_int n t) ≡ (n, t)
unfolding get_int put_int
get-put_int (pos n) t = ground (arith, get-put_nat n t)
get-put_int (negsuc n) t = ground (arith, get-put_nat n t)

write_record : Record → String
unfolding put_int put_text
write_record r = String.◌∷◌ "{" (put_int r.seq (put_text r.prev_hash r.hash))

read_into : Record → String → Option Record
unfolding get_int get_text
read_into r String.[] = none
read_into r (String.◌∷◌ c s) =
    let (seq, t) = get_int s in
    let (prev, hash) = get_text t in some (record r { seq = seq; prev_hash = prev; hash = hash })

abbrev starts_with_brace : String → Bool
starts_with_brace String.[] = false
starts_with_brace (String.◌∷◌ c s) = code c == 123

unfoldable pub codec : Codec
unfolding write_record read_into
codec = record {
  marshal = λ r. some (write_record r);
  unmarshal = read_into;
  digest = λ t. String.◌∷◌ "h" t;
  enabled = false;
  seal = λ s. some s;
  unseal = λ s. some s;
  to_base64 = λ s. s;
  of_base64 = λ s. some s;
  fits = λ s. true;
  is_brace = starts_with_brace;
}

read-write_record :
    (last r : Record)
    → read_into last (write_record r)
      ≡ some (record last { seq = r.seq; prev_hash = r.prev_hash; hash = r.hash })
unfolding read_into write_record
read-write_record last r =
    ground (arith, get-put_int r.seq (put_text r.prev_hash r.hash), get-put_text r.prev_hash r.hash)

written_is : (out : String) (rec : Record) → IsWritten codec out rec → out ≡ write_record rec
unfolding codec encode_line
written_is out rec w = ground (arith, w.marshalled, w.encoded)

decode_written :
    (last rec : Record) (out : String) → IsWritten codec out rec → decode_line codec out ≡ some out
unfolding codec decode_line write_record
decode_written last rec out w = ground (arith, written_is out rec w)

read_written :
    (last rec : Record) (out : String)
    → IsWritten codec out rec
    → (decode_line codec out >>= codec.unmarshal last)
      ≡ some (record last { seq = rec.seq; prev_hash = rec.prev_hash; hash = rec.hash })
unfolding codec
read_written last rec out w =
    ground (arith, decode_written last rec out w, written_is out rec w, read-write_record last rec)

is_cons : String → Bool
is_cons String.[] = false
is_cons (String.◌∷◌ c s) = true

cons-ne-empty : (c : Char) (s : String) → String.◌∷◌ c s ≢ ""
unfolding is_cons
cons-ne-empty c s e = let q : true ≡ false = ap is_cons e in ground (arith, q)

pub codec-CodecLaws : CodecLaws codec
unfolding codec write_record
codec-CodecLaws = record {
  not_empty = λ out rec w e.
      cons-ne-empty "{" (put_int rec.seq (put_text rec.prev_hash rec.hash))
        (sym (written_is out rec w) ∙ e);
  read_back = λ out rec w. (
    record zero_record { seq = rec.seq; prev_hash = rec.prev_hash; hash = rec.hash },
    read_written zero_record rec out w,
    refl,
    refl,
    refl,
  );
  read_into = λ last out rec w. (
    record last { seq = rec.seq; prev_hash = rec.prev_hash; hash = rec.hash },
    read_written last rec out w,
    refl,
    refl,
  );
}

link_of : Option Record → String
link_of none = ""
link_of (some r) = r.prev_hash

link-write_record : (r : Record) → link_of (read_into zero_record (write_record r)) ≡ r.prev_hash
unfolding link_of
link-write_record r = ground (arith, read-write_record zero_record r)

pub codec-DigestLaws : DigestLaws codec
unfolding codec
codec-DigestLaws = record {
  not_empty = λ t e. cons-ne-empty "h" t e;
  link = λ r q same. ground (
    arith,
    link-write_record (record r { hash = "" }),
    link-write_record (record q { hash = "" }),
  );
}
