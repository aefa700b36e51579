-- ===== src/Audit/Stored.antt =====
-- What a field becomes when it is stored: all of it but the NULs (backend/internal/audit/audit.go,
-- storable).
use Prim.Native.Char.{Char, code}
use perspectivegraph.Base.{
  String, String_discrete, true, false, ◌==◌, Option, none, some, ◌≡◌, ◌∙◌, sym, inl, inr, refl,
  arith, is_yes, if◌then◌else◌, Bool-cases,
}
use perspectivegraph.Audit.Storable.{
  Json, text, object, array, other, Members, no_member, member, Items, no_item, item, strip_nul,
  put_member, storable, storable_members, storable_items,
}

-- A text without its NULs: each other character is kept, in its place.
pub data Without : String → String → Type 0 where
  none_left : Without String.[] String.[]
  nul : {c : Char} {s t : String} → (code c == 0) ≡ true → Without s t → Without (String.◌∷◌ c s) t
  kept :
      {c : Char} {s t : String}
      → (code c == 0) ≡ false
      → Without s t
      → Without (String.◌∷◌ c s) (String.◌∷◌ c t)

-- The value at a key.
abbrev pub member_at : String → Members → Option Json
member_at k no_member = none
member_at k (member j v ms) = if is_yes (String_discrete k j) then some v else member_at k ms

-- The first value whose key is this one without its NULs.
abbrev pub stripped_at : String → Members → Option Json
stripped_at k no_member = none
stripped_at k (member j v ms) =
    if is_yes (String_discrete k (strip_nul j)) then some v else stripped_at k ms

mutual
  pub data IsKept : Json → Json → Type 0 where
    kept_text : {s t : String} → Without s t → IsKept (text s) (text t)
    kept_object :
        {ms ns : Members}
        → ((k : String) → IsKeptAt (stripped_at k ms) (member_at k ns))
        → IsKept (object ms) (object ns)
    kept_array : {xs ys : Items} → AreKept xs ys → IsKept (array xs) (array ys)
    kept_other : {s : String} → IsKept (other s) (other s)

  pub data IsKeptAt : Option Json → Option Json → Type 0 where
    no_value : IsKeptAt none none
    value : {v w : Json} → IsKept v w → IsKeptAt (some v) (some w)

  pub data AreKept : Items → Items → Type 0 where
    no_items : AreKept no_item no_item
    items :
        {v w : Json} {xs ys : Items} → IsKept v w → AreKept xs ys → AreKept (item v xs) (item w ys)

strip_nul-Without : (s : String) → Without s (strip_nul s)
unfolding strip_nul
strip_nul-Without String.[] = Without.none_left
strip_nul-Without (String.◌∷◌ c s) = elim (Bool-cases (code c == 0)) [
  | inl q ↦ rw q (Without.nul q (strip_nul-Without s))
  | inr q ↦ rw q (Without.kept q (strip_nul-Without s))
]

member_at-put_member :
    (k j : String) (v : Json) (ms : Members)
    → member_at k (put_member j v ms)
      ≡ (if is_yes (String_discrete k j) then some v else member_at k ms)
unfolding put_member
member_at-put_member k j v no_member = refl
member_at-put_member k j v (member i w ms) =
    let rest = member_at-put_member k j v ms in
    elim (String_discrete j i) [
      | no n ↦ elim (String_discrete k i) [
        | no m ↦ ground (arith, rest)
        | yes p ↦ elim (String_discrete k j) [
          | yes q ↦ absurd (n (sym q ∙ p))
          | no m ↦ ground arith
        ]
      ]
      | yes p ↦ elim (String_discrete k j) [
        | yes q ↦ ground (arith, p, q)
        | no m ↦ elim (String_discrete k i) [ yes q ↦ absurd (m (q ∙ sym p)) | no o ↦ ground arith ]
      ]
    ]

mutual
  unfolding storable

  stored-IsKept : (v : Json) → IsKept v (storable v)
  stored-IsKept (text s) = IsKept.kept_text (strip_nul-Without s)
  stored-IsKept (object ms) = IsKept.kept_object (stored_members-IsKeptAt ms)
  stored-IsKept (array xs) = IsKept.kept_array (stored_items-AreKept xs)
  stored-IsKept (other s) = IsKept.kept_other

  stored_members-IsKeptAt :
      (ms : Members) (k : String) → IsKeptAt (stripped_at k ms) (member_at k (storable_members ms))
  stored_members-IsKeptAt no_member k = IsKeptAt.no_value
  stored_members-IsKeptAt (member j v ms) k =
      rw (member_at-put_member k (strip_nul j) (storable v) (storable_members ms))
        (elim (Bool-cases (is_yes (String_discrete k (strip_nul j)))) [
          | inl q ↦ rw q (IsKeptAt.value (stored-IsKept v))
          | inr q ↦ rw q (stored_members-IsKeptAt ms k)
        ])

  stored_items-AreKept : (xs : Items) → AreKept xs (storable_items xs)
  stored_items-AreKept no_item = AreKept.no_items
  stored_items-AreKept (item v xs) = AreKept.items (stored-IsKept v) (stored_items-AreKept xs)

-- Storing a value takes the NULs of its texts and keys, however deep, and nothing else: a text keeps all
-- other characters in their order, an array its items, a value of another type is kept as it is, and
-- the value at a key of an object is what is stored of a value whose key is that key without NULs, and
-- there is none where no key is.
pub storable-IsKept : (v : Json) → IsKept v (storable v)
storable-IsKept v = stored-IsKept v
