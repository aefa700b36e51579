-- ===== src/Audit/Storable.antt =====
-- What of a field a store can keep: the text without NUL (backend/internal/audit/audit.go).
use Prim.Native.Char.{code}
use perspectivegraph.Base.{
  String, String_discrete, Bool, true, not, ◌&&◌, ◌≡◌, refl, arith, is_yes, ◌==◌, if◌then◌else◌,
}

-- A field's value: the types that `storable` tells apart, and any other by what it holds.
mutual
  pub data Json : Type 0 where
    text : String → Json
    object : Members → Json
    array : Items → Json
    other : String → Json

  pub data Members : Type 0 where
    no_member : Members
    member : String → Json → Members → Members

  pub data Items : Type 0 where
    no_item : Items
    item : Json → Items → Items

-- stripNUL
unfoldable pub strip_nul : String → String
strip_nul String.[] = String.[]
strip_nul (String.◌∷◌ c s) =
    let rest = strip_nul s in if code c == 0 then rest else String.◌∷◌ c rest

-- `m[k] = v`
unfoldable pub put_member : String → Json → Members → Members
put_member k v no_member = member k v no_member
put_member k v (member j w ms) =
    let rest = put_member k v ms in
    if is_yes (String_discrete k j) then member j v ms else member j w rest

unfoldable mutual
  unfolding strip_nul put_member

  pub storable : Json → Json
  storable (text s) = text (strip_nul s)
  storable (object ms) = object (storable_members ms)
  storable (array xs) = array (storable_items xs)
  storable (other s) = other s

  pub storable_members : Members → Members
  storable_members no_member = no_member
  storable_members (member k v ms) = put_member (strip_nul k) (storable v) (storable_members ms)

  pub storable_items : Items → Items
  storable_items no_item = no_item
  storable_items (item v xs) = item (storable v) (storable_items xs)

-- No NUL in a text.
abbrev pub no_nul : String → Bool
no_nul String.[] = true
no_nul (String.◌∷◌ c s) = not (code c == 0) && no_nul s

-- No NUL in any text or key, those of a value of another type included.
unfoldable mutual
  pub clean : Json → Bool
  clean (text s) = no_nul s
  clean (object ms) = clean_members ms
  clean (array xs) = clean_items xs
  clean (other s) = no_nul s

  pub clean_members : Members → Bool
  clean_members no_member = true
  clean_members (member k v ms) = no_nul k && clean v && clean_members ms

  pub clean_items : Items → Bool
  clean_items no_item = true
  clean_items (item v xs) = clean v && clean_items xs

no_nul-strip_nul : (s : String) → no_nul (strip_nul s) ≡ true
unfolding strip_nul
no_nul-strip_nul String.[] = refl
no_nul-strip_nul (String.◌∷◌ c s) = ground (arith, no_nul-strip_nul s)

clean-put_member :
    (k : String) (v : Json) (ms : Members)
    → no_nul k ≡ true
    → clean v ≡ true
    → clean_members ms ≡ true
    → clean_members (put_member k v ms) ≡ true
unfolding put_member clean
clean-put_member k v no_member h q r = ground arith
clean-put_member k v (member j w ms) h q r = ground (arith, clean-put_member k v ms)

-- No NUL in a value of another type, wherever it stands.
unfoldable mutual
  pub others_clean : Json → Bool
  others_clean (text s) = true
  others_clean (object ms) = others_clean_members ms
  others_clean (array xs) = others_clean_items xs
  others_clean (other s) = no_nul s

  pub others_clean_members : Members → Bool
  others_clean_members no_member = true
  others_clean_members (member k v ms) = others_clean v && others_clean_members ms

  pub others_clean_items : Items → Bool
  others_clean_items no_item = true
  others_clean_items (item v xs) = others_clean v && others_clean_items xs

mutual
  unfolding storable clean others_clean

  no_nul-storable : (v : Json) → others_clean v ≡ true → clean (storable v) ≡ true
  no_nul-storable (text s) h = no_nul-strip_nul s
  no_nul-storable (object ms) h = no_nul-storable_members ms h
  no_nul-storable (array xs) h = no_nul-storable_items xs h
  no_nul-storable (other s) h = h

  no_nul-storable_members :
      (ms : Members) → others_clean_members ms ≡ true → clean_members (storable_members ms) ≡ true
  no_nul-storable_members no_member h = refl
  no_nul-storable_members (member k v ms) h =
      clean-put_member (strip_nul k) (storable v) (storable_members ms) (no_nul-strip_nul k)
        (no_nul-storable v (ground arith)) (no_nul-storable_members ms (ground arith))

  no_nul-storable_items :
      (xs : Items) → others_clean_items xs ≡ true → clean_items (storable_items xs) ≡ true
  no_nul-storable_items no_item h = refl
  no_nul-storable_items (item v xs) h =
      ground (arith, no_nul-storable v (ground arith), no_nul-storable_items xs (ground arith))

-- Of a value whose parts of other Go types than texts, objects and arrays hold no NUL, what is stored
-- has no NUL in any text or key, however deep.
pub clean-storable : (v : Json) → others_clean v ≡ true → clean (storable v) ≡ true
clean-storable v h = no_nul-storable v h
