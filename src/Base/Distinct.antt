-- ===== src/Base/Distinct.antt =====
-- Lists in which a property holds of each element, lists of texts with none twice, and the keys of a map.
use mathlib.Core.List.{List, [], ◌∷◌, ◌++◌}
use mathlib.Core.Bool.{false, ◌||◌}
use mathlib.Core.Path.{◌≡◌, refl, sym, subst}
use mathlib.Core.Logic.{if_pos, if_neg}
use Prim.Native.Nat.{◌≤◌}
use Prim.Native.String.{String}
use native.Mathlib.Omega.{arith}
use perspectivegraph.Base.Tests.{is_yes}
use perspectivegraph.Base.Text.{String_discrete}
use perspectivegraph.Base.Lists.{length}
use perspectivegraph.Base.Maps.{Map, elem, elem-keys, keys, insert, lookup-insert}

pub yes_sym : (u v : String) → is_yes (String_discrete u v) ≡ is_yes (String_discrete v u)
yes_sym u v = elim (String_discrete u v) [
  | yes p ↦ elim (String_discrete v u) [ yes q ↦ ground arith | no q ↦ absurd (q (sym p)) ]
  | no p ↦ elim (String_discrete v u) [ yes q ↦ absurd (p (sym q)) | no q ↦ ground arith ]
]

-- No text twice.
abbrev pub Simple : List String → Type 0
Simple [] = Unit {0}
Simple (u ∷ us) = (elem String_discrete u us ≡ false) × Simple us

abbrev pub All : {A : Type 0} → (A → Type 0) → List A → Type 0
All P [] = Unit {0}
All P (u ∷ us) = P u × All P us

pub All-snoc :
    {A : Type 0} (P : A → Type 0) (us : List A) (v : A) → All P us → P v → All P (us ++ v ∷ [])
All-snoc P [] v h p = (p, tt)
All-snoc P (u ∷ us) v (q, h) p = (q, All-snoc P us v h p)

pub All-map :
    {A : Type 0} (P Q : A → Type 0) (us : List A) → ((u : A) → P u → Q u) → All P us → All Q us
All-map P Q [] f h = tt
All-map P Q (u ∷ us) f (p, h) = (f u p, All-map P Q us f h)

pub elem-snoc :
    (v w : String) (us : List String)
    → elem String_discrete v (us ++ w ∷ [])
      ≡ (elem String_discrete v us || is_yes (String_discrete v w))
elem-snoc v w [] = ground arith
elem-snoc v w (u ∷ us) = ground (arith, elem-snoc v w us)

pub Simple-snoc :
    (us : List String) (v : String)
    → Simple us
    → elem String_discrete v us ≡ false
    → Simple (us ++ v ∷ [])
Simple-snoc [] v h q = (refl, tt)
Simple-snoc (u ∷ us) v (h, hs) q =
    (ground (arith, elem-snoc u v us, yes_sym u v), Simple-snoc us v hs (ground arith))

pub elem-insert :
    {V : Type 0} (j k : String) (v : V) (m : Map String V)
    → elem String_discrete j (keys (insert String_discrete k v m))
      ≡ (elem String_discrete j (keys m) || is_yes (String_discrete j k))
elem-insert j k v m = ground (
  arith,
  elem-keys String_discrete j (insert String_discrete k v m),
  elem-keys String_discrete j m,
  lookup-insert String_discrete j k v m,
)

-- A write to a map leaves each key once.
pub insert-Simple :
    {V : Type 0} (k : String) (v : V) (m : Map String V)
    → Simple (keys m)
    → Simple (keys (insert String_discrete k v m))
unfolding insert
insert-Simple k v [] h = (refl, tt)
insert-Simple k v ((i, x) ∷ m) (fresh, h) = elim (String_discrete k i) [
  | yes e ↦ rw (if_pos _ e) (subst (λ u. elem String_discrete u (keys m) ≡ false) (sym e) fresh, h)
  | no n ↦ rw (if_neg _ n) (ground (arith, elem-insert i k v m, yes_sym i k), insert-Simple k v m h)
]

pub length-insert :
    {V : Type 0} (k : String) (v : V) (m : Map String V)
    → length m ≤ length (insert String_discrete k v m)
unfolding insert
length-insert k v [] = omega arith
length-insert k v ((i, x) ∷ m) =
    let rest = length-insert k v m in
    elim (String_discrete k i) [ yes e ↦ ground arith | no n ↦ ground (arith, rest) ]

pub length-keys : {V : Type 0} (m : Map String V) → length (keys m) ≡ length m
length-keys [] = refl
length-keys (e ∷ m) = let rest = length-keys m in ground (arith, rest)
