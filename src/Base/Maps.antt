-- ===== src/Base/Maps.antt =====
-- Go maps as association lists: `m[k]`, `m[k] = v`, `delete(m, k)` and a loop over the keys of a
-- map whose body reads and writes the entry of its own key.
use mathlib.Core.List.{lookup}
use perspectivegraph.Base.Tests.{is_some, is_yes, if◌then◌else◌}
use mathlib.Core.List.{List, [], ◌∷◌, map, foldl}
use mathlib.Core.Logic.{◌≢◌, ite}
use mathlib.Core.Bool.{Bool, false, ◌||◌}
use mathlib.Core.Option.{none, some}
use mathlib.Core.Path.{◌≡◌, refl}
use native.Mathlib.Omega.{arith}

abbrev pub Map {ℓ} : Type ℓ → Type ℓ → Type ℓ
Map K V = List (K × V)

module _ {ℓ} {K V : Type ℓ} where
  abbrev pub keys : Map K V → List K
  keys = map (λ e. e.0)

  abbrev pub values : Map K V → List V
  values = map (λ e. e.1)

module _ {ℓ} {K V : Type ℓ} (dec : Discrete K) where
  unfoldable pub insert : K → V → Map K V → Map K V
  insert k v [] = (k, v) ∷ []
  insert k v (e ∷ m) = ite (dec k e.0) ((k, v) ∷ m) (e ∷ insert k v m)

  unfoldable pub erase : K → Map K V → Map K V
  erase k [] = []
  erase k (e ∷ m) = ite (dec k e.0) (erase k m) (e ∷ erase k m)

  pub lookup-insert :
      (j k : K) (v : V) (m : Map K V)
      → lookup dec j (insert k v m) ≡ ite (dec j k) (some v) (lookup dec j m)
  unfolding lookup insert
  lookup-insert j k v [] = ground arith
  lookup-insert j k v (e ∷ m) = ground (arith, lookup-insert j k v m)

  pub lookup-erase :
      (j k : K) (m : Map K V) → lookup dec j (erase k m) ≡ ite (dec j k) none (lookup dec j m)
  unfolding lookup erase
  lookup-erase j k [] = ground arith
  lookup-erase j k (e ∷ m) = ground (arith, lookup-erase j k m)

-- Membership in a list of keys, decided by the keys' equality.
abbrev pub elem {ℓ} : {K : Type ℓ} → Discrete K → K → List K → Bool
elem dec k [] = false
elem dec k (j ∷ l) = is_yes (dec k j) || elem dec k l

pub elem-keys {ℓ} :
    {K V : Type ℓ} (dec : Discrete K) (k : K) (m : Map K V)
    → elem dec k (keys m) ≡ is_some (lookup dec k m)
unfolding lookup
elem-keys dec k [] = refl
elem-keys dec k (e ∷ m) = ground (arith, elem-keys dec k m)

-- A loop over keys whose body keeps an invariant and touches, of the part of the state that belongs
-- to a key, only that of its own key: each key's part is changed once.
pub range_view_inv {ℓ κ μ ν} :
    {K : Type ℓ} {S : Type κ} {A : Type μ} (dec : Discrete K) (P : S → Type ν) (body : S → K → S)
    (view : K → S → A) (g : K → A → A)
    → ((s : S) (k : K) → P s → P (body s k))
    → ((s : S) (j k : K) → P s → j ≢ k → view j (body s k) ≡ view j s)
    → ((s : S) (k : K) → P s → view k (body s k) ≡ g k (view k s))
    → ((k : K) (a : A) → g k (g k a) ≡ g k a)
    → (ks : List K) (s : S) (j : K) → P s
    → view j (foldl body s ks) ≡ (if elem dec j ks then g j (view j s) else view j s)
range_view_inv dec P body view g keep other self idem [] s j h = refl
range_view_inv dec P body view g keep other self idem (k ∷ ks) s j h = elim (dec j k) [
  | yes p ↦ ground (
    arith,
    range_view_inv dec P body view g keep other self idem ks (body s k) j (keep s k h),
    self s k h,
    idem k (view k s),
  )
  | no p ↦ ground (
    arith,
    range_view_inv dec P body view g keep other self idem ks (body s k) j (keep s k h),
    other s j k h p,
  )
]

-- The same with no invariant.
pub range_view {ℓ κ μ} :
    {K : Type ℓ} {S : Type κ} {A : Type μ} (dec : Discrete K) (body : S → K → S) (view : K → S → A)
    (g : K → A → A)
    → ((s : S) (j k : K) → j ≢ k → view j (body s k) ≡ view j s)
    → ((s : S) (k : K) → view k (body s k) ≡ g k (view k s))
    → ((k : K) (a : A) → g k (g k a) ≡ g k a)
    → (ks : List K) (s : S) (j : K)
    → view j (foldl body s ks) ≡ (if elem dec j ks then g j (view j s) else view j s)
range_view dec body view g other self idem ks s j =
    range_view_inv dec (λ _. Unit {0}) body view g (λ _ _ _. tt) (λ t i k _. other t i k)
      (λ t k _. self t k) idem ks s j tt

-- An invariant of each round is one of the loop.
pub foldl_inv {ℓ κ μ} :
    {K : Type ℓ} {S : Type κ} (P : S → Type μ) (body : S → K → S)
    → ((s : S) (k : K) → P s → P (body s k))
    → (ks : List K) (s : S) → P s
    → P (foldl body s ks)
foldl_inv P body keep [] s h = h
foldl_inv P body keep (k ∷ ks) s h = foldl_inv P body keep ks (body s k) (keep s k h)
