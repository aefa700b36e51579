-- ===== src/Base/Int.antt =====
-- `int` and `int64` values, and `time.Time` as the nanoseconds since Go's zero time. An integer is
-- kept as its value: the code compares these and does no arithmetic that could wrap.
use Prim.Native.Nat.{ℕ, ◌-◌, ◌/◌}
use mathlib.Core.Bool.{Bool, true, false}
use mathlib.Core.Path.{◌≡◌}
use native.Mathlib.Omega.{arith}
use perspectivegraph.Base.Tests.{ltb, leb, if◌then◌else◌}

-- `negsuc n` is -(n + 1).
pub data ℤ : Type 0 where
  pos : ℕ → ℤ
  negsuc : ℕ → ℤ

abbrev pub ltb_ℤ : ℤ → ℤ → Bool
ltb_ℤ (pos a) (pos b) = ltb a b
ltb_ℤ (pos a) (negsuc b) = false
ltb_ℤ (negsuc a) (pos b) = true
ltb_ℤ (negsuc a) (negsuc b) = ltb b a

-- `a - b`, as an integer.
abbrev pub sub_ℕ : ℕ → ℕ → ℤ
sub_ℕ a b = if leb b a then pos (a - b) else negsuc (b - a - 1)

-- A time is the nanoseconds since January 1, year 1, UTC, and Go's zero time is 0.
abbrev pub Time : Type 0
Time = ℕ

abbrev pub second : ℕ
second = 1000000000

-- `t.Unix()`: the seconds since 1970.
unfoldable pub unix : Time → ℤ
unix t = sub_ℕ (t / second) 62135596800

pub ltb_ℤ_asymm : (a b : ℤ) → ltb_ℤ a b ≡ true → ltb_ℤ b a ≡ false
ltb_ℤ_asymm (pos a) (pos b) h = ground arith
ltb_ℤ_asymm (pos a) (negsuc b) h = ground arith
ltb_ℤ_asymm (negsuc a) (pos b) h = ground arith
ltb_ℤ_asymm (negsuc a) (negsuc b) h = ground arith
