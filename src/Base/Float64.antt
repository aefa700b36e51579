-- ===== src/Base/Float64.antt =====
-- `float64`: a type of the numbers among its values (no NaN) and the operations that the code uses, as
-- a parameter. What a theorem needs of IEEE 754 arithmetic is its hypothesis `FloatLaws`.
use Prim.Native.Nat.{ℕ}
use mathlib.Core.Bool.{Bool, true, false, not}
use mathlib.Core.Path.{◌≡◌}
use perspectivegraph.Base.Int.{ℤ}

pub record Floats (F : Type 0) : Type 0 where
  -- the conversion `int64(v)`
  pub to_int64 : F → ℤ
  -- the conversion `float64(v)` of an integer
  pub of_int64 : ℤ → F
  -- `a < b`
  pub lt : F → F → Bool
  -- `a + b`
  pub add : F → F → F
  -- `a * b`
  pub mul : F → F → F
  -- `a / b`
  pub div : F → F → F
  -- the constant n/100
  pub hundredths : ℕ → F
  -- `-math.Log(v)`
  pub minus_log : F → F
  -- `math.IsInf(v, 1)`
  pub is_inf : F → Bool

module _ {F : Type 0} (fl : Floats F) where
  abbrev pub float_zero : F
  float_zero = fl.hundredths 0

  abbrev pub float_one : F
  float_one = fl.hundredths 100

  -- `a <= b`, of two numbers
  abbrev pub float_le : F → F → Bool
  float_le a b = not (fl.lt b a)

  -- `<` is a strict weak order, rounded addition commutes and is monotone, adding what is not negative does not
  -- make smaller, and -ln is not negative on (0, 1].
  pub record FloatLaws : Type 0 where
    pub asymm : (a b : F) → fl.lt a b ≡ true → fl.lt b a ≡ false
    pub trans : (a b c : F) → fl.lt b a ≡ false → fl.lt c b ≡ false → fl.lt c a ≡ false
    pub add_comm : (a b : F) → fl.add a b ≡ fl.add b a
    pub add_mono : (a b w : F) → fl.lt b a ≡ false → fl.lt (fl.add b w) (fl.add a w) ≡ false
    pub add_grows : (a w : F) → fl.lt w float_zero ≡ false → fl.lt (fl.add a w) a ≡ false
    pub minus_log_nonneg :
        (p : F)
        → fl.lt float_zero p ≡ true
        → fl.lt float_one p ≡ false
        → fl.lt (fl.minus_log p) float_zero ≡ false
    -- 0 < 0.01 < 1, and 1 is no more than itself
    pub hundredth_pos : fl.lt float_zero (fl.hundredths 1) ≡ true
    pub hundredth_le_one : fl.lt float_one (fl.hundredths 1) ≡ false
    pub one_pos : fl.lt float_zero float_one ≡ true
