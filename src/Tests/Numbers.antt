-- ===== src/Tests/Numbers.antt =====
-- Hundredths as natural numbers in place of `float64`: a model of the arithmetic in which its laws
-- hold and the code can be run.
use native.Mathlib.Nat.{mul-le-mul_left, mul-le-mul_right}
use perspectivegraph.Analyzer.Paths.Bounds.{ProductLaws}
use perspectivegraph.Base.{
  ℕ, zero, suc, ◌+◌, ◌*◌, ◌-◌, ◌/◌, ◌≤◌, pos, negsuc, false, arith, Floats, FloatLaws, ltb,
}

abbrev pub fl : Floats ℕ
fl = record {
  to_int64 = pos;
  of_int64 = λ v. elim v [ pos n ↦ n | negsuc n ↦ 0 ];
  lt = ltb;
  add = λ a b. a + b;
  mul = λ a b. a * b / 100;
  div = λ a b. elim b [ zero ↦ 0 | suc n ↦ a / suc n ];
  hundredths = λ n. n;
  minus_log = λ p. 100 - p;
  is_inf = λ v. false;
}

pub fl-FloatLaws : FloatLaws fl
fl-FloatLaws = record {
  asymm = λ a b h. ground arith;
  trans = λ a b c p q. ground arith;
  add_comm = λ a b. omega arith;
  add_mono = λ a b w h. ground arith;
  add_grows = λ a w h. ground arith;
  minus_log_nonneg = λ p low high. ground arith;
  hundredth_pos = ground arith;
  hundredth_le_one = ground arith;
  one_pos = ground arith;
}

product_bound : (a b : ℕ) → b ≤ 100 → a * b / 100 ≤ a
product_bound a b h = let q : a * b ≤ a * 100 = mul-le-mul_left a h in omega (arith, q)

product_bound' : (a b : ℕ) → a ≤ 100 → a * b / 100 ≤ b
product_bound' a b h = let q : a * b ≤ 100 * b = mul-le-mul_right b h in omega (arith, q)

pub fl-ProductLaws : ProductLaws fl
fl-ProductLaws = record {
  unit = λ a b p q. ground (arith, product_bound a b);
  left = λ a b p q. ground (arith, product_bound a b);
  right = λ a b p q. ground (arith, product_bound' a b);
  one = ground arith;
}
