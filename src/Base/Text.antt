-- ===== src/Base/Text.antt =====
-- Equality of texts, decided.
use Prim.Native.String.{String}
use mathlib.Core.Bool.{Bool, true, false}
use mathlib.Core.Path.{◌≡◌, refl}
use text.Mathlib.Text.{◌==◌}
use text.Mathlib.TextEquality.{eq_iff}
use native.Mathlib.Omega.{arith}

decide_eq : (s t : String) (b : Bool) → (s == t) ≡ b → Dec (s ≡ t)
decide_eq s t true e = yes ((eq_iff s t).0 e)
decide_eq s t false e = no (λ p. ground (arith, eq_iff s t))

unfoldable pub String_discrete : Discrete String
unfolding decide_eq
String_discrete s t = decide_eq s t (s == t) refl
