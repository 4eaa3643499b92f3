-- ===== src/Base/Text.antt =====
-- Python strings, which the code only compares and tests for emptiness.
use Prim.Native.String.{String}
use mathlib.Core.Path.{◌≡◌, refl}
use mathlib.Core.Logic.{◌↔◌, ite}
use mathlib.Core.Bool.{Bool, true, false}
use text.Mathlib.Text.{◌==◌}
use text.Mathlib.TextEquality.{eq_iff}

dec_of_iff {ℓ} : {P : Type ℓ} (b : Bool) → (b ≡ true) ↔ P → Dec P
dec_of_iff true h = yes (h.0 refl)
dec_of_iff false h = no (λ p. cc (h.1 p))

unfoldable pub String_discrete : Discrete String
unfolding dec_of_iff
String_discrete s t = dec_of_iff (s == t) (eq_iff s t)

-- `bool(s)` of a string: it is not empty.
unfoldable pub truthy : String → Bool
unfolding String_discrete
truthy s = ite (String_discrete s "") false true
