-- ===== src/Base/Trimmed.antt =====
-- Trimming a text twice is trimming it once.
use Prim.Native.Char.{Char, code}
use Prim.Native.String.{String}
use mathlib.Core.Path.{◌≡◌, refl, sym, ap, ◌∙◌}
use mathlib.Core.Logic.{inl, inr}
use mathlib.Core.Bool.{true, false}
use native.Mathlib.Omega.{arith}
use restaurant_management_ba.Base.Tests.{Bool-cases}
use restaurant_management_ba.Base.Texts.{is_space, put, trim, trim_start, trim_end}

put_space : (c : Char) → is_space (code c) ≡ true → put c "" ≡ ""
put_space c e = ground (arith, e)

put_other : (c : Char) → is_space (code c) ≡ false → put c "" ≡ String.◌∷◌ c ""
put_other c e = ground (arith, e)

trim_end-put : (c : Char) (s : String) → trim_end (put c s) ≡ put c (trim_end s)
trim_end-put c String.[] = elim (Bool-cases (is_space (code c))) [
  | inl e ↦ ap trim_end (put_space c e) ∙ sym (put_space c e)
  | inr e ↦ ap trim_end (put_other c e)
]
trim_end-put c (String.◌∷◌ d s) = refl

trim_end_twice : (s : String) → trim_end (trim_end s) ≡ trim_end s
trim_end_twice String.[] = refl
trim_end_twice (String.◌∷◌ c s) = trim_end-put c (trim_end s) ∙ ap (put c) (trim_end_twice s)

trim_start-put :
    (c : Char) (s : String) → is_space (code c) ≡ false → trim_start (put c s) ≡ put c s
trim_start-put c String.[] e = ground (arith, e)
trim_start-put c (String.◌∷◌ d s) e = ground (arith, e)

trim_start-trim_end : (s : String) → trim_start (trim_end (trim_start s)) ≡ trim_end (trim_start s)
trim_start-trim_end String.[] = refl
trim_start-trim_end (String.◌∷◌ c s) = elim (Bool-cases (is_space (code c))) [
  | inl e ↦ ground (arith, e, trim_start-trim_end s)
  | inr e ↦ ground (arith, e, trim_start-put c (trim_end s) e)
]

pub trim_twice : (s : String) → trim (trim s) ≡ trim s
unfolding trim
trim_twice s = ap trim_end (trim_start-trim_end s) ∙ trim_end_twice (trim_start s)
