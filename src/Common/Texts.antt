-- ===== src/Common/Texts.antt =====
-- Strings of the language: lists of UTF-16 code units.
use Prim.Native.Nat.{ℕ}
use Prim.Native.Char.{code}
use Prim.Native.String.{String}
use mathlib.Core.Path.{◌≡◌, refl}
use mathlib.Core.Logic.{◌↔◌}
use mathlib.Core.Bool.{Bool, true, false, ◌&&◌}
use mathlib.Core.List.{List, [], ◌∷◌}
use native.Mathlib.Omega.{arith}
use attunegraph.Common.Tests.{◌==◌, Sign, before, same, after, or_else, diff_sign}

abbrev pub Text : Type 0
Text = List ℕ

-- The code units of a literal of the basic plane.
abbrev pub codes : String → Text
codes String.[] = []
codes (String.◌∷◌ c s) = code c ∷ codes s

-- `left === right`
unfoldable pub text_eq : Text → Text → Bool
text_eq [] [] = true
text_eq [] (d ∷ t) = false
text_eq (c ∷ s) [] = false
text_eq (c ∷ s) (d ∷ t) = c == d && text_eq s t

-- The order of `<` on strings, and of `sort()` with no comparator.
unfoldable pub raw_compare : Text → Text → Sign
raw_compare [] [] = same
raw_compare [] (d ∷ t) = before
raw_compare (c ∷ s) [] = after
raw_compare (c ∷ s) (d ∷ t) = or_else (diff_sign c d) (raw_compare s t)

pub text_eq_refl : (s : Text) → text_eq s s ≡ true
unfolding text_eq
text_eq_refl [] = refl
text_eq_refl (c ∷ s) = ground (arith, text_eq_refl s)

pub text_eq-eq : (s t : Text) → text_eq s t ≡ true → s ≡ t
unfolding text_eq
text_eq-eq [] [] h = refl
text_eq-eq [] (d ∷ t) h = ground arith
text_eq-eq (c ∷ s) [] h = ground arith
text_eq-eq (c ∷ s) (d ∷ t) h = ground (arith, text_eq-eq s t)

pub text_eq_iff : (s t : Text) → (text_eq s t ≡ true) ↔ (s ≡ t)
text_eq_iff s t = (text_eq-eq s t, λ e. rw e (text_eq_refl t))

pub raw_compare-same : (s t : Text) → raw_compare s t ≡ same → s ≡ t
unfolding raw_compare
raw_compare-same [] [] h = refl
raw_compare-same [] (d ∷ t) h = ground arith
raw_compare-same (c ∷ s) [] h = ground arith
raw_compare-same (c ∷ s) (d ∷ t) h = ground (arith, raw_compare-same s t)
