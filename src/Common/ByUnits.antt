-- ===== src/Common/ByUnits.antt =====
-- The order of code units is one that `sort` can use.
use mathlib.Core.Path.{◌≡◌, refl}
use mathlib.Core.Bool.{true}
use mathlib.Core.List.{[], ◌∷◌}
use native.Mathlib.Omega.{arith}
use attunegraph.Common.Tests.{not_after}
use attunegraph.Common.Texts.{Text, raw_compare}
use attunegraph.Common.Order.{IsOrder, flip}

raw_compare-flips : (a b : Text) → raw_compare b a ≡ flip (raw_compare a b)
unfolding raw_compare
raw_compare-flips [] [] = refl
raw_compare-flips [] (d ∷ t) = refl
raw_compare-flips (c ∷ s) [] = refl
raw_compare-flips (c ∷ s) (d ∷ t) = ground (arith, raw_compare-flips s t)

raw_compare_trans :
    (a b c : Text)
    → not_after (raw_compare a b) ≡ true
    → not_after (raw_compare b c) ≡ true
    → not_after (raw_compare a c) ≡ true
unfolding raw_compare
raw_compare_trans [] [] c p q = q
raw_compare_trans [] (y ∷ b) [] p q = refl
raw_compare_trans [] (y ∷ b) (z ∷ c) p q = refl
raw_compare_trans (x ∷ a) [] c p q = ground arith
raw_compare_trans (x ∷ a) (y ∷ b) [] p q = ground arith
raw_compare_trans (x ∷ a) (y ∷ b) (z ∷ c) p q = ground (arith, raw_compare_trans a b c)

pub by_units : IsOrder raw_compare
by_units = record { flips = raw_compare-flips; trans = raw_compare_trans }
