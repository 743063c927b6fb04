-- ===== src/Store/Invariant/Comparator.antt =====
-- `compareAssertions` is a consistent comparator where `localeCompare` is.
use attunegraph.Common.{◌≡◌, true, Text, Sign, or_else, diff_sign, not_after, arith, ℕ}
use attunegraph.Common.Order.{IsOrder, flip}
use attunegraph.Graph.Instant.{instant_epoch}
use attunegraph.Store.State.{compare_assertions}

lexicographic_trans :
    (d e f : ℕ) (x y z : Sign)
    → (not_after x ≡ true → not_after y ≡ true → not_after z ≡ true)
    → not_after (or_else (diff_sign d e) x) ≡ true
    → not_after (or_else (diff_sign e f) y) ≡ true
    → not_after (or_else (diff_sign d f) z) ≡ true
lexicographic_trans d e f x y z h p q = ground arith

lexicographic-flip :
    (d e : ℕ) (x y : Sign)
    → y ≡ flip x
    → or_else (diff_sign e d) y ≡ flip (or_else (diff_sign d e) x)
lexicographic-flip d e x y h = ground arith

pub compare_assertions-IsOrder :
    (locale_compare : Text → Text → Sign)
    → IsOrder locale_compare
    → IsOrder (compare_assertions locale_compare)
unfolding compare_assertions
compare_assertions-IsOrder locale_compare locale = record {
  flips = λ a b.
      lexicographic-flip (instant_epoch a.recorded_at) (instant_epoch b.recorded_at)
        (locale_compare a.id b.id) (locale_compare b.id a.id) (locale.flips a.id b.id);
  trans = λ a b c.
      lexicographic_trans (instant_epoch a.recorded_at) (instant_epoch b.recorded_at)
        (instant_epoch c.recorded_at) (locale_compare a.id b.id) (locale_compare b.id c.id)
        (locale_compare a.id c.id) (locale.trans a.id b.id c.id);
}
