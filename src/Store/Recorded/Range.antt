-- ===== src/Store/Recorded/Range.antt =====
-- `recorded` is a query on the sorted assertions: its binary search and its loop give what a filter
-- and a cut give.
use attunegraph.Common.{
  ℕ, ◌-◌, ◌<◌, ◌≡◌, refl, ap, sym, ◌∙◌, not, Option, none, some, List, [], ◌∷◌, map, Text, arith,
  Sign, length, get_elem?, take, drop, select, sort, All, All-get_elem?, get_elem?-of_lt,
  lt-of_get_elem?, get_elem?-map, length-map, drop-map, Bool-cases, ◌==◌, inl, inr,
}
use attunegraph.Common.Maps.{get, values, All-values}
use attunegraph.Common.Order.{
  IsOrder, IsSorted, IsSorted-get_elem?, sort-IsSorted, select-sort, All-sort,
}
use attunegraph.Graph.Types.{Assertion, RecordedRange}
use attunegraph.Graph.Instant.{instant_epoch}
use attunegraph.Store.Bisect.{bisect, IsFalling, bisect-IsBorder}
use attunegraph.Store.State.{Store, is_at_most, first_recorded_after, compare_assertions}
use attunegraph.Store.Recorded.{is_past, collect, start_index, recorded}
use attunegraph.Store.Invariant.{IsWellFormed, id_of}
use attunegraph.Store.Invariant.Comparator.{compare_assertions-IsOrder}
use attunegraph.Store.Invariant.Insert.{Held, stored_at_lem}
use attunegraph.Store.Invariant.Steps.{keys-distinct, normal-id}
use attunegraph.Store.Recorded.Loop.{
  is_behind, ByEpoch-of_sorted, epoch-le, All-selected, drop-select, collect_lem,
}

module _ (locale_compare : Text → Text → Sign) (locale : IsOrder locale_compare) (s : Store)
    (w : IsWellFormed locale_compare s) where
  abbrev by_time : List Assertion → List Assertion
  by_time l = sort (compare_assertions locale_compare) l

  by_time-IsSorted : IsSorted (compare_assertions locale_compare) (by_time (values s.assertions))
  by_time-IsSorted =
      sort-IsSorted (compare_assertions locale_compare)
        (compare_assertions-IsOrder locale_compare locale) (values s.assertions)

  by_time-Held : All (Held s.assertions) (by_time (values s.assertions))
  by_time-Held =
      All-sort (compare_assertions locale_compare) (Held s.assertions) (values s.assertions) (
        All-values (Held s.assertions) s.assertions (keys-distinct locale_compare s w) (λ k v e.
          let own = w.own_id k v e in
          (ap (λ i. get i s.assertions) own ∙ e, normal-id locale_compare v (w.normal k v e))))

  module _ (after : Text) where
    at_most_test :
        (i : ℕ) (x : Assertion)
        → get_elem? (by_time (values s.assertions)) i ≡ some x
        → is_at_most s (instant_epoch after) i ≡ not (is_behind (some after) x)
    at_most_test i x e =
        let h =
          All-get_elem? (Held s.assertions) (by_time (values s.assertions)) i x by_time-Held e in
        let listed : get_elem? s.recorded_ids i ≡ some x.id =
          ap (λ ids. get_elem? ids i) w.recorded
          ∙ get_elem?-map id_of (by_time (values s.assertions)) i x e in
        let found = stored_at_lem s x.id h.1 in ground (arith, listed, found, h.0)

    size : length s.recorded_ids ≡ length (by_time (values s.assertions))
    size = ap length w.recorded ∙ length-map id_of (by_time (values s.assertions))

    at_most-IsFalling :
        IsFalling (is_at_most s (instant_epoch after)) (length (by_time (values s.assertions)))
    at_most-IsFalling i j le lt t = elim (Bool-cases (i == j)) [
      | inl same ↦ let at : i ≡ j = ground arith in rw at t
      | inr apart ↦
          let l = by_time (values s.assertions) in
          let (x, ex) = get_elem?-of_lt l i (omega arith) in
          let (y, ey) = get_elem?-of_lt l j lt in
          let x_le = epoch-le locale_compare x y (
            IsSorted-get_elem? (compare_assertions locale_compare) l i j x y by_time-IsSorted
              (ground arith) ex ey) in
          ground (arith, at_most_test i x ex, at_most_test j y ey)
    ]

    -- The start index passes over what was recorded at `after` or before.
    drop-first_recorded_after :
        drop (first_recorded_after s (instant_epoch after)) (by_time (values s.assertions))
        ≡ select (is_behind (some after)) (by_time (values s.assertions))
    unfolding first_recorded_after
    drop-first_recorded_after =
        let l = by_time (values s.assertions) in
        let test = is_at_most s (instant_epoch after) in
        let border =
          bisect-IsBorder test (length l) at_most-IsFalling (length l) 0 (length l) (omega arith)
            (omega arith) (omega arith) in
        ap (λ n. drop (bisect test n 0 n) l) size
        ∙ drop-select (is_behind (some after)) l (bisect test (length l) 0 (length l))
            (λ i x lt e.
              let passed = border.below i (omega arith) lt in ground (arith, at_most_test i x e))
            (λ i x le e.
              let failed = border.above i le (lt-of_get_elem? l i x e) in
              ground (arith, at_most_test i x e))

  select_all : (l : List Assertion) → select (is_behind none) l ≡ l
  select_all [] = refl
  select_all (x ∷ l) = ap (λ t. x ∷ t) (select_all l)

  drop-start_index :
      (after : Option Text)
      → drop (start_index s after) (by_time (values s.assertions))
        ≡ select (is_behind after) (by_time (values s.assertions))
  unfolding start_index
  drop-start_index none = sym (select_all (by_time (values s.assertions)))
  drop-start_index (some after) = drop-first_recorded_after after

  -- On a well-formed store and for a positive limit, `recorded` gives the first assertions, as many
  -- as the limit allows, of those that were recorded behind `after` and not past `through`, in the
  -- order of their instants and, within one instant, of their ids.
  pub recorded_lem :
      (range : RecordedRange)
      → 0 < range.limit
      → recorded s range
        ≡ take range.limit (
            select
              (λ a. not (is_past range.through a))
              (select
                (is_behind range.after)
                (sort (compare_assertions locale_compare) (values s.assertions))))
  unfolding recorded
  recorded_lem range positive =
      let order = compare_assertions-IsOrder locale_compare locale in
      let l = by_time (values s.assertions) in
      let late = select (is_behind range.after) l in
      let sorted : IsSorted (compare_assertions locale_compare) late =
        rw
          (select-sort (compare_assertions locale_compare) order (is_behind range.after)
            (values s.assertions))
          (sort-IsSorted (compare_assertions locale_compare) order
            (select (is_behind range.after) (values s.assertions))) in
      let whole : range.limit - 0 ≡ range.limit = omega arith in
      let ids : drop (start_index s range.after) s.recorded_ids ≡ map id_of late =
        ap (drop (start_index s range.after)) w.recorded
        ∙ drop-map id_of (start_index s range.after) l
        ∙ ap (map id_of) (drop-start_index range.after) in
      ap (λ t. collect s range t []) ids
      ∙ collect_lem s range late []
          (All-selected (Held s.assertions) (is_behind range.after) l by_time-Held)
          (ByEpoch-of_sorted locale_compare late sorted) positive
      ∙ ap (λ n. take n (select (λ a. not (is_past range.through a)) late)) whole
