-- ===== src/Store/Invariant/Insert.antt =====
-- The binary search of `insertRecordedId` finds the place of the stable sort.
use attunegraph.Common.{
  ℕ, ◌≡◌, refl, ◌≢◌, ap, sym, ◌∙◌, true, some, List, [], ◌∷◌, ◌++◌, map, Text, arith, Sign,
  not_after, length, get_elem?, take, drop, insert_by, All, All-get_elem?, get_elem?-of_lt,
  lt-of_get_elem?, length-map, get_elem?-map, take-map, drop-map, Bool-cases, inl, inr, ◌==◌,
}
use mathlib.Core.List.{map-append}
use attunegraph.Common.Maps.{get}
use attunegraph.Common.Order.{IsOrder, IsSorted, insert_at, IsSorted-get_elem?}
use attunegraph.Graph.Types.{Assertion}
use attunegraph.Store.Bisect.{bisect, IsFalling, bisect-IsBorder}
use attunegraph.Store.Index.Of.{Stored}
use attunegraph.Store.State.{Store, stored_at, is_not_after, insert_recorded_id, compare_assertions}
use attunegraph.Store.Invariant.{id_of}

-- The assertion is stored under its id, which is not empty.
abbrev pub Held : Stored → Assertion → Type 0
Held m x = (get x.id m ≡ some x) × (x.id ≢ [])

pub stored_at_lem : (s : Store) (id : Text) → id ≢ [] → stored_at s (some id) ≡ get id s.assertions
unfolding stored_at
stored_at_lem s [] h = absurd (h refl)
stored_at_lem s (c ∷ id) h = refl

spliced :
    (l : List Assertion) (a : Assertion) (r : ℕ)
    → take r (map id_of l) ++ a.id ∷ drop r (map id_of l) ≡ map id_of (take r l ++ a ∷ drop r l)
spliced l a r = simp (take-map, drop-map, map-append)

module _ (locale_compare : Text → Text → Sign)
    (order : IsOrder (compare_assertions locale_compare)) where
  abbrev cmp : Assertion → Assertion → Sign
  cmp = compare_assertions locale_compare

  -- A sorted list of held assertions, whose ids are those of the list of the store.
  module _ (s : Store) (a : Assertion) (l : List Assertion) (held : All (Held s.assertions) l)
      (ids : s.recorded_ids ≡ map id_of l) (sorted : IsSorted cmp l) where
    test_at :
        (i : ℕ) (x : Assertion)
        → get_elem? l i ≡ some x
        → is_not_after locale_compare s a i ≡ not_after (cmp x a)
    test_at i x e =
        let h = All-get_elem? (Held s.assertions) l i x held e in
        ground (arith, ids, get_elem?-map id_of l i x e, stored_at_lem s x.id h.1)

    falling : IsFalling (is_not_after locale_compare s a) (length l)
    falling i j le lt t =
        let (x, ex) = get_elem?-of_lt l i (omega arith) in
        let (y, ey) = get_elem?-of_lt l j lt in
        let y_le : not_after (cmp y a) ≡ true = sym (test_at j y ey) ∙ t in
        test_at i x ex ∙ elim (Bool-cases (i == j)) [
          | inl same ↦ let at : x ≡ y = ground arith in rw at y_le
          | inr apart ↦
              order.trans x y a (IsSorted-get_elem? cmp l i j x y sorted (ground arith) ex ey) y_le
        ]

    -- The binary search of `insertRecordedId` puts the new id where a stable sort puts the new
    -- assertion.
    pub insert_recorded_id_lem :
        insert_recorded_id locale_compare s a ≡ map id_of (insert_by cmp a l)
    unfolding insert_recorded_id
    insert_recorded_id_lem =
        let n : length s.recorded_ids ≡ length l = rw ids (length-map id_of l) in
        let r : ℕ = bisect (is_not_after locale_compare s a) (length l) 0 (length l) in
        let border =
          bisect-IsBorder (is_not_after locale_compare s a) (length l) falling (length l) 0
            (length l) (omega arith) (omega arith) (omega arith) in
        let placed =
          insert_at cmp a l r border.to
            (λ i x lt e. sym (test_at i x e) ∙ border.below i (omega arith) lt)
            (λ i x le e. sym (test_at i x e) ∙ border.above i le (lt-of_get_elem? l i x e)) in
        ap
          (λ k.
            take (bisect (is_not_after locale_compare s a) k 0 k) s.recorded_ids
            ++ a.id ∷ drop (bisect (is_not_after locale_compare s a) k 0 k) s.recorded_ids)
          n
        ∙ ap (λ (all_ids : List Text). take r all_ids ++ a.id ∷ drop r all_ids) ids
        ∙ spliced l a r
        ∙ ap (map id_of) placed
