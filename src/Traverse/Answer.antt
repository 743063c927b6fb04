-- ===== src/Traverse/Answer.antt =====
-- The result of `traverse`: it is always given, within the budgets of the plan, and holds stored
-- assertions that the plan allows, each once.
use attunegraph.Common.{
  ℕ, zero, suc, ◌+◌, ◌≤◌, ◌≡◌, refl, ap, sym, ◌∙◌, true, some, List, [], ◌∷◌, map, Text, Sign,
  arith, length, length-map, length-sort, All, inl, inr, ◌⊎◌,
}
use attunegraph.Common.Maps.{get, put, length-values, values}
use attunegraph.Common.Sets.{is_distinct}
use attunegraph.Graph.Types.{GraphRef, Assertion, QueryPlan, TraversalResult}
use attunegraph.Graph.Keys.{graph_ref_key}
use attunegraph.Store.Index.Of.{HasOwnIds}
use attunegraph.Store.Invariant.{id_of}
use attunegraph.Store.State.{Store}
use attunegraph.Traverse.{
  Entry, Walk, Progress, going, stopped, walk_of, is_eligible, expand, walk, visited_seeds,
  first_walk, stored_of, result_of, traverse_fuel, traverse, compare_refs,
}
use attunegraph.Traverse.Bounds.{IsAnswer, IsWithin, expand-IsWithin, length-put-le}

-- What a client gets for a plan.
pub record IsAnswered (s : Store) (plan : QueryPlan) (result : TraversalResult) : Type 0 where
  pub few : length result.assertions ≤ plan.max_assertions
  pub considered : result.diagnostics.considered_assertions ≤ plan.max_considered_assertions
  pub visited : result.diagnostics.visited_refs ≤ plan.max_visited_refs
  pub refs : length result.refs ≡ result.diagnostics.visited_refs
  pub depth : result.diagnostics.max_depth_reached ≤ plan.max_depth
  pub allowed :
      All
        (λ (a : Assertion). (get a.id s.assertions ≡ some a) × (is_eligible plan a ≡ true))
        result.assertions
  pub distinct : is_distinct (map id_of result.assertions) ≡ true

dequeue :
    (s : Store) (plan : QueryPlan) (rounds : ℕ) (w : Walk) (entry : Entry) (queue : List Entry)
    → w.queue ≡ entry ∷ queue
    → IsWithin s plan (suc rounds) w
    → IsWithin s plan rounds (record w { queue = queue })
dequeue s plan rounds w entry queue e h = record {
  selected = h.selected;
  considered = h.considered;
  visited = h.visited;
  depth = h.depth;
  budget = let n : length w.queue ≡ suc (length queue) = ap length e in omega (arith, h.budget, n);
  answers = h.answers;
  distinct = h.distinct;
}

List-cases {ℓ} : {A : Type ℓ} (l : List A) → (l ≡ []) ⊎ ((x : A) × (xs : List A) × (l ≡ x ∷ xs))
List-cases [] = inl refl
List-cases (x ∷ xs) = inr (x, xs, refl)

-- The loop ends within its rounds.
walk-IsWithin :
    (locale_compare : Text → Text → Sign) (rounds : ℕ) (s : Store) (plan : QueryPlan) (p : Progress)
    → IsWithin s plan rounds (walk_of p)
    → (left : ℕ) × (w : Walk) × (walk locale_compare rounds s plan p ≡ some w)
      × IsWithin s plan left w
unfolding walk
walk-IsWithin locale_compare rounds s plan (stopped w) h = (rounds, w, refl, h)
walk-IsWithin locale_compare zero s plan (going w) h = elim (List-cases w.queue) [
  | inl empty ↦ (zero, w, rw empty, h)
  | inr (entry, queue, e) ↦
      let n : length w.queue ≡ suc (length queue) = ap length e in
      absurd (omega (arith, h.budget, h.visited, n))
]
walk-IsWithin locale_compare (suc rounds) s plan (going w) h = elim (List-cases w.queue) [
  | inl empty ↦ (suc rounds, w, rw empty, h)
  | inr (entry, queue, e) ↦
      let next =
        expand-IsWithin s plan rounds locale_compare entry (record w { queue = queue })
          (dequeue s plan rounds w entry queue e h) in
      let (left, last, done, k) =
        walk-IsWithin locale_compare rounds s plan
          (expand locale_compare s plan entry (record w { queue = queue })) next in
      (left, last, rw e done, k)
]

length-visited_seeds :
    (refs : List GraphRef) (visited : List (Text × GraphRef))
    → length (visited_seeds refs visited) ≤ length visited + length refs
unfolding visited_seeds
length-visited_seeds [] visited = omega arith
length-visited_seeds (ref ∷ refs) visited = omega (
  arith,
  length-visited_seeds refs (put (graph_ref_key ref) ref visited),
  length-put-le (graph_ref_key ref) ref visited,
)

first_walk-IsWithin :
    (s : Store) (plan : QueryPlan)
    → length plan.seeds ≤ plan.max_visited_refs
    → IsWithin s plan (traverse_fuel plan) (first_walk plan)
unfolding first_walk traverse_fuel is_distinct
first_walk-IsWithin s plan h =
    let entry_of : GraphRef → Entry = λ ref. record { depth = 0; ref = ref } in
    record {
      selected = omega arith;
      considered = omega arith;
      visited = omega (arith, length-visited_seeds plan.seeds [], h);
      depth = omega arith;
      budget = omega (arith, length-map entry_of plan.seeds);
      answers = tt;
      distinct = refl;
    }

-- The answers are read back from the store under their ids.
stored_of_lem :
    (s : Store) (plan : QueryPlan) (ids : List Text)
    → HasOwnIds s.assertions
    → All (IsAnswer s plan) ids
    → (map id_of (stored_of s ids) ≡ ids)
      × All
          (λ (a : Assertion). (get a.id s.assertions ≡ some a) × (is_eligible plan a ≡ true))
          (stored_of s ids)
unfolding stored_of
stored_of_lem s plan [] own h = (refl, tt)
stored_of_lem s plan (id ∷ ids) own h =
    let answer = h.0 in
    let (names, rest) = stored_of_lem s plan ids own h.1 in
    let at : answer.key ≡ id = sym (own answer.key answer.assertion answer.stored) ∙ answer.own in
    let there : get id s.assertions ≡ some answer.assertion =
      ap (λ k. get k s.assertions) (sym at) ∙ answer.stored in
    let own_there : get answer.assertion.id s.assertions ≡ some answer.assertion =
      ap (λ k. get k s.assertions) answer.own ∙ there in
    let read : stored_of s (id ∷ ids) ≡ answer.assertion ∷ stored_of s ids =
      rw (there, stored_of) in
    rw read (
      ap (λ k. k ∷ map id_of (stored_of s ids)) answer.own ∙ ap (λ l. id ∷ l) names,
      ((own_there, answer.eligible), rest),
    )

-- On a store whose assertions stand under their own ids, with no more seeds than nodes may be
-- visited, `traverse` ends with a result that keeps to the four budgets of its plan; each assertion
-- of it is stored, is allowed by the plan, and stands in it once.
pub traverse-IsAnswered :
    (locale_compare : Text → Text → Sign) (s : Store) (plan : QueryPlan)
    → HasOwnIds s.assertions
    → length plan.seeds ≤ plan.max_visited_refs
    → (result : TraversalResult) × (traverse locale_compare s plan ≡ some result)
      × IsAnswered s plan result
unfolding traverse
traverse-IsAnswered locale_compare s plan own fits =
    let (left, w, done, h) =
      walk-IsWithin locale_compare (traverse_fuel plan) s plan (going (first_walk plan))
        (first_walk-IsWithin s plan fits) in
    let (names, allowed) = stored_of_lem s plan w.selected own h.answers in
    let visited : length (result_of locale_compare s w).refs ≡ length w.visited =
      unfold result_of in
      length-sort (compare_refs locale_compare) (values w.visited) ∙ length-values w.visited in
    (
      result_of locale_compare s w,
      rw (done, traverse),
      unfold result_of in
          record {
            few =
                omega
                  (arith, h.selected, length-map id_of (stored_of s w.selected), ap length names);
            considered = h.considered;
            visited = omega (arith, visited, h.visited);
            refs = refl;
            depth = h.depth;
            allowed = allowed;
            distinct = ap is_distinct names ∙ h.distinct;
          },
    )
