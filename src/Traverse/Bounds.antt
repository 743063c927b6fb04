-- ===== src/Traverse/Bounds.antt =====
-- The walk keeps its budgets, selects only what the plan allows, and ends within its fuel.
use attunegraph.Common.{
  ℕ, ◌+◌, ◌≤◌, ◌<◌, ◌≡◌, refl, true, false, some, List, [], ◌∷◌, ◌++◌, leb, Text, Sign, arith,
  length, length-append, All, All-append, Bool-cases, Option-cases, inl, inr, leb-false→lt,
}
use attunegraph.Common.Maps.{get, put, keys}
use attunegraph.Common.Sets.{has, add, length-add-le, is_distinct, is_distinct-add}
use attunegraph.Graph.Types.{GraphRef, Assertion, QueryPlan}
use attunegraph.Graph.Keys.{graph_ref_key}
use attunegraph.Store.State.{Store}
use attunegraph.Traverse.{
  Entry, Walk, Progress, going, stopped, walk_of, is_eligible, visit, visit_all, neighbors,
  select_assertion, consider, consider_all, expand,
}

pub length-put_new {ℓ} :
    {V : Type ℓ} (k : Text) (v : V) (m : List (Text × V))
    → has k (keys m) ≡ false
    → length (put k v m) ≡ length m + 1
unfolding put keys has
length-put_new k v [] h = refl
length-put_new k v ((j, w) ∷ m) h = ground (arith, length-put_new k v m)

pub length-put-le {ℓ} :
    {V : Type ℓ} (k : Text) (v : V) (m : List (Text × V)) → length (put k v m) ≤ length m + 1
unfolding put
length-put-le k v [] = omega arith
length-put-le k v ((j, w) ∷ m) = ground (arith, length-put-le k v m)

-- The id of a stored assertion that the plan allows.
pub record IsAnswer (s : Store) (plan : QueryPlan) (id : Text) : Type 0 where
  pub key : Text
  pub assertion : Assertion
  pub stored : get key s.assertions ≡ some assertion
  pub own : assertion.id ≡ id
  pub eligible : is_eligible plan assertion ≡ true

All-add {κ} : (P : Text → Type κ) (x : Text) (ids : List Text) → P x → All P ids → All P (add x ids)
unfolding add
All-add P x ids p h = elim (Bool-cases (has x ids)) [
  | inl old ↦ rw old h
  | inr new ↦ rw new (All-append P ids (x ∷ []) h (p, tt))
]

-- What holds of the walk between two steps; `rounds` more entries can be read.
pub record IsWithin (s : Store) (plan : QueryPlan) (rounds : ℕ) (w : Walk) : Type 0 where
  pub selected : length w.selected ≤ plan.max_assertions
  pub considered : length w.considered ≤ plan.max_considered_assertions
  pub visited : length w.visited ≤ plan.max_visited_refs
  pub depth : w.max_depth_reached ≤ plan.max_depth
  pub budget : length w.queue + plan.max_visited_refs ≤ rounds + length w.visited
  pub answers : All (IsAnswer s plan) w.selected
  pub distinct : is_distinct w.selected ≡ true

module _ (s : Store) (plan : QueryPlan) (rounds : ℕ) where
  visit-IsWithin :
      (depth : ℕ) (ref : GraphRef) (w : Walk)
      → depth < plan.max_depth
      → IsWithin s plan rounds w
      → IsWithin s plan rounds (visit plan depth ref w)
  unfolding visit
  visit-IsWithin depth ref w lt h = elim (Bool-cases (has (graph_ref_key ref) (keys w.visited))) [
    | inl old ↦ rw old h
    | inr new ↦ elim (Bool-cases (leb plan.max_visited_refs (length w.visited))) [
      | inl full ↦
          rw (new, full)
            (record {
              selected = h.selected;
              considered = h.considered;
              visited = h.visited;
              depth = h.depth;
              budget = h.budget;
              answers = h.answers;
              distinct = h.distinct;
            })
      | inr room ↦
          let free = leb-false→lt plan.max_visited_refs (length w.visited) room in
          let grown = length-put_new (graph_ref_key ref) ref w.visited new in
          let queued = length-append w.queue (record { depth = depth + 1; ref = ref } ∷ []) in
          rw (new, room)
            (record {
              selected = h.selected;
              considered = h.considered;
              visited = omega (arith, grown, free);
              depth = omega (arith, h.depth, lt);
              budget = omega (arith, h.budget, grown, queued);
              answers = h.answers;
              distinct = h.distinct;
            })
    ]
  ]

  visit_all-IsWithin :
      (depth : ℕ) (refs : List GraphRef) (w : Walk)
      → depth < plan.max_depth
      → IsWithin s plan rounds w
      → IsWithin s plan rounds (visit_all plan depth refs w)
  unfolding visit_all
  visit_all-IsWithin depth [] w lt h = h
  visit_all-IsWithin depth (ref ∷ refs) w lt h =
      visit_all-IsWithin depth refs (visit plan depth ref w) lt (visit-IsWithin depth ref w lt h)

  cut :
      (w : Walk) → IsWithin s plan rounds w → IsWithin s plan rounds (record w { truncated = true })
  cut w h = record {
    selected = h.selected;
    considered = h.considered;
    visited = h.visited;
    depth = h.depth;
    budget = h.budget;
    answers = h.answers;
    distinct = h.distinct;
  }

  module _ (locale_compare : Text → Text → Sign) (entry : Entry)
      (shallow : entry.depth < plan.max_depth) where
    select_assertion-IsWithin :
        (key : Text) (a : Assertion) (w : Walk)
        → get key s.assertions ≡ some a
        → is_eligible plan a ≡ true
        → IsWithin s plan rounds w
        → IsWithin s plan rounds (walk_of (select_assertion locale_compare plan entry a w))
    unfolding select_assertion
    select_assertion-IsWithin key a w stored eligible h =
        elim (Bool-cases (leb plan.max_assertions (length w.selected))) [
          | inl full ↦ rw full (cut w h)
          | inr room ↦
              let free = leb-false→lt plan.max_assertions (length w.selected) room in
              rw room (
                visit_all-IsWithin entry.depth
                  (neighbors locale_compare plan (graph_ref_key entry.ref) a)
                  (record w { selected = add a.id w.selected }) shallow
                  (record {
                    selected = omega (arith, length-add-le a.id w.selected, free);
                    considered = h.considered;
                    visited = h.visited;
                    depth = h.depth;
                    budget = h.budget;
                    answers =
                        All-add (IsAnswer s plan) a.id w.selected
                          (record {
                            key = key;
                            assertion = a;
                            stored = stored;
                            own = refl;
                            eligible = eligible;
                          })
                          h.answers;
                    distinct = is_distinct-add a.id w.selected h.distinct;
                  }))
        ]

    consider-IsWithin :
        (id : Text) (w : Walk)
        → IsWithin s plan rounds w
        → IsWithin s plan rounds (walk_of (consider locale_compare s plan entry id w))
    unfolding consider
    consider-IsWithin id w h = elim (Bool-cases (has id w.considered)) [
      | inl old ↦ rw old h
      | inr new ↦ elim (Bool-cases (leb plan.max_considered_assertions (length w.considered))) [
        | inl full ↦ rw (new, full) (cut w h)
        | inr room ↦
            let free = leb-false→lt plan.max_considered_assertions (length w.considered) room in
            let grown = length-append w.considered (id ∷ []) in
            let next : IsWithin s plan rounds (record w { considered = w.considered ++ id ∷ [] }) =
              record {
                selected = h.selected;
                considered = omega (arith, free, grown);
                visited = h.visited;
                depth = h.depth;
                budget = h.budget;
                answers = h.answers;
                distinct = h.distinct;
              } in
            elim (Option-cases (get id s.assertions)) [
              | inl absent ↦ rw (new, room, absent) next
              | inr (a, there) ↦ elim (Bool-cases (is_eligible plan a)) [
                | inr other ↦ rw (new, room, there, other) next
                | inl fits ↦
                    rw (new, room, there, fits) (select_assertion-IsWithin id a _ there fits next)
              ]
            ]
      ]
    ]

    consider_all-IsWithin :
        (ids : List Text) (p : Progress)
        → IsWithin s plan rounds (walk_of p)
        → IsWithin s plan rounds (walk_of (consider_all locale_compare s plan entry ids p))
    unfolding consider_all
    consider_all-IsWithin ids (stopped w) h = h
    consider_all-IsWithin [] (going w) h = h
    consider_all-IsWithin (id ∷ ids) (going w) h =
        consider_all-IsWithin ids (consider locale_compare s plan entry id w)
          (consider-IsWithin id w h)

  pub expand-IsWithin :
      (locale_compare : Text → Text → Sign) (entry : Entry) (w : Walk)
      → IsWithin s plan rounds w
      → IsWithin s plan rounds (walk_of (expand locale_compare s plan entry w))
  unfolding expand
  expand-IsWithin locale_compare entry w h = elim (Bool-cases (leb plan.max_depth entry.depth)) [
    | inl deep ↦ rw deep h
    | inr shallow ↦
        let lt = leb-false→lt plan.max_depth entry.depth shallow in
        rw shallow (
          consider_all-IsWithin locale_compare entry lt _ _
            (consider_all-IsWithin locale_compare entry lt _ (going w) h))
  ]
