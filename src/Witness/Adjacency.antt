-- ===== src/Witness/Adjacency.antt =====
-- What the adjacency map of the search holds: under each key, steps from the node with that key.
use attunegraph.Common.{
  ◌≡◌, refl, List, [], ◌∷◌, ◌++◌, Text, text_eq, text_eq_iff, arith, sort, sort_onto, All,
  All-append, Bool-cases, inl, inr, if◌then◌else◌,
}
use attunegraph.Common.Maps.{get, get-put}
use attunegraph.Common.Order.{All-sort}
use attunegraph.Graph.Types.{Assertion, Direction}
use attunegraph.Graph.Keys.{graph_ref_key}
use attunegraph.Witness.{
  PathStep, directions, Adjacency, steps_from, add_step, add_steps, add_assertions, compare_steps,
  sort_steps, adjacency, all_steps,
}

-- What holds of every step that is entered holds of every step that is found under a key.
module _ (P : PathStep → Type 0) where
  abbrev pub Under : Text → List PathStep → Type 0
  Under key steps = All (λ (st : PathStep). P st × (graph_ref_key st.from ≡ key)) steps

  abbrev pub IsAdjacency : Adjacency → Type 0
  IsAdjacency m = (key : Text) → Under key (steps_from key m)

  steps_from-add_step :
      (st : PathStep) (m : Adjacency) (key : Text)
      → steps_from key (add_step st m) ≡ (
          if text_eq (graph_ref_key st.from) key
          then steps_from (graph_ref_key st.from) m ++ st ∷ []
          else steps_from key m)
  unfolding add_step
  steps_from-add_step st m key = ground (
    arith,
    get-put (graph_ref_key st.from) key (steps_from (graph_ref_key st.from) m ++ st ∷ []) m,
  )

  add_step-IsAdjacency :
      (st : PathStep) (m : Adjacency) → P st → IsAdjacency m → IsAdjacency (add_step st m)
  add_step-IsAdjacency st m p h key =
      rw (steps_from-add_step st m key) (elim (Bool-cases (text_eq (graph_ref_key st.from) key)) [
        | inl here ↦
            let same : graph_ref_key st.from ≡ key =
              (text_eq_iff (graph_ref_key st.from) key).0 here in
            rw here (
              All-append (λ (x : PathStep). P x × (graph_ref_key x.from ≡ key))
                (steps_from (graph_ref_key st.from) m) (st ∷ []) (rw same (h key)) ((p, same), tt))
        | inr there ↦ rw there (h key)
      ])

  add_steps-IsAdjacency :
      (steps : List PathStep) (m : Adjacency)
      → All P steps
      → IsAdjacency m
      → IsAdjacency (add_steps steps m)
  unfolding add_steps
  add_steps-IsAdjacency [] m p h = h
  add_steps-IsAdjacency (st ∷ steps) m p h =
      add_steps-IsAdjacency steps (add_step st m) p.1 (add_step-IsAdjacency st m p.0 h)

  All-left : (xs ys : List PathStep) → All P (xs ++ ys) → All P xs × All P ys
  All-left [] ys h = (tt, h)
  All-left (x ∷ xs) ys h = let (l, r) = All-left xs ys h.1 in ((h.0, l), r)

  add_assertions-IsAdjacency :
      (plan : Direction) (assertions : List Assertion) (m : Adjacency)
      → All P (all_steps plan assertions)
      → IsAdjacency m
      → IsAdjacency (add_assertions plan assertions m)
  unfolding add_assertions all_steps
  add_assertions-IsAdjacency plan [] m p h = h
  add_assertions-IsAdjacency plan (a ∷ rest) m p h =
      let (first, others) = All-left (directions a plan) (all_steps plan rest) p in
      add_assertions-IsAdjacency plan rest (add_steps (directions a plan) m) others
        (add_steps-IsAdjacency (directions a plan) m first h)

  steps_from-sort_steps :
      (m : Adjacency) (key : Text)
      → steps_from key (sort_steps m) ≡ sort compare_steps (steps_from key m)
  unfolding sort_steps get sort sort_onto
  steps_from-sort_steps [] key = refl
  steps_from-sort_steps ((j, steps) ∷ m) key = elim (Bool-cases (text_eq j key)) [
    | inl here ↦ rw (here, steps_from, get)
    | inr there ↦ rw (there, steps_from, get) (steps_from-sort_steps m key)
  ]

  -- The adjacency map of the search.
  pub adjacency-IsAdjacency :
      (plan : Direction) (assertions : List Assertion)
      → All P (all_steps plan assertions)
      → IsAdjacency (adjacency plan assertions)
  unfolding adjacency
  adjacency-IsAdjacency plan assertions p key =
      let h = add_assertions-IsAdjacency plan assertions [] p (λ k. unfold get in tt) key in
      rw (steps_from-sort_steps (add_assertions plan assertions []) key) (
        All-sort compare_steps (λ (x : PathStep). P x × (graph_ref_key x.from ≡ key))
          (steps_from key (add_assertions plan assertions [])) h)
