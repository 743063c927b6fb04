-- ===== src/Witness/Answer.antt =====
-- The outer loop of the search: it ends, with nothing or with a witness.
use attunegraph.Common.{
  ℕ, zero, suc, ◌≡◌, refl, ap, Option, none, some, List, [], ◌∷◌, Text, arith, length, ◌⊎◌, inl,
  inr,
}
use attunegraph.Common.Maps.{get}
use attunegraph.Common.Sets.{is_distinct}
use attunegraph.Graph.Types.{GraphRef, Assertion, Direction}
use attunegraph.Graph.Keys.{graph_ref_key}
use attunegraph.Witness.{
  PathStep, Adjacency, adjacency, Entry, Frontier, Search, searching, found, read_entry,
  search_path, first_frontier, all_steps, search_fuel, find_witness_path,
}
use attunegraph.Witness.Adjacency.{IsAdjacency, adjacency-IsAdjacency}
use attunegraph.Witness.Fuel.{potential_bound}
use attunegraph.Witness.Sound.{
  IsStep, At, All-At, All-both, all_steps-IsStep, Usable, EntryIsTrail, IsFrontier, IsSearch,
  goes_on, ends, IsVerdict, absent, witness, read_entry-IsSearch,
}

queue-cases : (l : List Entry) → (l ≡ []) ⊎ ((e : Entry) × (rest : List Entry) × (l ≡ e ∷ rest))
queue-cases [] = inl refl
queue-cases (e ∷ rest) = inr (e, rest, refl)

module _ (plan : Direction) (assertions : List Assertion) (max_depth : ℕ) (seed : GraphRef)
    (target : Text) where
  dequeue :
      (rounds : ℕ) (f : Frontier) (e : Entry) (rest : List Entry)
      → f.queue ≡ e ∷ rest
      → IsFrontier plan assertions max_depth seed target (suc rounds) f
      → EntryIsTrail plan assertions max_depth seed target e
        × IsFrontier plan assertions max_depth seed target rounds (record f { queue = rest })
  dequeue rounds f e rest at h =
      let entries = rw at at h.entries in
      let n : length f.queue ≡ suc (length rest) = ap length at in
      (entries.0, record { entries = entries.1; budget = omega (arith, h.budget, n) })

  search_path-IsVerdict :
      (rounds : ℕ) (m : Adjacency) (s : Search)
      → IsAdjacency (Usable plan assertions max_depth seed target) m
      → IsSearch plan assertions max_depth seed target rounds s
      → (outcome : Option (List PathStep)) × (search_path rounds m target max_depth s
          ≡ some outcome)
        × IsVerdict plan assertions max_depth seed target outcome
  unfolding search_path
  search_path-IsVerdict rounds m (found path) u (ends w) = (some path, refl, witness w)
  search_path-IsVerdict zero m (searching f) u (goes_on h) = elim (queue-cases f.queue) [
    | inl empty ↦ (none, rw empty, absent)
    | inr (e, rest, at) ↦
        let n : length f.queue ≡ suc (length rest) = ap length at in
        absurd (omega (arith, h.budget, n))
  ]
  search_path-IsVerdict (suc rounds) m (searching f) u (goes_on h) = elim (queue-cases f.queue) [
    | inl empty ↦ (none, rw empty, absent)
    | inr (e, rest, at) ↦
        let (t, k) = dequeue rounds f e rest at h in
        let (outcome, done, verdict) =
          search_path-IsVerdict rounds m
            (read_entry m target max_depth e (record f { queue = rest })) u
            (read_entry-IsSearch plan assertions max_depth seed target rounds m e
              (record f { queue = rest }) u t k) in
        (outcome, rw at done, verdict)
  ]

  first_frontier-IsFrontier :
      IsFrontier plan assertions max_depth seed target
        (search_fuel plan assertions max_depth)
        (first_frontier seed)
  unfolding first_frontier search_fuel is_distinct get
  first_frontier-IsFrontier = record {
    entries = (record { chain = refl; steps = tt; short = omega arith; distinct = refl }, tt);
    budget = omega (
      arith,
      potential_bound max_depth (all_steps plan assertions) ((graph_ref_key seed, 0) ∷ [])
          (λ key depth e. ground arith),
    );
  }

  -- The search always ends. Where it returns a path, the path goes from the seed to the target: its
  -- last step is along the target assertion, each step is along one of the assertions in a direction
  -- that the plan allows and begins where the one before it ends, no assertion is used twice, and
  -- the path is within the depth.
  pub find_witness_path-IsVerdict :
      (outcome : Option (List PathStep)) × (find_witness_path seed target assertions plan max_depth
        ≡ some outcome)
      × IsVerdict plan assertions max_depth seed target outcome
  unfolding find_witness_path
  find_witness_path-IsVerdict =
      search_path-IsVerdict (search_fuel plan assertions max_depth) (adjacency plan assertions)
        (searching (first_frontier seed))
        (adjacency-IsAdjacency (Usable plan assertions max_depth seed target) plan assertions (
          All-both (IsStep plan assertions) (At (all_steps plan assertions))
            (all_steps plan assertions) (all_steps-IsStep plan assertions)
            (All-At (all_steps plan assertions))))
        (goes_on first_frontier-IsFrontier)
