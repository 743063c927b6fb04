-- ===== src/Witness/Fuel.antt =====
-- Why the search ends: a node that is queued again is queued at a smaller depth.
use attunegraph.Common.{
  ℕ, zero, suc, ◌+◌, ◌*◌, ◌≤◌, ◌<◌, ◌≡◌, false, Option, none, some, List, [], ◌∷◌, Text,
  text_eq_iff, text_eq_refl, arith, length, get_elem?, Option-cases, inl, inr,
}
use attunegraph.Common.Maps.{get, put, get-put}
use attunegraph.Graph.Keys.{graph_ref_key}
use attunegraph.Witness.{PathStep, is_reached}

module _ (max_depth : ℕ) where
  -- How far the depth of a node can still fall.
  abbrev pub room : Option ℕ → ℕ
  room none = max_depth + 1
  room (some depth) = depth

  pub potential : List PathStep → List (Text × ℕ) → ℕ
  potential [] visited = 0
  potential (st ∷ steps) visited =
      room (get (graph_ref_key st.to) visited) + potential steps visited

  pub potential_bound :
      (steps : List PathStep) (visited : List (Text × ℕ))
      → ((key : Text) (depth : ℕ) → get key visited ≡ some depth → depth ≤ max_depth)
      → potential steps visited ≤ length steps * (max_depth + 1)
  unfolding potential
  potential_bound [] visited h = omega arith
  potential_bound (st ∷ steps) visited h =
      let rest = potential_bound steps visited h in
      elim (Option-cases (get (graph_ref_key st.to) visited)) [
        | inl new ↦ rw new (grind (arith, rest))
        | inr (d, old) ↦
            rw old (let low = h (graph_ref_key st.to) d old in grind (arith, rest, low))
      ]

  room-le :
      (key other : Text) (depth : ℕ) (visited : List (Text × ℕ))
      → depth ≤ max_depth
      → is_reached (get key visited) depth ≡ false
      → room (get other (put key depth visited)) ≤ room (get other visited)
  room-le key other depth visited le h =
      ground (arith, get-put key other depth visited, text_eq_iff key other)

  potential-le :
      (steps : List PathStep) (key : Text) (depth : ℕ) (visited : List (Text × ℕ))
      → depth ≤ max_depth
      → is_reached (get key visited) depth ≡ false
      → potential steps (put key depth visited) ≤ potential steps visited
  unfolding potential
  potential-le [] key depth visited le h = omega arith
  potential-le (st ∷ steps) key depth visited le h = omega (
    arith,
    potential-le steps key depth visited le h,
    room-le key (graph_ref_key st.to) depth visited le h,
  )

  -- Queueing the end of a step lowers what is left.
  pub potential-lt :
      (steps : List PathStep) (i : ℕ) (st : PathStep) (depth : ℕ) (visited : List (Text × ℕ))
      → get_elem? steps i ≡ some st
      → depth ≤ max_depth
      → is_reached (get (graph_ref_key st.to) visited) depth ≡ false
      → potential steps (put (graph_ref_key st.to) depth visited) < potential steps visited
  unfolding potential
  potential-lt [] i st depth visited e le h = cc
  potential-lt (x ∷ steps) zero st depth visited e le h =
      let same : x ≡ st = cc in
      let less = potential-le steps (graph_ref_key st.to) depth visited le h in
      rw same (
        ground (
          arith,
          less,
          get-put (graph_ref_key st.to) (graph_ref_key st.to) depth visited,
          text_eq_refl (graph_ref_key st.to),
        ))
  potential-lt (x ∷ steps) (suc i) st depth visited e le h = omega (
    arith,
    potential-lt steps i st depth visited e le h,
    room-le (graph_ref_key st.to) (graph_ref_key x.to) depth visited le h,
  )
