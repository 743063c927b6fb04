-- ===== src/Witness/Tests.antt =====
-- Searches on a chain of two assertions, with the edge that leads back.
use attunegraph.Common.{
  ◌≡◌, refl, Option, none, some, List, [], ◌∷◌, map, Text, codes, raw_compare, text_eq, sort,
  sort_onto, insert_by,
}
use attunegraph.Common.Maps.{get, put}
use attunegraph.Graph.Types.{Assertion, Direction, node_kind_text}
use attunegraph.Graph.Keys.{graph_ref_key}
use attunegraph.Json.{quote}
use attunegraph.Traverse.Tests.{note, link}
use attunegraph.Witness.{
  way_text, PathStep, directions, add_step, add_steps, add_assertions, compare_steps, sort_steps,
  adjacency, try_step, try_steps, read_entry, search_path, first_frontier, all_steps, search_fuel,
  find_witness_path,
}
use attunegraph.Witness.Sound.{IsVerdict}
use attunegraph.Witness.Answer.{find_witness_path-IsVerdict}

abbrev edges : List Assertion
edges =
    link (codes "q") (note (codes "y")) (note (codes "z"))
    ∷ link (codes "p") (note (codes "x")) (note (codes "y"))
    ∷ link (codes "r") (note (codes "z")) (note (codes "x"))
    ∷ []

abbrev ids_on : Option (Option (List PathStep)) → List Text
ids_on (some (some path)) = map (λ (st : PathStep). st.assertion.id) path
ids_on _ = []

-- Forwards the target is two steps away, and out of reach at depth 1.
far_and_near :
    (ids_on (find_witness_path (note (codes "x")) (codes "q") edges Direction.outgoing 2)
      ≡ codes "p" ∷ codes "q" ∷ [])
    × (find_witness_path (note (codes "x")) (codes "q") edges Direction.outgoing 1 ≡ some none)
unfolding find_witness_path search_fuel all_steps first_frontier search_path read_entry try_steps
    try_step adjacency sort_steps compare_steps add_assertions add_steps add_step directions
    way_text get put quote graph_ref_key node_kind_text sort sort_onto insert_by text_eq raw_compare
far_and_near = (refl, refl)

find_witness_path-IsVerdict_example :
    (outcome : Option (List PathStep)) × (find_witness_path
        (note (codes "x"))
        (codes "q")
        edges
        Direction.outgoing
        2
      ≡ some outcome)
    × IsVerdict Direction.outgoing edges 2 (note (codes "x")) (codes "q") outcome
find_witness_path-IsVerdict_example =
    find_witness_path-IsVerdict Direction.outgoing edges 2 (note (codes "x")) (codes "q")
