-- ===== src/Witness.antt =====
-- src/thread-rooted-witness-path.ts: a path of assertions from the seed to a target assertion, by a
-- breadth-first search that remembers the depth at which it reached each node.
pub mod Adjacency
pub mod Fuel
pub mod Sound
pub mod Answer
mod Tests
use attunegraph.Common.{
  ℕ, zero, suc, ◌+◌, ◌*◌, Bool, Option, none, some, List, [], ◌∷◌, ◌++◌, if◌then◌else◌, Text, codes,
  text_eq, raw_compare, Sign, or_else, leb, length, any, sort,
}
use attunegraph.Common.Maps.{get, put}
use attunegraph.Graph.Types.{GraphRef, Assertion, Direction}
use attunegraph.Graph.Keys.{graph_ref_key}
use attunegraph.Traverse.{is_out, is_in}

-- The direction in which a step goes along its assertion.
pub data Way : Type 0 where
  forth back : Way

unfoldable pub way_text : Way → Text
way_text forth = codes "outgoing"
way_text back = codes "incoming"

pub record PathStep : Type 0 where
  pub assertion : Assertion
  pub way : Way
  pub from : GraphRef
  pub to : GraphRef

unfoldable pub directions : Assertion → Direction → List PathStep
directions a plan =
    (if is_out plan
      then record { assertion = a; way = forth; from = a.subject; to = a.object } ∷ []
      else [])
    ++ (if is_in plan
        then record { assertion = a; way = back; from = a.object; to = a.subject } ∷ []
        else [])

-- The steps from each node, by the node's key.
abbrev pub Adjacency : Type 0
Adjacency = List (Text × List PathStep)

abbrev pub steps_from : Text → Adjacency → List PathStep
steps_from key m = elim (get key m) [ none ↦ [] | some steps ↦ steps ]

unfoldable pub add_step : PathStep → Adjacency → Adjacency
add_step step m =
    put (graph_ref_key step.from) (steps_from (graph_ref_key step.from) m ++ step ∷ []) m

unfoldable pub add_steps : List PathStep → Adjacency → Adjacency
add_steps [] m = m
add_steps (step ∷ steps) m = add_steps steps (add_step step m)

unfoldable pub add_assertions : Direction → List Assertion → Adjacency → Adjacency
add_assertions plan [] m = m
add_assertions plan (a ∷ rest) m = add_assertions plan rest (add_steps (directions a plan) m)

unfoldable pub compare_steps : PathStep → PathStep → Sign
compare_steps left right =
    or_else (raw_compare left.assertion.id right.assertion.id)
      (raw_compare (way_text left.way) (way_text right.way))

unfoldable pub sort_steps : Adjacency → Adjacency
sort_steps [] = []
sort_steps ((key, steps) ∷ m) = (key, sort compare_steps steps) ∷ sort_steps m

unfoldable pub adjacency : Direction → List Assertion → Adjacency
adjacency plan assertions = sort_steps (add_assertions plan assertions [])

pub record Entry : Type 0 where
  pub path : List PathStep
  pub ref : GraphRef

-- The variables of the search; `queue` is the part that is still to be read.
pub record Frontier : Type 0 where
  pub queue : List Entry
  pub visited : List (Text × ℕ)

-- Whether the search goes on or returns a path.
pub data Search : Type 0 where
  searching : Frontier → Search
  found : List PathStep → Search

-- `previousDepth !== undefined && previousDepth <= depth`
abbrev is_reached : Option ℕ → ℕ → Bool
is_reached none depth = Bool.false
is_reached (some previous) depth = leb previous depth

-- The body of the inner loop.
unfoldable pub try_step : Text → Entry → PathStep → Frontier → Search
try_step target entry step f =
    let path = entry.path ++ step ∷ [] in
    let key = graph_ref_key step.to in
    if any (λ part. text_eq part.assertion.id step.assertion.id) entry.path
    then searching f
    else if text_eq step.assertion.id target
    then found path
    else if is_reached (get key f.visited) (length path)
    then searching f
    else searching (record {
      queue = f.queue ++ record { path = path; ref = step.to } ∷ [];
      visited = put key (length path) f.visited;
    })

unfoldable pub try_steps : Text → Entry → List PathStep → Search → Search
try_steps target entry steps (found path) = found path
try_steps target entry [] (searching f) = searching f
try_steps target entry (step ∷ steps) (searching f) =
    try_steps target entry steps (try_step target entry step f)

unfoldable pub read_entry : Adjacency → Text → ℕ → Entry → Frontier → Search
read_entry m target max_depth entry f =
    if leb max_depth (length entry.path)
    then searching f
    else try_steps target entry (steps_from (graph_ref_key entry.ref) m) (searching f)

abbrev pub next_entry : List Entry → Option (Entry × List Entry)
next_entry [] = none
next_entry (entry ∷ queue) = some (entry, queue)

-- The outer loop. The inner option is the result of the function, the outer one is `none` where the
-- fuel ran out.
unfoldable pub search_path : ℕ → Adjacency → Text → ℕ → Search → Option (Option (List PathStep))
search_path fuel m target max_depth (found path) = some (some path)
search_path zero m target max_depth (searching f) = elim (next_entry f.queue) [
  | none ↦ some none
  | some e ↦ none
]
search_path (suc fuel) m target max_depth (searching f) = elim (next_entry f.queue) [
  | none ↦ some none
  | some (entry, queue) ↦
      search_path fuel m target max_depth
        (read_entry m target max_depth entry (record f { queue = queue }))
]

unfoldable pub first_frontier : GraphRef → Frontier
first_frontier seed = record {
  queue = record { path = []; ref = seed } ∷ [];
  visited = (graph_ref_key seed, 0) ∷ [];
}

unfoldable pub all_steps : Direction → List Assertion → List PathStep
all_steps plan [] = []
all_steps plan (a ∷ rest) = directions a plan ++ all_steps plan rest

-- A node is queued again only at a smaller depth, so that the nodes and their depths bound the
-- rounds.
unfoldable pub search_fuel : Direction → List Assertion → ℕ → ℕ
search_fuel plan assertions max_depth = length (all_steps plan assertions) * (max_depth + 1) + 1

-- `findThreadRootedWitnessPath`
unfoldable pub find_witness_path :
    GraphRef → Text → List Assertion → Direction → ℕ → Option (Option (List PathStep))
find_witness_path seed target assertions plan max_depth =
    search_path (search_fuel plan assertions max_depth) (adjacency plan assertions) target max_depth
      (searching (first_frontier seed))
