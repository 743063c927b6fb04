-- ===== src/Traverse.antt =====
-- src/in-memory-store.ts: `traverse`, the bounded breadth-first walk, on a normalized plan.
pub mod Bounds
pub mod Answer
pub mod Tests
use attunegraph.Common.{
  ℕ, zero, suc, ◌+◌, Bool, true, false, ◌&&◌, ◌||◌, not, Option, none, some, List, [], ◌∷◌, ◌++◌,
  map, ltb, leb, max, if◌then◌else◌, Text, text_eq, Sign, length, any, sort,
}
use attunegraph.Common.Maps.{get, put, keys, values}
use attunegraph.Common.Sets.{has, add}
use attunegraph.Graph.Types.{
  GraphRef, Assertion, Predicate, EpistemicClass, Direction, QueryPlan, TraversalResult,
  predicate_text, epistemic_text,
}
use attunegraph.Graph.Keys.{graph_ref_key}
use attunegraph.Graph.Instant.{instant_epoch}
use attunegraph.Store.Index.{members}
use attunegraph.Store.State.{Store}

-- `!when || test(instantEpoch(when))`
abbrev if_given : Option Text → (ℕ → Bool) → Bool
if_given none test = true
if_given (some s) test = test (instant_epoch s)

abbrev is_superseded : Option Text → Option Text → Bool
is_superseded none cutoff = false
is_superseded (some s) none = true
is_superseded (some s) (some c) = leb (instant_epoch s) (instant_epoch c)

-- `assertionMatchesTime`
unfoldable pub matches_time : Assertion → QueryPlan → Bool
matches_time a plan =
    if_given plan.recorded_at_or_before (λ cutoff. leb (instant_epoch a.recorded_at) cutoff)
    && (plan.include_superseded || not (is_superseded a.superseded_at plan.recorded_at_or_before))
    && if_given plan.valid_at
        (λ at. if_given a.valid_from (λ from. leb from at) && if_given a.valid_to (λ to. ltb at to))

unfoldable pub predicate_eq : Predicate → Predicate → Bool
predicate_eq p q = text_eq (predicate_text p) (predicate_text q)

unfoldable pub class_eq : EpistemicClass → EpistemicClass → Bool
class_eq c d = text_eq (epistemic_text c) (epistemic_text d)

abbrev class_allowed : Option (List EpistemicClass) → EpistemicClass → Bool
class_allowed none c = true
class_allowed (some classes) c = any (class_eq c) classes

-- The test of the walk on an assertion.
unfoldable pub is_eligible : QueryPlan → Assertion → Bool
is_eligible plan a =
    any (predicate_eq a.predicate) plan.predicates
    && class_allowed plan.epistemic_classes a.epistemic_class
    && matches_time a plan

abbrev pub is_out : Direction → Bool
is_out Direction.incoming = false
is_out _ = true

abbrev pub is_in : Direction → Bool
is_in Direction.outgoing = false
is_in _ = true

pub record Entry : Type 0 where
  pub depth : ℕ
  pub ref : GraphRef

-- The variables of the walk; `queue` is the part that is still to be read.
pub record Walk : Type 0 where
  pub queue : List Entry
  pub visited : List (Text × GraphRef)
  pub selected : List Text
  pub considered : List Text
  pub truncated : Bool
  pub max_depth_reached : ℕ

-- Whether the walk goes on, or leaves its labelled loop.
pub data Progress : Type 0 where
  going stopped : Walk → Progress

abbrev pub walk_of : Progress → Walk
walk_of (going w) = w
walk_of (stopped w) = w

-- One neighbour of the current node.
unfoldable pub visit : QueryPlan → ℕ → GraphRef → Walk → Walk
visit plan depth neighbor w =
    if has (graph_ref_key neighbor) (keys w.visited)
    then w
    else if leb plan.max_visited_refs (length w.visited)
    then record w { truncated = true }
    else record w {
      visited = put (graph_ref_key neighbor) neighbor w.visited;
      queue = w.queue ++ record { depth = depth + 1; ref = neighbor } ∷ [];
      max_depth_reached = max w.max_depth_reached (depth + 1);
    }

unfoldable pub visit_all : QueryPlan → ℕ → List GraphRef → Walk → Walk
visit_all plan depth [] w = w
visit_all plan depth (ref ∷ refs) w = visit_all plan depth refs (visit plan depth ref w)

unfoldable pub visited_seeds : List GraphRef → List (Text × GraphRef) → List (Text × GraphRef)
visited_seeds [] visited = visited
visited_seeds (ref ∷ refs) visited = visited_seeds refs (put (graph_ref_key ref) ref visited)

unfoldable pub first_walk : QueryPlan → Walk
first_walk plan = record {
  queue = map (λ ref. record { depth = 0; ref = ref }) plan.seeds;
  visited = visited_seeds plan.seeds [];
  selected = [];
  considered = [];
  truncated = false;
  max_depth_reached = 0;
}

unfoldable pub stored_of : Store → List Text → List Assertion
stored_of s [] = []
stored_of s (id ∷ ids) =
    let rest = stored_of s ids in elim (get id s.assertions) [ none ↦ rest | some a ↦ a ∷ rest ]

-- Each node enters the queue once, so that the seeds and the nodes that may be visited bound the
-- rounds.
unfoldable pub traverse_fuel : QueryPlan → ℕ
traverse_fuel plan = length plan.seeds + plan.max_visited_refs

module _ (locale_compare : Text → Text → Sign) where
  unfoldable pub compare_refs : GraphRef → GraphRef → Sign
  compare_refs left right = locale_compare (graph_ref_key left) (graph_ref_key right)

  unfoldable pub neighbors : QueryPlan → Text → Assertion → List GraphRef
  neighbors plan current a = sort compare_refs (
      (if is_out plan.direction && text_eq (graph_ref_key a.subject) current
        then a.object ∷ []
        else [])
      ++ (if is_in plan.direction && text_eq (graph_ref_key a.object) current
          then a.subject ∷ []
          else []))

  -- An eligible assertion of the current node.
  unfoldable pub select_assertion : QueryPlan → Entry → Assertion → Walk → Progress
  select_assertion plan entry a w =
      if leb plan.max_assertions (length w.selected)
      then stopped (record w { truncated = true })
      else going (
          visit_all plan entry.depth (neighbors plan (graph_ref_key entry.ref) a)
            (record w { selected = add a.id w.selected }))

  abbrev consider_stored : QueryPlan → Entry → Walk → Option Assertion → Progress
  consider_stored plan entry w none = going w
  consider_stored plan entry w (some a) =
      if is_eligible plan a then select_assertion plan entry a w else going w

  -- One id of a candidate source.
  unfoldable pub consider : Store → QueryPlan → Entry → Text → Walk → Progress
  consider s plan entry id w =
      if has id w.considered
      then going w
      else if leb plan.max_considered_assertions (length w.considered)
      then stopped (record w { truncated = true })
      else consider_stored plan entry (record w { considered = w.considered ++ id ∷ [] })
          (get id s.assertions)

  unfoldable pub consider_all : Store → QueryPlan → Entry → List Text → Progress → Progress
  consider_all s plan entry ids (stopped w) = stopped w
  consider_all s plan entry [] (going w) = going w
  consider_all s plan entry (id ∷ ids) (going w) =
      consider_all s plan entry ids (consider s plan entry id w)

  -- An entry of the queue, with both candidate sources.
  unfoldable pub expand : Store → QueryPlan → Entry → Walk → Progress
  expand s plan entry w =
      let key = graph_ref_key entry.ref in
      let out = if is_out plan.direction then members s.outgoing key else [] in
      let into = if is_in plan.direction then members s.incoming key else [] in
      if leb plan.max_depth entry.depth
      then going w
      else consider_all s plan entry into (consider_all s plan entry out (going w))

  abbrev pub next_entry : List Entry → Option (Entry × List Entry)
  next_entry [] = none
  next_entry (entry ∷ queue) = some (entry, queue)

  -- The loop on the queue; `none` is fuel that ran out.
  unfoldable pub walk : ℕ → Store → QueryPlan → Progress → Option Walk
  walk fuel s plan (stopped w) = some w
  walk zero s plan (going w) = elim (next_entry w.queue) [ none ↦ some w | some e ↦ none ]
  walk (suc fuel) s plan (going w) = elim (next_entry w.queue) [
    | none ↦ some w
    | some (entry, queue) ↦ walk fuel s plan (expand s plan entry (record w { queue = queue }))
  ]

  unfoldable pub result_of : Store → Walk → TraversalResult
  result_of s w =
      let refs = sort compare_refs (values w.visited) in
      record {
        assertions = stored_of s w.selected;
        diagnostics = record {
          considered_assertions = length w.considered;
          max_depth_reached = w.max_depth_reached;
          visited_refs = length refs;
        };
        refs = refs;
        truncated = w.truncated;
      }

  unfoldable pub traverse : Store → QueryPlan → Option TraversalResult
  traverse s plan = elim (walk (traverse_fuel plan) s plan (going (first_walk plan))) [
    | none ↦ none
    | some w ↦ some (result_of s w)
  ]
