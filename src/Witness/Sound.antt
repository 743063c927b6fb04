-- ===== src/Witness/Sound.antt =====
-- The search ends, and a path that it returns is a path of the given assertions from the seed to the
-- target.
use attunegraph.Common.{
  ℕ, suc, ◌+◌, ◌≤◌, ◌<◌, ◌≡◌, refl, ap, sym, ◌∙◌, true, false, Option, none, some, List, [], ◌∷◌,
  ◌++◌, map, Text, text_eq, text_eq_iff, arith, leb, any, length, length-append, get_elem?, All,
  All-append, All-map, Bool-cases, inl, inr, leb-false→lt,
}
use mathlib.Core.List.{map-append}
use attunegraph.Common.Maps.{get}
use attunegraph.Common.Sets.{has, is_distinct, is_distinct-concat}
use attunegraph.Graph.Types.{GraphRef, Assertion, Direction}
use attunegraph.Graph.Keys.{graph_ref_key}
use attunegraph.Traverse.{is_out, is_in}
use attunegraph.Witness.{
  forth, back, PathStep, directions, Adjacency, steps_from, Entry, Frontier, Search, searching,
  found, is_reached, try_step, try_steps, read_entry, all_steps,
}
use attunegraph.Witness.Adjacency.{IsAdjacency, Under}
use attunegraph.Witness.Fuel.{potential, potential-lt}

-- A step along one of the assertions, in a direction that the plan allows.
pub data IsStep (plan : Direction) (assertions : List Assertion) (st : PathStep) : Type 0 where
  along :
      (i : ℕ)
      → get_elem? assertions i ≡ some st.assertion
      → is_out plan ≡ true
      → st.way ≡ forth
      → st.from ≡ st.assertion.subject
      → st.to ≡ st.assertion.object
      → IsStep plan assertions st
  against :
      (i : ℕ)
      → get_elem? assertions i ≡ some st.assertion
      → is_in plan ≡ true
      → st.way ≡ back
      → st.from ≡ st.assertion.object
      → st.to ≡ st.assertion.subject
      → IsStep plan assertions st

-- Each step begins at the node where the one before it ends.
abbrev pub Chain : GraphRef → List PathStep → GraphRef → Type 0
Chain start [] last = graph_ref_key start ≡ graph_ref_key last
Chain start (st ∷ path) last = (graph_ref_key st.from ≡ graph_ref_key start) × Chain st.to path last

abbrev pub step_ids : List PathStep → List Text
step_ids path = map (λ (st : PathStep). st.assertion.id) path

-- A path that the search may have: by steps of the assertions, within the depth, no assertion twice.
pub record IsTrail (plan : Direction) (assertions : List Assertion) (max_depth : ℕ)
    (seed : GraphRef) (path : List PathStep) (last : GraphRef) : Type 0 where
  pub chain : Chain seed path last
  pub steps : All (IsStep plan assertions) path
  pub short : length path ≤ max_depth
  pub distinct : is_distinct (step_ids path) ≡ true

weaken :
    (plan : Direction) (a : Assertion) (rest : List Assertion) (st : PathStep)
    → IsStep plan rest st
    → IsStep plan (a ∷ rest) st
weaken plan a rest st (along i e o w f t) = along (suc i) e o w f t
weaken plan a rest st (against i e o w f t) = against (suc i) e o w f t

directions-IsStep :
    (plan : Direction) (a : Assertion) (rest : List Assertion)
    → All (IsStep plan (a ∷ rest)) (directions a plan)
unfolding directions
directions-IsStep Direction.outgoing a rest = (along 0 refl refl refl refl refl, tt)
directions-IsStep Direction.incoming a rest = (against 0 refl refl refl refl refl, tt)
directions-IsStep Direction.both a rest =
    (along 0 refl refl refl refl refl, (against 0 refl refl refl refl refl, tt))

pub all_steps-IsStep :
    (plan : Direction) (assertions : List Assertion)
    → All (IsStep plan assertions) (all_steps plan assertions)
unfolding all_steps
all_steps-IsStep plan [] = tt
all_steps-IsStep plan (a ∷ rest) =
    All-append (IsStep plan (a ∷ rest)) (directions a plan) (all_steps plan rest)
      (directions-IsStep plan a rest)
      (All-map (IsStep plan rest) (IsStep plan (a ∷ rest)) (weaken plan a rest)
        (all_steps plan rest) (all_steps-IsStep plan rest))

-- A place of a list.
abbrev pub At : List PathStep → PathStep → Type 0
At steps st = (i : ℕ) × (get_elem? steps i ≡ some st)

pub All-At : (steps : List PathStep) → All (At steps) steps
All-At [] = tt
All-At (st ∷ steps) =
    ((0, refl), All-map (At steps) (At (st ∷ steps)) (λ x (i, e). (suc i, e)) steps (All-At steps))

pub All-both {ℓ} :
    {A : Type ℓ} (P Q : A → Type 0) (l : List A) → All P l → All Q l → All (λ x. P x × Q x) l
All-both P Q [] h k = tt
All-both P Q (x ∷ l) h k = ((h.0, k.0), All-both P Q l h.1 k.1)

Chain-concat :
    (start mid : GraphRef) (path : List PathStep) (st : PathStep)
    → Chain start path mid
    → graph_ref_key st.from ≡ graph_ref_key mid
    → Chain start (path ++ st ∷ []) st.to
Chain-concat start mid [] st h e = (e ∙ sym h, refl)
Chain-concat start mid (x ∷ path) st h e = (h.0, Chain-concat x.to mid path st h.1 e)

any-has :
    (id : Text) (path : List PathStep)
    → any (λ (part : PathStep). text_eq part.assertion.id id) path ≡ has id (step_ids path)
unfolding has
any-has id [] = refl
any-has id (st ∷ path) = ground (arith, any-has id path)

module _ (plan : Direction) (assertions : List Assertion) (max_depth : ℕ) (seed : GraphRef)
    (target : Text) where
  abbrev pub universe : List PathStep
  universe = all_steps plan assertions

  abbrev pub Usable : PathStep → Type 0
  Usable st = IsStep plan assertions st × At universe st

  abbrev pub EntryIsTrail : Entry → Type 0
  EntryIsTrail e = IsTrail plan assertions max_depth seed e.path e.ref

  -- A path whose last step is the target.
  pub record IsWitness (path : List PathStep) : Type 0 where
    pub initial : List PathStep
    pub last : PathStep
    pub split : path ≡ initial ++ last ∷ []
    pub target_is : last.assertion.id ≡ target
    pub trail : IsTrail plan assertions max_depth seed path last.to

  pub record IsFrontier (rounds : ℕ) (f : Frontier) : Type 0 where
    pub entries : All EntryIsTrail f.queue
    pub budget : length f.queue + potential max_depth universe f.visited ≤ rounds

  pub data IsSearch (rounds : ℕ) : Search → Type 0 where
    goes_on : {f : Frontier} → IsFrontier rounds f → IsSearch rounds (searching f)
    ends : {path : List PathStep} → IsWitness path → IsSearch rounds (found path)

  IsTrail-concat :
      (entry : Entry) (st : PathStep)
      → EntryIsTrail entry
      → IsStep plan assertions st
      → graph_ref_key st.from ≡ graph_ref_key entry.ref
      → length entry.path < max_depth
      → any (λ (part : PathStep). text_eq part.assertion.id st.assertion.id) entry.path ≡ false
      → IsTrail plan assertions max_depth seed (entry.path ++ st ∷ []) st.to
  IsTrail-concat entry st t is e lt new = record {
    chain = Chain-concat seed entry.ref entry.path st t.chain e;
    steps = All-append (IsStep plan assertions) entry.path (st ∷ []) t.steps (is, tt);
    short = omega (arith, lt, length-append entry.path (st ∷ []));
    distinct =
        ap is_distinct (map-append (λ (x : PathStep). x.assertion.id) entry.path (st ∷ []))
        ∙ is_distinct-concat st.assertion.id (step_ids entry.path)
        ∙ (let d = t.distinct in ground (arith, any-has st.assertion.id entry.path));
  }

  try_step-IsSearch :
      (rounds : ℕ) (entry : Entry) (st : PathStep) (f : Frontier)
      → EntryIsTrail entry
      → Usable st
      → graph_ref_key st.from ≡ graph_ref_key entry.ref
      → length entry.path < max_depth
      → IsFrontier rounds f
      → IsSearch rounds (try_step target entry st f)
  unfolding try_step
  try_step-IsSearch rounds entry st f t (is, (i, at)) e lt h =
      let path = entry.path ++ st ∷ [] in
      let longer = length-append entry.path (st ∷ []) in
      elim (Bool-cases
        (any (λ (part : PathStep). text_eq part.assertion.id st.assertion.id) entry.path)) [
          | inl old ↦ rw old (goes_on h)
          | inr new ↦
              let trail = IsTrail-concat entry st t is e lt new in
              elim (Bool-cases (text_eq st.assertion.id target)) [
                | inl hit ↦
                    rw (new, hit)
                      (ends (record {
                        initial = entry.path;
                        last = st;
                        split = refl;
                        target_is = (text_eq_iff st.assertion.id target).0 hit;
                        trail = trail;
                      }))
                | inr other ↦
                    elim (Bool-cases
                      (is_reached (get (graph_ref_key st.to) f.visited) (length path))) [
                        | inl seen ↦ rw (new, other, seen) (goes_on h)
                        | inr far ↦
                            let less =
                              potential-lt max_depth universe i st (length path) f.visited at
                                (omega (arith, lt, longer)) far in
                            let queued =
                              length-append f.queue (record { path = path; ref = st.to } ∷ []) in
                            rw (new, other, far)
                              (goes_on (record {
                                entries = All-append EntryIsTrail f.queue _ h.entries (trail, tt);
                                budget = omega (arith, h.budget, less, queued);
                              }))
                      ]
              ]
        ]

  try_steps-IsSearch :
      (rounds : ℕ) (entry : Entry) (steps : List PathStep) (s : Search)
      → EntryIsTrail entry
      → Under Usable (graph_ref_key entry.ref) steps
      → length entry.path < max_depth
      → IsSearch rounds s
      → IsSearch rounds (try_steps target entry steps s)
  unfolding try_steps
  try_steps-IsSearch rounds entry steps (found path) t u lt h = h
  try_steps-IsSearch rounds entry [] (searching f) t u lt h = h
  try_steps-IsSearch rounds entry (st ∷ steps) (searching f) t u lt (goes_on h) =
      try_steps-IsSearch rounds entry steps (try_step target entry st f) t u.1 lt
        (try_step-IsSearch rounds entry st f t u.0.0 u.0.1 lt h)

  pub read_entry-IsSearch :
      (rounds : ℕ) (m : Adjacency) (entry : Entry) (f : Frontier)
      → IsAdjacency Usable m
      → EntryIsTrail entry
      → IsFrontier rounds f
      → IsSearch rounds (read_entry m target max_depth entry f)
  unfolding read_entry
  read_entry-IsSearch rounds m entry f u t h =
      elim (Bool-cases (leb max_depth (length entry.path))) [
        | inl deep ↦ rw deep (goes_on h)
        | inr shallow ↦ rw shallow (
            try_steps-IsSearch rounds entry (steps_from (graph_ref_key entry.ref) m) (searching f) t
              (u (graph_ref_key entry.ref)) (leb-false→lt max_depth (length entry.path) shallow)
              (goes_on h))
      ]

  -- What the search answers: nothing, or a witness.
  pub data IsVerdict : Option (List PathStep) → Type 0 where
    absent : IsVerdict none
    witness : {path : List PathStep} → IsWitness path → IsVerdict (some path)
