-- ===== src/Validation/Accepted.antt =====
-- What src/validation.ts accepts as a plan and as a scope, said without its loops and sets.
use attunegraph.Common.{
  ℕ, ◌+◌, ◌≤◌, ◌≡◌, ◌≢◌, refl, Bool, true, false, not, Option, none, some, List, [], ◌∷◌, map, Text,
  arith, length, any, All, Option-cases, inl, inr, ◌↔◌, text_eq_iff,
}
use attunegraph.Common.Sets.{has, is_distinct}
use attunegraph.Graph.Types.{EpistemicClass, QueryPlan, ForgetScope, predicate_text, epistemic_text}
use attunegraph.Graph.Instant.{parse_instant}
use attunegraph.Graph.Keys.{graph_ref_key}
use attunegraph.Validation.{safe_text, optional, is_canonical, ref_ok, evidence_ok}
use attunegraph.Validation.Plans.{plan_ok, is_choice, classes_ok, class_names, scope_ok}

-- No two members are the same.
abbrev pub IsDistinct : List Text → Type 0
IsDistinct [] = Unit
IsDistinct (x ∷ xs) = All (λ y. y ≢ x) xs × IsDistinct xs

has-All : (x : Text) (xs : List Text) → has x xs ≡ false ↔ All (λ y. y ≢ x) xs
unfolding has
has-All x [] = ((λ h. tt), λ h. refl)
has-All x (y ∷ xs) =
    let rest = has-All x xs in
    (
      λ h. ((λ e. ground (arith, h, text_eq_iff y x, e)), rest.0 (ground (arith, h))),
      λ h. ground (arith, rest.1 h.1, text_eq_iff y x, h.0),
    )

is_distinct-IsDistinct : (xs : List Text) → is_distinct xs ≡ true ↔ IsDistinct xs
unfolding is_distinct
is_distinct-IsDistinct [] = ((λ h. tt), λ h. refl)
is_distinct-IsDistinct (x ∷ xs) =
    let rest = is_distinct-IsDistinct xs in
    let fresh = has-All x xs in
    (
      λ h. (fresh.0 (ground (arith, h)), rest.0 (ground (arith, h))),
      λ h. ground (arith, fresh.1 h.0, rest.1 h.1),
    )

any-All {ℓ} :
    {A : Type ℓ} (test : A → Bool) (xs : List A)
    → any (λ x. not (test x)) xs ≡ false ↔ All (λ x. test x ≡ true) xs
any-All test [] = ((λ h. tt), λ h. refl)
any-All test (x ∷ xs) =
    let rest = any-All test xs in
    (λ h. (ground (arith, h), rest.0 (ground (arith, h))), λ h. ground (arith, h.0, rest.1 h.1))

-- A time that is given is an instant.
abbrev pub IsTime : Option Text → Type 0
IsTime none = Unit
IsTime (some s) = (t : ℕ) × (parse_instant s ≡ some t)

is_canonical-IsTime : (o : Option Text) → optional is_canonical o ≡ true ↔ IsTime o
unfolding is_canonical
is_canonical-IsTime none = ((λ h. tt), λ h. refl)
is_canonical-IsTime (some s) = elim (Option-cases (parse_instant s)) [
  | inl e ↦
      ((λ h. absurd (let k = rw (is_canonical, e) at h in cc)), λ h. absurd (let k = h.1 in cc))
  | inr (t, e) ↦ ((λ h. (t, e)), λ h. rw (is_canonical, e) refl)
]

abbrev pub IsBetween : ℕ → ℕ → ℕ → Type 0
IsBetween n low high = (low ≤ n) × (n ≤ high)

-- A list that is not empty and not too long, without a member that stands twice.
abbrev pub IsChoice : ℕ → List Text → Type 0
IsChoice most xs = IsBetween (length xs) 1 most × IsDistinct xs

abbrev pub IsClasses : Option (List EpistemicClass) → Type 0
IsClasses none = Unit
IsClasses (some classes) = IsChoice 4 (map epistemic_text classes)

-- A plan that is accepted.
pub record IsPlan (plan : QueryPlan) : Type 0 where
  pub seeds : IsChoice 32 (map graph_ref_key plan.seeds)
  pub refs : All (λ ref. ref_ok ref ≡ true) plan.seeds
  pub predicates : IsChoice 17 (map predicate_text plan.predicates)
  pub classes : IsClasses plan.epistemic_classes
  pub valid_at : IsTime plan.valid_at
  pub recorded_at_or_before : IsTime plan.recorded_at_or_before
  pub assertions : IsBetween plan.max_assertions 1 256
  pub considered : IsBetween plan.max_considered_assertions 1 1024
  pub visited : IsBetween plan.max_visited_refs 1 1024
  pub assertions_fit : plan.max_assertions ≤ plan.max_considered_assertions
  pub seeds_fit : length plan.seeds ≤ plan.max_visited_refs
  pub depth : plan.max_depth ≤ 4

is_choice-IsChoice : (most : ℕ) (xs : List Text) → is_choice most xs ≡ true ↔ IsChoice most xs
is_choice-IsChoice most xs =
    let distinct = is_distinct-IsDistinct xs in
    (
      λ h. ((ground (arith, h), ground (arith, h)), distinct.0 (ground (arith, h))),
      λ h. ground (arith, h.0.0, h.0.1, distinct.1 h.1),
    )

classes_ok-IsClasses :
    (plan : QueryPlan) → classes_ok (class_names plan) ≡ true ↔ IsClasses plan.epistemic_classes
classes_ok-IsClasses plan =
    elim plan.epistemic_classes
      as (λ o.
        classes_ok (elim o [ none ↦ none | some classes ↦ some (map epistemic_text classes) ])
          ≡ true
        ↔ IsClasses o) [
          | none ↦ ((λ h. tt), λ h. refl)
          | some classes ↦ is_choice-IsChoice 4 (map epistemic_text classes)
        ]

-- The checks of a plan accept what is said to be accepted, and nothing else.
pub plan_ok-IsPlan : (plan : QueryPlan) → plan_ok plan ≡ true ↔ IsPlan plan
unfolding plan_ok
plan_ok-IsPlan plan =
    let seeds = is_choice-IsChoice 32 (map graph_ref_key plan.seeds) in
    let refs = any-All ref_ok plan.seeds in
    let predicates = is_choice-IsChoice 17 (map predicate_text plan.predicates) in
    let classes = classes_ok-IsClasses plan in
    let valid = is_canonical-IsTime plan.valid_at in
    let recorded = is_canonical-IsTime plan.recorded_at_or_before in
    (
      λ h. record {
        seeds = seeds.0 (ground (arith, h));
        refs = refs.0 (ground (arith, h));
        predicates = predicates.0 (ground (arith, h));
        classes = classes.0 (ground (arith, h));
        valid_at = valid.0 (ground (arith, h));
        recorded_at_or_before = recorded.0 (ground (arith, h));
        assertions = (ground (arith, h), ground (arith, h));
        considered = (ground (arith, h), ground (arith, h));
        visited = (ground (arith, h), ground (arith, h));
        assertions_fit = ground (arith, h);
        seeds_fit = ground (arith, h);
        depth = ground (arith, h);
      },
      λ h.
          let a = seeds.1 h.seeds in
          let b = refs.1 h.refs in
          let c = predicates.1 h.predicates in
          let d = classes.1 h.classes in
          let e = valid.1 h.valid_at in
          let f = recorded.1 h.recorded_at_or_before in
          rw (a, b, c, d, e, f)
            (ground (
              arith, h.assertions, h.considered, h.visited, h.assertions_fit, h.seeds_fit, h.depth,
            )),
    )

-- A scope that is accepted.
pub record IsScope (scope : ForgetScope) : Type 0 where
  pub few_ids : length scope.assertion_ids ≤ 1024
  pub ids : All (λ id. safe_text 512 id ≡ true) scope.assertion_ids
  pub distinct : IsDistinct scope.assertion_ids
  pub few_graph_refs : length scope.graph_refs ≤ 1024
  pub graph_refs : All (λ ref. ref_ok ref ≡ true) scope.graph_refs
  pub few_source_refs : length scope.source_refs ≤ 1024
  pub source_refs : All (λ ref. evidence_ok ref ≡ true) scope.source_refs
  pub some_name :
      1 ≤ length scope.assertion_ids + length scope.graph_refs + length scope.source_refs

-- The checks of a scope, likewise.
pub scope_ok-IsScope : (scope : ForgetScope) → scope_ok scope ≡ true ↔ IsScope scope
unfolding scope_ok
scope_ok-IsScope scope =
    let ids = any-All (safe_text 512) scope.assertion_ids in
    let distinct = is_distinct-IsDistinct scope.assertion_ids in
    let graph_refs = any-All ref_ok scope.graph_refs in
    let source_refs = any-All evidence_ok scope.source_refs in
    (
      λ h. record {
        few_ids = ground (arith, h);
        ids = ids.0 (ground (arith, h));
        distinct = distinct.0 (ground (arith, h));
        few_graph_refs = ground (arith, h);
        graph_refs = graph_refs.0 (ground (arith, h));
        few_source_refs = ground (arith, h);
        source_refs = source_refs.0 (ground (arith, h));
        some_name = ground (arith, h);
      },
      λ h.
          let a = ids.1 h.ids in
          let b = distinct.1 h.distinct in
          let c = graph_refs.1 h.graph_refs in
          let d = source_refs.1 h.source_refs in
          rw (a, b, c, d)
            (ground (arith, h.few_ids, h.few_graph_refs, h.few_source_refs, h.some_name)),
    )
