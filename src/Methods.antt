-- ===== src/Methods.antt =====
-- src/in-memory-store.ts: the methods with an argument that a client writes, normalization included.
mod Tests
use attunegraph.Common.{
  ℕ, ◌≤◌, ◌<◌, ◌≡◌, refl, ap, sym, ◌∙◌, Bool, true, false, Option, none, some, List, Text, Sign,
  arith, take, select, sort, not, Result, ok, err, ◌>>=◌, Bool-cases, ◌⊎◌, inl, inr, length, leb,
}
use attunegraph.Common.Maps.{values}
use attunegraph.Common.Order.{IsOrder}
use attunegraph.Graph.Types.{
  Assertion, QueryPlan, TraversalResult, RecordedRange, ForgetScope, ForgetReceipt,
}
use attunegraph.Validation.{DataError, invalid_query, invalid_forget_scope}
use attunegraph.Validation.Plans.{
  plan_ok, scope_ok, normalize_plan, normalize_range, normalize_scope, compare_seeds,
}
use attunegraph.Validation.Accepted.{IsPlan, plan_ok-IsPlan, IsScope, scope_ok-IsScope}
use attunegraph.Store.State.{Store, compare_assertions}
use attunegraph.Store.Forget.{forget}
use attunegraph.Store.Forget.Effect.{Forgotten, forget-Forgotten}
use attunegraph.Store.Recorded.{recorded, is_past}
use attunegraph.Store.Recorded.Loop.{is_behind}
use attunegraph.Store.Recorded.Range.{recorded_lem}
use attunegraph.Store.Invariant.{IsWellFormed}
use attunegraph.Traverse.{traverse}
use attunegraph.Traverse.Answer.{IsAnswered, traverse-IsAnswered}

unfoldable pub traverse_plan :
    (Text → Text → Sign) → Store → QueryPlan → Result DataError (Option TraversalResult)
traverse_plan locale_compare s input = do
  plan ← normalize_plan locale_compare input
  ok (traverse locale_compare s plan)

unfoldable pub recorded_range : Store → RecordedRange → Result DataError (List Assertion)
recorded_range s input = do range ← normalize_range input; ok (recorded s range)

unfoldable pub forget_scope :
    Store → ForgetScope → Result DataError (Option (ForgetReceipt × Store))
forget_scope s input = do scope ← normalize_scope input; ok (forget s scope)

normalize_range-ok :
    (input range : RecordedRange)
    → normalize_range input ≡ ok range
    → (input ≡ range) × (0 < range.limit)
unfolding normalize_range
normalize_range-ok input range h = ground (arith, h)

-- On a well-formed store, a range that normalization accepts is answered by the first assertions, as
-- many as its limit allows, of those recorded behind `after` and not past `through`, in the order of
-- their instants and, within one instant, of their ids, when `localeCompare` is an order.
pub recorded_range_lem :
    (locale_compare : Text → Text → Sign) (locale : IsOrder locale_compare) (s : Store)
    (input range : RecordedRange)
    → IsWellFormed locale_compare s
    → normalize_range input ≡ ok range
    → recorded_range s input
      ≡ ok (
          take range.limit (
            select
              (λ a. not (is_past range.through a))
              (select
                (is_behind range.after)
                (sort (compare_assertions locale_compare) (values s.assertions)))))
unfolding recorded_range
recorded_range_lem locale_compare locale s input range w h = rw h (
    ap (λ x. ok x)
      (recorded_lem locale_compare locale s w range (normalize_range-ok input range h).1))

module _ (locale_compare : Text → Text → Sign) where
  -- A plan with its seeds in the order of their keys.
  abbrev sorted_plan : QueryPlan → QueryPlan
  sorted_plan input = record input { seeds = sort (compare_seeds locale_compare) input.seeds }

  -- What a client of `traverse` gets for a plan: a refusal if the plan is not one that is accepted, or
  -- an answer to this plan, with its seeds in order.
  pub data Served (s : Store) (input : QueryPlan)
      (reply : Result DataError (Option TraversalResult)) : Type 0 where
    refused : ¬ IsPlan (sorted_plan input) → reply ≡ err invalid_query → Served s input reply
    answered :
        (result : TraversalResult)
        → IsPlan (sorted_plan input)
        → reply ≡ ok (some result)
        → IsAnswered s (sorted_plan input) result
        → Served s input reply

  -- `traverse` on a well-formed store refuses a plan as invalid if it breaks a rule for plans, and
  -- gives an answer to the plan, with its seeds in order, if it breaks none: it always ends, within
  -- the plan's budgets and by its filters.
  pub traverse_plan-Served :
      (s : Store) (input : QueryPlan)
      → IsWellFormed locale_compare s
      → Served s input (traverse_plan locale_compare s input)
  unfolding traverse_plan normalize_plan
  traverse_plan-Served s input w =
      let accepts = plan_ok-IsPlan (sorted_plan input) in
      elim (Bool-cases (plan_ok (sorted_plan input))) [
        | inr bad ↦ Served.refused (λ h. let good = accepts.1 h in cc) (rw bad refl)
        | inl fine ↦
            let plan = accepts.0 fine in
            let (result, done, answer) =
              traverse-IsAnswered locale_compare s (sorted_plan input) w.own_id plan.seeds_fit in
            Served.answered result plan (rw (fine, done) refl) answer
      ]

  -- What a client of `forget` gets: a refusal if the scope is not one that is accepted, or the store
  -- without what must go.
  pub data Cleared (locale : IsOrder locale_compare) (s : Store) (scope : ForgetScope)
      (reply : Result DataError (Option (ForgetReceipt × Store))) : Type 0 where
    refused : ¬ IsScope scope → reply ≡ err invalid_forget_scope → Cleared locale s scope reply
    cleared :
        (receipt : ForgetReceipt) (after : Store)
        → IsScope scope
        → reply ≡ ok (some (receipt, after))
        → Forgotten locale_compare locale s scope receipt after
        → Cleared locale s scope reply

  -- `forget` on a well-formed store refuses a scope as invalid if it breaks a rule for scopes, and
  -- takes out exactly what the scope makes go if it breaks none, when `localeCompare` is an order.
  pub forget_scope-Cleared :
      (locale : IsOrder locale_compare) (s : Store) (input : ForgetScope)
      → IsWellFormed locale_compare s
      → Cleared locale s input (forget_scope s input)
  unfolding forget_scope normalize_scope
  forget_scope-Cleared locale s input w =
      let accepts = scope_ok-IsScope input in
      elim (Bool-cases (scope_ok input)) [
        | inr bad ↦ Cleared.refused (λ h. let good = accepts.1 h in cc) (rw bad refl)
        | inl fine ↦
            let (receipt, after, done, effect) = forget-Forgotten locale_compare locale s input w in
            Cleared.cleared receipt after (accepts.0 fine) (rw (fine, done) refl) effect
      ]
