-- ===== src/Store/Reachable.antt =====
-- The stores that a client can build by the public methods that write.
use attunegraph.Common.{◌≡◌, refl, true, sort, some, List, [], Text, Sign, ok, arith}
use attunegraph.Common.Maps.{get, keys, values}
use attunegraph.Common.Sets.{has, is_distinct}
use attunegraph.Common.Order.{IsOrder}
use attunegraph.Graph.Types.{Assertion, AppendReceipt, ForgetScope, ForgetReceipt}
use attunegraph.Store.Index.{members}
use attunegraph.Store.Index.Of.{IsIndexOf}
use attunegraph.Store.Index.Tidy.{IsTidy-nil}
use attunegraph.Store.State.{Store, empty}
use attunegraph.Store.Append.{append}
use attunegraph.Store.Append.Effect.{append-IsWellFormed}
use attunegraph.Store.Forget.{forget}
use attunegraph.Store.Forget.Effect.{forget-Forgotten}
use attunegraph.Store.Verify.{verify}
use attunegraph.Store.Invariant.{IsWellFormed}
use attunegraph.Store.Sound.{issues-nil}

module _ (locale_compare : Text → Text → Sign) where
  pub data Reachable : Store → Type 0 where
    start : Reachable empty
    appended :
        {s : Store} (inputs : List Assertion) (receipt : AppendReceipt) (after : Store)
        → Reachable s
        → append locale_compare inputs s ≡ ok (receipt, after)
        → Reachable after
    forgot :
        {s : Store} (scope : ForgetScope) (receipt : ForgetReceipt) (after : Store)
        → Reachable s
        → forget s scope ≡ some (receipt, after)
        → Reachable after

  IsIndexOf-empty : (f : Assertion → List Text) → IsIndexOf f [] []
  unfolding get members has
  IsIndexOf-empty f = record { holds = λ k i. refl; tidy = IsTidy-nil }

  pub empty-IsWellFormed : IsWellFormed locale_compare empty
  unfolding get keys values is_distinct sort
  empty-IsWellFormed = record {
    journal = refl;
    prints = refl;
    distinct = refl;
    own_id = λ id a h. absurd (cc);
    own_print = λ id a h. absurd (cc);
    normal = λ id a h. absurd (cc);
    indexed = record {
      outgoing = IsIndexOf-empty _;
      incoming = IsIndexOf-empty _;
      sources = IsIndexOf-empty _;
      bases = IsIndexOf-empty _;
    };
    recorded = refl;
  }

  -- Every store that appends and forgets build from the empty one, in any order, is well formed,
  -- when `localeCompare` is an order.
  pub Reachable-IsWellFormed :
      (locale : IsOrder locale_compare) {s : Store} → Reachable s → IsWellFormed locale_compare s
  Reachable-IsWellFormed locale start = empty-IsWellFormed
  Reachable-IsWellFormed locale (appended {s} inputs receipt after r h) =
      append-IsWellFormed locale_compare locale s inputs receipt after
        (Reachable-IsWellFormed locale r) h
  Reachable-IsWellFormed locale (forgot {s} scope receipt after r h) =
      let (q, a, e, f) =
        forget-Forgotten locale_compare locale s scope (Reachable-IsWellFormed locale r) in
      let same : a ≡ after = ground arith in rw (← same) (f.well_formed)

  -- A store that appends and forgets build from the empty one passes its own `verify`, which finds
  -- no issue in it, when `localeCompare` is an order.
  pub Reachable-verify :
      (locale : IsOrder locale_compare) {s : Store}
      → Reachable s
      → ((verify locale_compare s).issues ≡ []) × ((verify locale_compare s).is_ok ≡ true)
  unfolding verify
  Reachable-verify locale {s} r =
      let none_found = issues-nil locale_compare s (Reachable-IsWellFormed locale r) in
      (none_found, rw (none_found, verify))
