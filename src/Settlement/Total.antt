-- ===== src/Settlement/Total.antt =====
-- A settlement is reached if its envelopes are made: no check of the code fails.
use attunegraph.Common.{
  ◌≤◌, ◌≡◌, refl, ap, sym, ◌∙◌, subst, Option, none, some, List, map, arith, length, length-map,
  Option-cases, inl, inr, ◌⊎◌, Result, ok, err, ◌>>=◌, suc, Result-cases,
}
use attunegraph.Settlement.Types.{
  Axis, SkippedReason, Terminal, SettlementEntry, Inventory, Work, Attempt, LedgerMode, LedgerBody,
  CapacityBody, Canonical, LedgerEnvelope, SettlementResult, SettlementError,
}
use attunegraph.Settlement.{
  initial, attempted, entry_of, tally, counters, ordered, quarter, fits, settled, envelope,
  or_settled, passed_over, settle_optionals, abstain, invalid, abstained, settle_admitted,
  settle_inventory,
}
use attunegraph.Settlement.Counting.{
  IsSafeBudget, tally-is_consistent, length-settle_optionals, length-ordered,
}
use attunegraph.Settlement.Verdict.{
  Preflight-cases, attempted-IsEntryOf, settle_optionals-IsComplete,
}
use attunegraph.Settlement.Complete.{IsWithin, initial-IsWithin, IsEntryOf}
use attunegraph.Settlement.Fitted.{settled_total, fits_same, attempted_failure}

-- The envelope refuses a ledger or a capacity error of the inventory.
pub data IsRefused (ledger_canonical : LedgerBody → Result SettlementError Canonical)
    (capacity_canonical : CapacityBody → Result SettlementError Canonical) (inv : Inventory)
    (e : SettlementError) : Type 0 where
  by_ledger :
      (body : LedgerBody)
      → body.inventory_id ≡ inv.inventory_id
      → length body.entries ≡ suc (length inv.optionals)
      → ledger_canonical body ≡ err e
      → IsRefused ledger_canonical capacity_canonical inv e
  by_capacity :
      (body : CapacityBody)
      → body.inventory_id ≡ inv.inventory_id
      → capacity_canonical body ≡ err e
      → IsRefused ledger_canonical capacity_canonical inv e

module _ (ledger_canonical : LedgerBody → Result SettlementError Canonical)
    (capacity_canonical : CapacityBody → Result SettlementError Canonical) (inv : Inventory)
    (safe : IsSafeBudget inv.budget) (few : length inv.optionals ≤ 255) where
  abbrev Refusal : SettlementError → Type 0
  Refusal e = IsRefused ledger_canonical capacity_canonical inv e

  abbrev Reached : Result SettlementError SettlementResult → Type 0
  Reached x =
      ((r : SettlementResult) × (x ≡ ok r)) ⊎ ((e : SettlementError) × Refusal e × (x ≡ err e))

  -- A ledger with one entry for each candidate is made, or its envelope is refused.
  envelope_total :
      (mode : LedgerMode) (es : List SettlementEntry) (w : Work) (axis : Option Axis)
      → IsWithin inv.budget w
      → length es ≡ suc (length inv.optionals)
      → ((value : LedgerEnvelope) × (envelope ledger_canonical capacity_canonical mode
              inv.inventory_id es w axis
            ≡ ok value)
          × (value.ledger.counters.work ≡ w))
        ⊎ ((e : SettlementError) × Refusal e
            × (envelope ledger_canonical capacity_canonical mode inv.inventory_id es w axis
                ≡ err e))
  unfolding envelope counters
  envelope_total mode es w axis h size =
      let fine = tally-is_consistent inv.budget es w safe h (omega (arith, size, few)) in
      let body : LedgerBody = record {
        counters = tally es w;
        entries = es;
        inventory_id = inv.inventory_id;
        mode = mode;
        first_violated_axis = axis;
      } in
      elim (Result-cases (ledger_canonical body)) [
        | inl (e, bad) ↦ inr (e, IsRefused.by_ledger body refl size bad, rw (fine, bad) refl)
        | inr (c, made) ↦ inl (record { ledger = body; canonical = c }, rw (fine, made) refl, refl)
      ]

  invalid_total :
      (value : LedgerEnvelope) (over : Axis)
      → fits value.canonical.byte_length initial inv.budget ≡ some over
      → Reached (invalid ledger_canonical capacity_canonical inv value)
  unfolding invalid
  invalid_total value over unfit =
      let size = value.canonical.byte_length in
      let body : CapacityBody = record {
        first_violated_axis = over;
        inventory_id = inv.inventory_id;
        max_estimated_tokens = quarter size;
        max_output_bytes = size;
      } in
      elim (Result-cases (capacity_canonical body)) [
        | inl (e, bad) ↦ inr (e, IsRefused.by_capacity body refl bad, rw (unfit, bad) refl)
        | inr (c, made) ↦ inl (SettlementResult.over_capacity body c, rw (unfit, made) refl)
      ]

  abstained_total :
      (e : SettlementEntry) (reason : SkippedReason) (axis : Option Axis) (w : Work)
      → IsWithin inv.budget w
      → w.token ≡ 0
      → w.bytes ≡ 0
      → Reached (abstained ledger_canonical capacity_canonical inv e reason axis w)
  unfolding abstained abstain
  abstained_total e reason axis w h ht hb =
      let es = map (passed_over reason) inv.optionals in
      let size =
        length-ordered e es ∙ ap (λ n. suc n) (length-map (passed_over reason) inv.optionals) in
      elim (envelope_total LedgerMode.abstain (ordered e es) w axis h size) [
        | inr (why, refusal, ev) ↦ inr (why, refusal, rw ev refl)
        | inl (value, ev, ew) ↦ elim (settled_total value inv.budget safe) [
          | inl (r, er) ↦ inl (SettlementResult.settled r, rw (ev, er) refl)
          | inr (over, eo, er) ↦
              let unfit : fits value.canonical.byte_length initial inv.budget ≡ some over =
                sym (fits_same value.canonical.byte_length w inv.budget ht hb)
                ∙ subst (λ v. fits value.canonical.byte_length v inv.budget ≡ some over) ew eo in
              rw (ev, er) (invalid_total value over unfit)
        ]
      ]

  -- What is left when the ledger with all candidates does not fit on an axis.
  abbrev fallback : Attempt → Axis → Result SettlementError SettlementResult
  fallback core axis = do
    core_only ←
        envelope ledger_canonical capacity_canonical LedgerMode.core_only inv.inventory_id
          (ordered core.entry (map (passed_over SkippedReason.core_only_fallback) inv.optionals))
          core.work (some axis)
    result ← settled core_only inv.budget
    or_settled ledger_canonical capacity_canonical result (
        abstained ledger_canonical capacity_canonical inv
          (entry_of inv.core (Terminal.skipped SkippedReason.abstain_fallback))
          SkippedReason.abstain_fallback (some axis) initial)

  fallback_total :
      (core : Attempt) (axis : Axis) → IsWithin inv.budget core.work → Reached (fallback core axis)
  fallback_total core axis k =
      let es = map (passed_over SkippedReason.core_only_fallback) inv.optionals in
      let size =
        length-ordered core.entry es
        ∙ ap (λ n. suc n)
            (length-map (passed_over SkippedReason.core_only_fallback) inv.optionals) in
      elim (envelope_total LedgerMode.core_only (ordered core.entry es) core.work (some axis) k
        size) [
          | inr (why, refusal, ec) ↦ inr (why, refusal, rw ec refl)
          | inl (value, ec, wc) ↦ elim (settled_total value inv.budget safe) [
            | inl (r, er) ↦ inl (SettlementResult.settled r, rw (ec, er) refl)
            | inr (axis', eo, er) ↦
                rw (ec, er)
                  (abstained_total
                    (entry_of inv.core (Terminal.skipped SkippedReason.abstain_fallback))
                    SkippedReason.abstain_fallback (some axis) initial (initial-IsWithin inv.budget)
                    refl refl)
          ]
        ]

  settle_admitted_total :
      (core : Attempt)
      → IsEntryOf inv.core core.entry
      → IsWithin inv.budget core.work
      → Reached (settle_admitted ledger_canonical capacity_canonical inv core)
  unfolding settle_admitted
  settle_admitted_total core h k =
      let optionals = settle_optionals inv core.work in
      let all = settle_optionals-IsComplete inv core.entry core.work h k in
      let size =
        length-ordered core.entry optionals.entries
        ∙ ap (λ n. suc n) (length-settle_optionals inv core.work) in
      elim (envelope_total LedgerMode.normal (ordered core.entry optionals.entries) optionals.work
        none all.1 size) [
          | inr (why, refusal, en) ↦ inr (why, refusal, rw en refl)
          | inl (normal, en, wn) ↦ elim (settled_total normal inv.budget safe) [
            | inl (r, er) ↦ inl (SettlementResult.settled r, rw (en, er) refl)
            | inr (axis, eo, er) ↦
                let unfit : fits normal.canonical.byte_length optionals.work inv.budget
                    ≡ some axis =
                  subst (λ v. fits normal.canonical.byte_length v inv.budget ≡ some axis) wn eo in
                rw (en, er, unfit) (fallback_total core axis k)
          ]
        ]

  -- An inventory with 255 optional candidates at most and a budget of safe integers is settled, or
  -- the envelope refuses one of its ledgers: none of the checks in between fails.
  pub settle_inventory_total : Reached (settle_inventory ledger_canonical capacity_canonical inv)
  unfolding settle_inventory
  settle_inventory_total = elim (Preflight-cases inv.core.preflight) [
    | inr (why, bad) ↦
        simp (settle_inventory, bad)
          (abstained_total (entry_of inv.core (Terminal.rejected why))
            SkippedReason.core_not_admitted none initial (initial-IsWithin inv.budget) refl refl)
    | inl fine ↦
        let core = attempted inv.core initial inv.budget in
        let first =
          attempted-IsEntryOf inv.core inv.budget initial fine (initial-IsWithin inv.budget) in
        elim (Option-cases core.axis) [
          | inr (axis, over) ↦
              let kept =
                attempted_failure inv.core initial inv.budget axis (initial-IsWithin inv.budget)
                  over in
              simp (settle_inventory, fine, over)
                (abstained_total core.entry SkippedReason.after_first_failure (some axis) core.work
                  first.1 kept.0 kept.1)
          | inl admitted ↦
              simp (settle_inventory, fine, admitted) (settle_admitted_total core first.0 first.1)
        ]
  ]
