-- ===== src/Settlement/Bounded.antt =====
-- What a settlement has, whichever way it was reached.
use attunegraph.Common.{
  ℕ, ◌+◌, ◌≤◌, ◌≡◌, ap, sym, none, some, List, ◌∷◌, ltb, arith, Bool-cases, Option-cases, inl, inr,
  ok, guard-eq-ok,
}
use attunegraph.Decision.{max_safe_integer}
use attunegraph.Settlement.Types.{
  SettlementEntry, Budget, Inventory, Work, LedgerEnvelope, BoundedSettlement, SettlementResult,
  SettlementError, SettlementCounters,
}
use attunegraph.Settlement.{
  add, add_within, initial, tally, is_consistent, counters, quarter, fits, settled,
}
use attunegraph.Settlement.Complete.{IsWithin, add_within-le, IsComplete}

-- A ledger with an entry for each candidate, whose work is within the budget.
pub record IsLedger (inv : Inventory) (value : LedgerEnvelope) : Type 0 where
  pub complete : IsComplete value.ledger.entries (inv.core ∷ inv.optionals)
  pub within : IsWithin inv.budget value.ledger.counters.work
  pub inventory : value.ledger.inventory_id ≡ inv.inventory_id

-- A ledger that is given out, with what it costs to give it out.
pub record IsBounded (inv : Inventory) (r : BoundedSettlement) : Type 0 where
  pub ledger : IsLedger inv r.envelope
  pub total_bytes :
      r.total_output_bytes
      ≡ r.envelope.canonical.byte_length + r.envelope.ledger.counters.work.bytes
  pub bounded_bytes : r.total_output_bytes ≤ inv.budget.max_output_bytes
  pub total_tokens :
      r.estimated_tokens
      ≡ quarter r.envelope.canonical.byte_length + r.envelope.ledger.counters.work.token
  pub bounded_tokens : r.estimated_tokens ≤ inv.budget.max_estimated_tokens

-- A result is a bounded ledger, or says what the smallest ledger needs, which is not there.
abbrev pub IsSettlement : Inventory → SettlementResult → Type 0
IsSettlement inv (SettlementResult.settled r) = IsBounded inv r
IsSettlement inv (SettlementResult.over_capacity body canonical) =
    (fits body.max_output_bytes initial inv.budget ≡ some body.first_violated_axis)
    × (body.max_estimated_tokens ≡ quarter body.max_output_bytes)
    × (body.inventory_id ≡ inv.inventory_id)

-- What fits is within both maxima.
pub fits-none :
    (size : ℕ) (w : Work) (b : Budget)
    → fits size w b ≡ none
    → (quarter size + w.token ≤ b.max_estimated_tokens) × (size + w.bytes ≤ b.max_output_bytes)
unfolding fits
fits-none size w b h =
    elim (Option-cases (add_within (quarter size) w.token b.max_estimated_tokens)) [
      | inl over ↦ absurd (let e = rw (fits, over) at h in cc)
      | inr (token, et) ↦
          let h = rw (fits, et) at h in
          elim (Option-cases (add_within size w.bytes b.max_output_bytes)) [
            | inl over ↦ absurd (let e = rw over at h in cc)
            | inr (bytes, eb) ↦
                let t = add_within-le (quarter size) w.token b.max_estimated_tokens token et in
                let y = add_within-le size w.bytes b.max_output_bytes bytes eb in
                (omega (arith, t.0, t.1), omega (arith, y.0, y.1))
          ]
    ]

add-some : (left right sum : ℕ) → add left right ≡ some sum → sum ≡ left + right
unfolding add
add-some left right sum h = elim (Bool-cases (ltb max_safe_integer (left + right))) [
  | inl unsafe ↦ absurd (let e = rw (add, unsafe) at h in cc)
  | inr safe ↦ let e = rw (add, safe) at h in cc
]

pub settled-IsBounded :
    (inv : Inventory) (value : LedgerEnvelope) (r : BoundedSettlement)
    → IsLedger inv value
    → settled value inv.budget ≡ ok (some r)
    → IsBounded inv r
unfolding settled
settled-IsBounded inv value r l e =
    let w = value.ledger.counters.work in
    let size = value.canonical.byte_length in
    elim (Option-cases (fits size w inv.budget)) [
      | inr (axis, over) ↦ absurd (let h = rw (settled, over) at e in cc)
      | inl fine ↦
          let e = rw (settled, fine) at e in
          elim (Option-cases (add size w.bytes)) [
            | inl unsafe ↦ absurd (let h = rw unsafe at e in cc)
            | inr (total, et) ↦
                let e = rw et at e in
                elim (Option-cases (add (quarter size) w.token)) [
                  | inl unsafe ↦ absurd (let h = rw unsafe at e in cc)
                  | inr (tokens, ek) ↦
                      let e = rw ek at e in
                      let within = fits-none size w inv.budget fine in
                      let st = add-some size w.bytes total et in
                      let sk = add-some (quarter size) w.token tokens ek in
                      let it : BoundedSettlement = record {
                        envelope = value;
                        total_output_bytes = total;
                        estimated_tokens = tokens;
                      } in
                      let bounded : IsBounded inv it = record {
                        ledger = l;
                        total_bytes = st;
                        bounded_bytes = omega (arith, st, within.1);
                        total_tokens = sk;
                        bounded_tokens = omega (arith, sk, within.0);
                      } in
                      let same : it ≡ r = cc in rw same at bounded
                ]
          ]
    ]

pub counters-work :
    (entries : List SettlementEntry) (w : Work) (c : SettlementCounters)
    → counters entries w ≡ ok c
    → c.work ≡ w
unfolding counters
counters-work entries w c h =
    let same : tally entries w ≡ c =
      let e =
        (guard-eq-ok (is_consistent (tally entries w)) SettlementError.unsafe_counter_state
          (ok (tally entries w)) h).1 in
      cc in
    ap (λ (d : SettlementCounters). d.work) (sym same)
