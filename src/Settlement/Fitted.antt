-- ===== src/Settlement/Fitted.antt =====
-- Whether a ledger fits (`settled` and `fits` of src/candidate-settlement-ledger.ts), and what a
-- candidate that fails leaves as it was.
use attunegraph.Common.{
  ℕ, ◌+◌, ◌≤◌, ◌≡◌, refl, ap, ◌∙◌, false, none, some, ltb, arith, Option-cases, inl, inr, ◌⊎◌, ok,
}
use attunegraph.Decision.{max_safe_integer}
use attunegraph.Settlement.Types.{Axis, Candidate, Budget, Work, LedgerEnvelope, BoundedSettlement}
use attunegraph.Settlement.{add, initial, attempted, quarter, fits, settled}
use attunegraph.Settlement.Bounded.{fits-none}
use attunegraph.Settlement.Counting.{IsSafeBudget}
use attunegraph.Settlement.Complete.{IsWithin, attempted_rule}

add_safe : (left right : ℕ) → left + right ≤ max_safe_integer → add left right ≡ some (left + right)
unfolding add
add_safe left right h =
    let e : ltb max_safe_integer (left + right) ≡ false = ground (arith, h) in rw e refl

-- A ledger is given out, or it does not fit.
pub settled_total :
    (value : LedgerEnvelope) (b : Budget)
    → IsSafeBudget b
    → ((r : BoundedSettlement) × (settled value b ≡ ok (some r)))
      ⊎ ((axis : Axis) × (fits value.canonical.byte_length value.ledger.counters.work b ≡ some axis)
          × (settled value b ≡ ok none))
unfolding settled
settled_total value b s =
    let w = value.ledger.counters.work in
    let size = value.canonical.byte_length in
    elim (Option-cases (fits size w b)) [
      | inr (axis, over) ↦ inr (axis, over, rw (settled, over) refl)
      | inl fine ↦
          let within = fits-none size w b fine in
          let bytes = add_safe size w.bytes (omega (arith, within.1, s.bytes)) in
          let token = add_safe (quarter size) w.token (omega (arith, within.0, s.token)) in
          let r : BoundedSettlement = record {
            envelope = value;
            total_output_bytes = size + w.bytes;
            estimated_tokens = quarter size + w.token;
          } in
          inl (r, rw (settled, fine, bytes, token) refl)
    ]

pub fits_same :
    (size : ℕ) (w : Work) (b : Budget)
    → w.token ≡ 0
    → w.bytes ≡ 0
    → fits size w b ≡ fits size initial b
unfolding fits
fits_same size w b ht hb =
    ap (λ t. fits size (record w { token = t }) b) ht
    ∙ ap (λ y. fits size (record initial { bytes = y }) b) hb

-- A candidate that fails adds no tokens and no bytes.
pub attempted_failure :
    (q : Candidate) (w : Work) (b : Budget) (axis : Axis)
    → IsWithin b w
    → (attempted q w b).axis ≡ some axis
    → ((attempted q w b).work.token ≡ w.token) × ((attempted q w b).work.bytes ≡ w.bytes)
attempted_failure q w b axis h =
    attempted_rule (λ a. a.axis ≡ some axis → (a.work.token ≡ w.token) × (a.work.bytes ≡ w.bytes)) q
      b w (λ x v k kt kb e. (kt, kb)) (λ v k e. absurd (cc)) h
