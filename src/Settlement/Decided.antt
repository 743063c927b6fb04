-- ===== src/Settlement/Decided.antt =====
-- Each inventory is rejected by its checks or settled.
use attunegraph.Common.{◌≡◌, Text, length, suc, ok, err}
use attunegraph.Settlement.Types.{
  Inventory, LedgerBody, CapacityBody, SettlementResult, SettlementError,
}
use attunegraph.Settlement.Bounded.{IsSettlement}
use attunegraph.Envelope.Values.{external_mutable}
use attunegraph.Envelope.Contract.{EnvelopeError}
use attunegraph.Envelope.{canonicalize_immutable_envelope}
use attunegraph.Settlement.Envelopes.{ledger_spec, error_spec, ledger_input, capacity_input}
use attunegraph.Settlement.Admitted.{IsAdmitted}
use attunegraph.Settlement.Admission.{check_inventory, settle_candidate_inventory}

-- The envelope of a ledger with an entry for each candidate is refused, or that of a capacity error.
pub data IsUnsealed (sha256_hex : Text → Text) (inv : Inventory) (why : EnvelopeError)
    : Type 0 where
  ledger :
      (body : LedgerBody)
      → body.inventory_id ≡ inv.inventory_id
      → length body.entries ≡ suc (length inv.optionals)
      → canonicalize_immutable_envelope sha256_hex (ledger_input body) external_mutable ledger_spec
        ≡ err why
      → IsUnsealed sha256_hex inv why
  capacity :
      (body : CapacityBody)
      → body.inventory_id ≡ inv.inventory_id
      → canonicalize_immutable_envelope sha256_hex (capacity_input body) external_mutable error_spec
        ≡ err why
      → IsUnsealed sha256_hex inv why

module _ (sha256_hex : Text → Text) (inv : Inventory) where
  -- A settlement of an admitted inventory.
  abbrev pub Settled : Type 0
  Settled =
      (r : SettlementResult) × (settle_candidate_inventory sha256_hex inv ≡ ok r)
      × IsAdmitted inv
      × IsSettlement inv r

  -- The inventory is not to be admitted, and the first check that fails gives the error.
  abbrev pub Rejected : Type 0
  Rejected =
      (e : SettlementError) × (check_inventory inv ≡ err e)
      × (¬ IsAdmitted inv)
      × (settle_candidate_inventory sha256_hex inv ≡ err e)

  -- The inventory is admitted, and an envelope of one of its ledgers or of its capacity error is
  -- refused, which gives the error.
  abbrev pub Refused : Type 0
  Refused =
      (why : EnvelopeError) × (settle_candidate_inventory sha256_hex inv
        ≡ err (SettlementError.envelope_refused why))
      × IsAdmitted inv
      × IsUnsealed sha256_hex inv why
