-- ===== src/Settlement.antt =====
-- src/candidate-settlement-ledger.ts: how the candidates of an inventory are settled within a budget.
-- What names and measures a ledger is a parameter here; Envelopes gives the one of the code.
pub mod Types
mod Attempts
mod Ledgers
pub mod Complete
pub mod Verdict
pub mod Bounded
pub mod Ways
pub mod Counting
mod Fitted
pub mod Total
pub mod Envelopes
pub mod Admission
pub mod Admitted
pub mod Decided
mod Tests
mod Runs
use attunegraph.Common.{
  ℕ, zero, suc, ◌+◌, ◌/◌, max, Bool, true, false, ◌&&◌, not, Option, none, some, List, [], ◌∷◌,
  ◌++◌, map, ◌==◌, leb, ltb, if◌then◌else◌, Text, raw_compare, Sign, or_else, diff_sign, length,
  sort, Result, ok, err, ◌>>=◌, ◌>>◌, guard,
}
use attunegraph.Decision.{max_safe_integer}
use Types.{
  Axis, Role, SkippedReason, Terminal, SettlementEntry, Cost, Preflight, Candidate, Budget,
  Inventory, Work, Attempt, SettlementCounters, LedgerMode, LedgerBody, CapacityBody, Canonical,
  LedgerEnvelope, BoundedSettlement, SettlementResult, SettlementError,
}
unfoldable pub use Attempts.*
unfoldable pub use Ledgers.*

-- The entry of an optional candidate that is not attempted.
abbrev pub passed_over : SkippedReason → Candidate → SettlementEntry
passed_over reason q = elim q.preflight [
  | Preflight.eligible ↦ entry_of q (Terminal.skipped reason)
  | Preflight.refused why ↦ entry_of q (Terminal.rejected why)
]

unfoldable pub compare_ranks : Candidate → Candidate → Sign
compare_ranks left right =
    or_else (diff_sign left.rank right.rank) (raw_compare left.candidate_id right.candidate_id)

unfoldable pub rejections : List Candidate → List SettlementEntry
rejections [] = []
rejections (q ∷ rest) = elim q.preflight [
  | Preflight.eligible ↦ rejections rest
  | Preflight.refused why ↦ entry_of q (Terminal.rejected why) ∷ rejections rest
]

unfoldable pub eligibles : List Candidate → List Candidate
eligibles [] = []
eligibles (q ∷ rest) = elim q.preflight [
  | Preflight.eligible ↦ q ∷ eligibles rest
  | Preflight.refused why ↦ eligibles rest
]

abbrev pub is_some : Option Axis → Bool
is_some none = false
is_some (some axis) = true

-- The entries of the eligible candidates and the work behind them.
pub record Settling : Type 0 where
  pub entries : List SettlementEntry
  pub work : Work

unfoldable pub settle_eligible : Budget → Bool → Work → List Candidate → Settling
settle_eligible budget stopped work [] = record { entries = []; work = work }
settle_eligible budget true work (q ∷ rest) =
    let more = settle_eligible budget true work rest in
    record more {
      entries = entry_of q (Terminal.skipped SkippedReason.after_first_failure) ∷ more.entries;
    }
settle_eligible budget false work (q ∷ rest) =
    let next = attempted q work budget in
    let more = settle_eligible budget (is_some next.axis) next.work rest in
    record more { entries = next.entry ∷ more.entries }

-- The optional entries of the normal mode, and the work with that of the core.
unfoldable pub settle_optionals : Inventory → Work → Settling
settle_optionals inv work =
    let loop =
      settle_eligible inv.budget false work (sort compare_ranks (eligibles inv.optionals)) in
    record loop { entries = rejections inv.optionals ++ loop.entries }

-- `settled`, which has no result where the ledger does not fit.
unfoldable pub settled : LedgerEnvelope → Budget → Result SettlementError (Option BoundedSettlement)
settled value budget =
    let work = value.ledger.counters.work in
    let size = value.canonical.byte_length in
    elim (fits size work budget) [
      | some axis ↦ ok none
      | none ↦ elim (add size work.bytes) [
        | none ↦ err SettlementError.invalid_ledger_postcondition
        | some total ↦ elim (add (quarter size) work.token) [
          | none ↦ err SettlementError.invalid_ledger_postcondition
          | some tokens ↦ ok (
              some (record {
                envelope = value;
                total_output_bytes = total;
                estimated_tokens = tokens;
              }))
        ]
      ]
    ]

-- The axis on which something does not fit.
abbrev pub violated : Option Axis → Result SettlementError Axis
violated none = err SettlementError.invalid_ledger_postcondition
violated (some axis) = ok axis

module _ (ledger_canonical : LedgerBody → Result SettlementError Canonical)
    (capacity_canonical : CapacityBody → Result SettlementError Canonical) where
  unfoldable pub envelope :
      LedgerMode
      → Text
      → List SettlementEntry
      → Work
      → Option Axis
      → Result SettlementError LedgerEnvelope
  envelope mode inventory_id entries work axis = do
    counted ← counters entries work
    let body : LedgerBody = record {
      counters = counted;
      entries = entries;
      inventory_id = inventory_id;
      mode = mode;
      first_violated_axis = axis;
    }
    canonical ← ledger_canonical body
    ok (record { ledger = body; canonical = canonical })

  unfoldable pub abstain :
      Inventory
      → SettlementEntry
      → SkippedReason
      → Option Axis
      → Work
      → Result SettlementError LedgerEnvelope
  abstain inv core reason axis work =
      envelope LedgerMode.abstain inv.inventory_id
        (ordered core (map (passed_over reason) inv.optionals)) work axis

  unfoldable pub invalid : Inventory → LedgerEnvelope → Result SettlementError SettlementResult
  invalid inv abstention = do
    let size = abstention.canonical.byte_length
    axis ← violated (fits size initial inv.budget)
    let body : CapacityBody = record {
      first_violated_axis = axis;
      inventory_id = inv.inventory_id;
      max_estimated_tokens = quarter size;
      max_output_bytes = size;
    }
    canonical ← capacity_canonical body
    ok (SettlementResult.over_capacity body canonical)

  -- `settled(selected, budget) ?? rest`
  abbrev pub or_settled :
      Option BoundedSettlement
      → Result SettlementError SettlementResult
      → Result SettlementError SettlementResult
  or_settled none rest = rest
  or_settled (some result) rest = ok (SettlementResult.settled result)

  -- The end of each way that abstains.
  unfoldable pub abstained :
      Inventory
      → SettlementEntry
      → SkippedReason
      → Option Axis
      → Work
      → Result SettlementError SettlementResult
  abstained inv core reason axis work = do
    selected ← abstain inv core reason axis work
    result ← settled selected inv.budget
    or_settled result (invalid inv selected)

  -- The ways that are open once the core is admitted: all candidates, the core only, none.
  unfoldable pub settle_admitted : Inventory → Attempt → Result SettlementError SettlementResult
  settle_admitted inv core = do
    let optionals = settle_optionals inv core.work
    normal ←
        envelope LedgerMode.normal inv.inventory_id (ordered core.entry optionals.entries)
          optionals.work none
    result ← settled normal inv.budget
    or_settled result (do
      axis ← violated (fits normal.canonical.byte_length optionals.work inv.budget)
      core_only ←
          envelope LedgerMode.core_only inv.inventory_id
            (ordered core.entry (map (passed_over SkippedReason.core_only_fallback) inv.optionals))
            core.work (some axis)
      result ← settled core_only inv.budget
      or_settled result (
          abstained inv (entry_of inv.core (Terminal.skipped SkippedReason.abstain_fallback))
            SkippedReason.abstain_fallback (some axis) initial))

  -- `settleCandidateInventory` behind the checks of the inventory, before those of the result.
  unfoldable pub settle_inventory : Inventory → Result SettlementError SettlementResult
  settle_inventory inv = elim inv.core.preflight [
    | Preflight.refused why ↦
        abstained inv (entry_of inv.core (Terminal.rejected why)) SkippedReason.core_not_admitted
          none initial
    | Preflight.eligible ↦
        let core = attempted inv.core initial inv.budget in
        elim core.axis [
          | some axis ↦
              abstained inv core.entry SkippedReason.after_first_failure (some axis) core.work
          | none ↦ settle_admitted inv core
        ]
  ]
