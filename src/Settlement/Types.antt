-- ===== src/Settlement/Types.antt =====
-- src/candidate-settlement-ledger.ts: candidates, budgets and ledgers.
use attunegraph.Common.{ℕ, Option, List, Text}
use attunegraph.Envelope.Contract.{EnvelopeError}

-- `SettlementAxis`
pub data Axis : Type 0 where
  depth considered visited assertions token bytes : Axis

pub data Role : Type 0 where
  core optional : Role

-- `SkippedReasonId`
pub data SkippedReason : Type 0 where
  core_not_admitted after_first_failure core_only_fallback abstain_fallback : SkippedReason

-- `terminalState` with its reason.
pub data Terminal : Type 0 where
  admitted : Terminal
  rejected : Text → Terminal
  failed : Axis → Terminal
  skipped : SkippedReason → Terminal

pub record SettlementEntry : Type 0 where
  pub candidate_id : Text
  pub role : Role
  pub terminal : Terminal

pub record Cost : Type 0 where
  pub depth : ℕ
  pub considered_assertions : ℕ
  pub visited_refs : ℕ
  pub assertions : ℕ
  pub estimated_tokens : ℕ
  pub output_bytes : ℕ

pub data Preflight : Type 0 where
  eligible : Preflight
  refused : Text → Preflight

pub record Candidate : Type 0 where
  pub candidate_id : Text
  pub role : Role
  pub preflight : Preflight
  pub rank : ℕ
  pub cost : Cost

pub record Budget : Type 0 where
  pub max_depth : ℕ
  pub max_considered_assertions : ℕ
  pub max_visited_refs : ℕ
  pub max_assertions : ℕ
  pub max_estimated_tokens : ℕ
  pub max_output_bytes : ℕ

pub record Inventory : Type 0 where
  pub inventory_id : Text
  pub budget : Budget
  pub core : Candidate
  pub optionals : List Candidate

pub record Work : Type 0 where
  pub depth : ℕ
  pub considered : ℕ
  pub visited : ℕ
  pub assertions : ℕ
  pub token : ℕ
  pub bytes : ℕ

pub record Attempt : Type 0 where
  pub entry : SettlementEntry
  pub work : Work
  pub axis : Option Axis

pub record SettlementCounters : Type 0 where
  pub candidate_count : ℕ
  pub admitted : ℕ
  pub rejected : ℕ
  pub failed : ℕ
  pub skipped : ℕ
  pub work : Work

pub data LedgerMode : Type 0 where
  normal core_only abstain : LedgerMode

-- A ledger without its id.
pub record LedgerBody : Type 0 where
  pub counters : SettlementCounters
  pub entries : List SettlementEntry
  pub inventory_id : Text
  pub mode : LedgerMode
  pub first_violated_axis : Option Axis

-- `CapacityErrorEnvelopeV1` without its id.
pub record CapacityBody : Type 0 where
  pub first_violated_axis : Axis
  pub inventory_id : Text
  pub max_estimated_tokens : ℕ
  pub max_output_bytes : ℕ

-- What the canonical envelope of a body gives.
pub record Canonical : Type 0 where
  pub content_id : Text
  pub json : Text
  pub byte_length : ℕ

pub record LedgerEnvelope : Type 0 where
  pub ledger : LedgerBody
  pub canonical : Canonical

-- `BoundedSettlementResult`
pub record BoundedSettlement : Type 0 where
  pub envelope : LedgerEnvelope
  pub total_output_bytes : ℕ
  pub estimated_tokens : ℕ

-- `CandidateSettlementResult`
pub data SettlementResult : Type 0 where
  settled : BoundedSettlement → SettlementResult
  over_capacity : CapacityBody → Canonical → SettlementResult

-- The reasons of a `CandidateSettlementError`, and the errors of the canonical envelope.
pub data SettlementError : Type 0 where
  invalid_role invalid_candidate_id invalid_number invalid_reason_id invalid_rank : SettlementError
  invalid_rejected_shape too_many_optionals duplicate_candidate_id : SettlementError
  unsafe_counter_state invalid_ledger_postcondition : SettlementError
  envelope_refused : EnvelopeError → SettlementError
