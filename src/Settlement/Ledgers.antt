-- ===== src/Settlement/Ledgers.antt =====
-- src/candidate-settlement-ledger.ts: the counters and the order of a ledger, and whether it fits.
use attunegraph.Common.{
  ℕ, ◌+◌, ◌/◌, Bool, true, false, ◌&&◌, Option, none, some, List, [], ◌∷◌, ◌==◌, leb, if◌then◌else◌,
  raw_compare, Sign, length, sort, Result, ok, ◌>>◌, guard,
}
use attunegraph.Decision.{max_safe_integer}
use attunegraph.Settlement.Types.{
  Axis, Terminal, SettlementEntry, Budget, Work, SettlementCounters, SettlementError,
}
use attunegraph.Settlement.Attempts.{add_within}

-- How many entries end so.
abbrev pub is_admitted : Terminal → Bool
is_admitted Terminal.admitted = true
is_admitted _ = false

abbrev pub is_rejected : Terminal → Bool
is_rejected (Terminal.rejected reason) = true
is_rejected _ = false

abbrev pub is_failed : Terminal → Bool
is_failed (Terminal.failed axis) = true
is_failed _ = false

abbrev pub is_skipped : Terminal → Bool
is_skipped (Terminal.skipped reason) = true
is_skipped _ = false

unfoldable pub count : (Terminal → Bool) → List SettlementEntry → ℕ
count test [] = 0
count test (e ∷ entries) = (if test e.terminal then 1 else 0) + count test entries

abbrev pub is_safe : ℕ → Bool
is_safe n = leb n max_safe_integer

abbrev pub tally : List SettlementEntry → Work → SettlementCounters
tally entries work = record {
  candidate_count = length entries;
  admitted = count is_admitted entries;
  rejected = count is_rejected entries;
  failed = count is_failed entries;
  skipped = count is_skipped entries;
  work = work;
}

-- The sum of the four counts, and that all numbers are safe.
unfoldable pub is_consistent : SettlementCounters → Bool
is_consistent c =
    (c.candidate_count == c.admitted + c.rejected + c.failed + c.skipped)
    && is_safe c.candidate_count
    && is_safe c.admitted
    && is_safe c.rejected
    && is_safe c.failed
    && is_safe c.skipped
    && is_safe c.work.depth
    && is_safe c.work.considered
    && is_safe c.work.visited
    && is_safe c.work.assertions
    && is_safe c.work.token
    && is_safe c.work.bytes

unfoldable pub counters : List SettlementEntry → Work → Result SettlementError SettlementCounters
counters entries work = do
  guard (is_consistent (tally entries work)) SettlementError.unsafe_counter_state
  ok (tally entries work)

unfoldable pub compare_entries : SettlementEntry → SettlementEntry → Sign
compare_entries left right = raw_compare left.candidate_id right.candidate_id

unfoldable pub ordered : SettlementEntry → List SettlementEntry → List SettlementEntry
unfolding compare_entries
ordered core optionals = core ∷ sort compare_entries optionals

-- `Math.ceil(size / 4)`
abbrev pub quarter : ℕ → ℕ
quarter size = (size + 3) / 4

unfoldable pub fits : ℕ → Work → Budget → Option Axis
unfolding add_within
fits size work budget = elim (add_within (quarter size) work.token budget.max_estimated_tokens) [
  | none ↦ some Axis.token
  | some token ↦ elim (add_within size work.bytes budget.max_output_bytes) [
    | none ↦ some Axis.bytes
    | some bytes ↦ none
  ]
]
