-- ===== src/Settlement/Admission.antt =====
-- src/candidate-settlement-ledger.ts: the checks of an inventory (`candidate` and `inventory`, on
-- arguments of the declared types) in front of the settlement.
use attunegraph.Common.{
  ℕ, Bool, true, false, ◌&&◌, ◌||◌, not, List, [], ◌∷◌, ◌==◌, leb, if◌then◌else◌, Text, codes,
  text_eq, length, take, drop, Result, ok, ◌>>◌, guard,
}
use attunegraph.Common.Sets
use attunegraph.Common.Sets.{has, is_distinct, is_distinct-concat}
use attunegraph.AttuneQl.Tokens.{is_digit}
use attunegraph.Settlement.Types.{
  Role, Cost, Preflight, Candidate, Budget, Inventory, SettlementResult, SettlementError,
}
use attunegraph.Settlement.{is_safe, settle_inventory}
use attunegraph.Settlement.Envelopes.{ledger_canonical, capacity_canonical}

-- A letter `a` to `z`.
unfoldable pub is_lower : ℕ → Bool
is_lower c = leb b'a' c && leb c b'z'

unfoldable pub is_id_mark : ℕ → Bool
is_id_mark c = c == b'.' || c == b'_' || c == b':' || c == b'-'

abbrev pub is_dash : ℕ → Bool
is_dash c = c == b'-'

-- The patterns behind their first letter: lower-case letters and digits, with marks between them.
unfoldable pub is_marked : (ℕ → Bool) → Bool → Text → Bool
is_marked mark after_mark [] = not after_mark
is_marked mark after_mark (c ∷ s) =
    let rest = is_marked mark (mark c) s in
    if is_lower c || is_digit c then rest else if mark c && not after_mark then rest else false

unfoldable pub is_pattern : (ℕ → Bool) → Text → Bool
is_pattern mark [] = false
is_pattern mark (c ∷ s) = is_lower c && is_marked mark false s

-- `id`
unfoldable pub is_candidate_id : Text → Bool
is_candidate_id s = leb 1 (length s) && leb (length s) 96 && is_pattern is_id_mark s

-- `semantic`
unfoldable pub is_reason_id : Text → Bool
is_reason_id s =
    leb (length s) 80 && text_eq (take 9 s) (codes "semantic:") && is_pattern is_dash (drop 9 s)

abbrev pub is_same_role : Role → Role → Bool
is_same_role Role.core Role.core = true
is_same_role Role.optional Role.optional = true
is_same_role _ _ = false

abbrev pub is_refused : Preflight → Bool
is_refused Preflight.eligible = false
is_refused (Preflight.refused why) = true

abbrev pub has_reason : Preflight → Bool
has_reason Preflight.eligible = true
has_reason (Preflight.refused why) = is_reason_id why

-- `zero`
unfoldable pub is_free : Cost → Bool
is_free c =
    c.depth == 0
    && c.considered_assertions == 0
    && c.visited_refs == 0
    && c.assertions == 0
    && c.estimated_tokens == 0
    && c.output_bytes == 0

unfoldable pub is_safe_cost : Cost → Bool
is_safe_cost c =
    is_safe c.depth
    && is_safe c.considered_assertions
    && is_safe c.visited_refs
    && is_safe c.assertions
    && is_safe c.estimated_tokens
    && is_safe c.output_bytes

unfoldable pub is_safe_budget : Budget → Bool
is_safe_budget b =
    is_safe b.max_depth
    && is_safe b.max_considered_assertions
    && is_safe b.max_visited_refs
    && is_safe b.max_assertions
    && is_safe b.max_estimated_tokens
    && is_safe b.max_output_bytes

unfoldable pub check_candidate : Role → Candidate → Result SettlementError (Unit {0})
check_candidate role q = do
  guard (is_same_role q.role role) SettlementError.invalid_role
  guard (is_candidate_id q.candidate_id) SettlementError.invalid_candidate_id
  guard (is_safe q.rank) SettlementError.invalid_number
  guard (has_reason q.preflight) SettlementError.invalid_reason_id
  guard (is_safe_cost q.cost) SettlementError.invalid_number
  guard (not ((is_same_role role Role.core || is_refused q.preflight) && not (q.rank == 0)))
      SettlementError.invalid_rank
  guard (not (is_refused q.preflight && not (is_free q.cost)))
      SettlementError.invalid_rejected_shape

-- The loop on the optional candidates.
unfoldable pub check_optionals : List Text → List Candidate → Result SettlementError (Unit {0})
check_optionals seen [] = ok tt
check_optionals seen (q ∷ rest) = do
  check_candidate Role.optional q
  guard (not (has q.candidate_id seen)) SettlementError.duplicate_candidate_id
  check_optionals (Sets.add q.candidate_id seen) rest

-- `inventory`
unfoldable pub check_inventory : Inventory → Result SettlementError (Unit {0})
check_inventory inv = do
  guard (is_safe_budget inv.budget) SettlementError.invalid_number
  check_candidate Role.core inv.core
  guard (leb (length inv.optionals) 255) SettlementError.too_many_optionals
  check_optionals (inv.core.candidate_id ∷ []) inv.optionals

-- `settleCandidateInventory` on an inventory that has its id.
unfoldable pub settle_candidate_inventory :
    (Text → Text) → Inventory → Result SettlementError SettlementResult
settle_candidate_inventory sha256_hex inv = do
  check_inventory inv
  settle_inventory (ledger_canonical sha256_hex) (capacity_canonical sha256_hex) inv
