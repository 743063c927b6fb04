-- ===== src/Settlement/Tests.antt =====
-- Three optional candidates, of which one fits, one does not and one was refused before.
use attunegraph.Common.{
  text_eq, ℕ, ◌≡◌, refl, List, [], ◌∷◌, map, Text, codes, raw_compare, sort, sort_onto, insert_by,
  Result, ok, err,
}
use attunegraph.Settlement.Types.{
  Axis, Role, SkippedReason, Terminal, SettlementEntry, Preflight, Candidate, Inventory, LedgerBody,
  CapacityBody, Canonical, SettlementResult, SettlementError,
}
use attunegraph.Settlement.{
  add, add_within, attempt_output, attempted, count, is_consistent, counters, compare_entries,
  ordered, fits, compare_ranks, rejections, eligibles, settle_eligible, settle_optionals, settled,
  envelope, abstain, invalid, abstained, settle_admitted, settle_inventory,
}
use attunegraph.Common.Sets.{has, add as add_member}
use attunegraph.AttuneQl.Tokens.{is_digit}
use attunegraph.Settlement.Admission.{
  is_lower, is_id_mark, is_marked, is_pattern, is_candidate_id, is_reason_id, is_free, is_safe_cost,
  is_safe_budget, check_candidate, check_optionals, check_inventory,
}

abbrev candidate_of : Text → Role → Preflight → ℕ → ℕ → Candidate
candidate_of id role preflight rank bytes = record {
  candidate_id = id;
  role = role;
  preflight = preflight;
  rank = rank;
  cost = record {
    depth = 1;
    considered_assertions = 2;
    visited_refs = 2;
    assertions = 1;
    estimated_tokens = 10;
    output_bytes = bytes;
  };
}

abbrev refused_candidate : Candidate
refused_candidate = record {
  candidate_id = codes "bad";
  role = Role.optional;
  preflight = Preflight.refused (codes "semantic:old");
  rank = 0;
  cost = record {
    depth = 0;
    considered_assertions = 0;
    visited_refs = 0;
    assertions = 0;
    estimated_tokens = 0;
    output_bytes = 0;
  };
}

abbrev pub stock : ℕ → Inventory
stock bytes = record {
  inventory_id = codes "i";
  budget = record {
    max_depth = 2;
    max_considered_assertions = 10;
    max_visited_refs = 10;
    max_assertions = 4;
    max_estimated_tokens = 400;
    max_output_bytes = bytes;
  };
  core = candidate_of (codes "core") Role.core Preflight.eligible 0 40;
  optionals =
      candidate_of (codes "big") Role.optional Preflight.eligible 2 900
      ∷ refused_candidate
      ∷ candidate_of (codes "fine") Role.optional Preflight.eligible 1 50
      ∷ [];
}

-- An envelope of 300 bytes for each body.
abbrev ledger_envelope : LedgerBody → Result SettlementError Canonical
ledger_envelope body = ok (record { content_id = codes "l"; json = []; byte_length = 300 })

abbrev capacity_envelope : CapacityBody → Result SettlementError Canonical
capacity_envelope body = ok (record { content_id = codes "e"; json = []; byte_length = 90 })

abbrev no_result : SettlementResult
no_result =
    SettlementResult.over_capacity
      (record {
        first_violated_axis = Axis.token;
        inventory_id = [];
        max_estimated_tokens = 0;
        max_output_bytes = 0;
      })
      (record { content_id = []; json = []; byte_length = 0 })

abbrev pub value_of : Result SettlementError SettlementResult → SettlementResult
value_of (ok r) = r
value_of (err e) = no_result

abbrev settled_stock : ℕ → SettlementResult
settled_stock bytes = value_of (settle_inventory ledger_envelope capacity_envelope (stock bytes))

abbrev pub terminals : SettlementResult → List Terminal
terminals (SettlementResult.settled r) =
    map (λ (e : SettlementEntry). e.terminal) r.envelope.ledger.entries
terminals (SettlementResult.over_capacity body canonical) = []

-- With room for all but the big one, with room for the core, and with none.
three_budgets :
    (terminals (settled_stock 500)
      ≡ Terminal.admitted
        ∷ Terminal.rejected (codes "semantic:old")
        ∷ Terminal.failed Axis.bytes
        ∷ Terminal.admitted
        ∷ [])
    × (terminals (settled_stock 360)
        ≡ Terminal.admitted
          ∷ Terminal.rejected (codes "semantic:old")
          ∷ Terminal.skipped SkippedReason.core_only_fallback
          ∷ Terminal.skipped SkippedReason.core_only_fallback
          ∷ [])
    × (terminals (settled_stock 200) ≡ [])
unfolding settle_inventory settle_admitted abstained invalid abstain envelope settled
    settle_optionals settle_eligible eligibles rejections compare_ranks fits ordered compare_entries
    counters is_consistent count attempted attempt_output add_within add raw_compare sort sort_onto
    insert_by
three_budgets = (refl, refl, refl)

stock_accepted : check_inventory (stock 200) ≡ ok tt
unfolding check_inventory check_optionals check_candidate is_safe_budget is_safe_cost is_free
    is_reason_id is_candidate_id is_pattern is_marked is_id_mark is_lower is_digit has add_member
    text_eq
stock_accepted = refl

-- A hash of 64 digits.
abbrev pub zeros : Text → Text
zeros text = codes "0000000000000000000000000000000000000000000000000000000000000000"
