-- ===== src/Settlement/Attempts.antt =====
-- src/candidate-settlement-ledger.ts: `attempted`, which adds the cost of a candidate to the work.
use attunegraph.Common.{ℕ, ◌+◌, max, Option, none, some, ltb, if◌then◌else◌}
use attunegraph.Decision.{max_safe_integer}
use attunegraph.Settlement.Types.{Axis, Terminal, SettlementEntry, Candidate, Budget, Work, Attempt}

-- `add`: `none` where the sum is no safe integer.
unfoldable pub add : ℕ → ℕ → Option ℕ
add left right = if ltb max_safe_integer (left + right) then none else some (left + right)

abbrev pub initial : Work
initial = record { depth = 0; considered = 0; visited = 0; assertions = 0; token = 0; bytes = 0 }

-- The sum where it is safe and within the maximum.
unfoldable pub add_within : ℕ → ℕ → ℕ → Option ℕ
unfolding add
add_within left right maximum = elim (add left right) [
  | none ↦ none
  | some sum ↦ if ltb maximum sum then none else some sum
]

abbrev pub failed_on : Candidate → Axis → Work → Attempt
failed_on q axis work = record {
  entry = record { candidate_id = q.candidate_id; role = q.role; terminal = Terminal.failed axis };
  work = work;
  axis = some axis;
}

abbrev pub admitted_with : Candidate → Work → Attempt
admitted_with q work = record {
  entry = record { candidate_id = q.candidate_id; role = q.role; terminal = Terminal.admitted };
  work = work;
  axis = none;
}

-- The rest of `attempted` behind the visited references.
unfoldable pub attempt_output : Candidate → ℕ → Work → Work → Budget → Attempt
attempt_output q depth current vwork budget =
    elim (add_within current.assertions q.cost.assertions budget.max_assertions) [
      | none ↦ failed_on q Axis.assertions vwork
      | some assertions ↦
          elim (add_within current.token q.cost.estimated_tokens budget.max_estimated_tokens) [
            | none ↦ failed_on q Axis.token vwork
            | some token ↦
                elim (add_within current.bytes q.cost.output_bytes budget.max_output_bytes) [
                  | none ↦ failed_on q Axis.bytes vwork
                  | some bytes ↦ admitted_with q (record vwork {
                    depth = depth;
                    assertions = assertions;
                    token = token;
                    bytes = bytes;
                  })
                ]
          ]
    ]

unfoldable pub attempted : Candidate → Work → Budget → Attempt
unfolding attempt_output
attempted q current budget =
    let depth = max current.depth q.cost.depth in
    if ltb budget.max_depth depth
    then failed_on q Axis.depth current
    else (elim (add_within current.considered q.cost.considered_assertions
        budget.max_considered_assertions) [
          | none ↦ failed_on q Axis.considered current
          | some considered ↦
              let cwork = record current { considered = considered } in
              elim (add_within current.visited q.cost.visited_refs budget.max_visited_refs) [
                | none ↦ failed_on q Axis.visited cwork
                | some visited ↦
                    attempt_output q depth current (record cwork { visited = visited }) budget
              ]
        ])

abbrev pub entry_of : Candidate → Terminal → SettlementEntry
entry_of q terminal = record { candidate_id = q.candidate_id; role = q.role; terminal = terminal }
