-- ===== src/Settlement/Complete.antt =====
-- Every candidate is settled once, and the work stays within the budget.
use attunegraph.Common.{
  ℕ, ◌+◌, ◌≤◌, ◌≡◌, refl, sym, max, true, false, some, List, [], ◌∷◌, ◌++◌, map, ltb, arith, sort,
  sort_onto, insert_by, ltb-false→le, not_after, Sign, Bool-cases, Option-cases, inl, inr,
}
use mathlib.Core.List.{Perm, append-nil, perm_middle}
use mathlib.Core.List.Perm
use attunegraph.Decision.{max_safe_integer}
use attunegraph.Settlement.Types.{
  Axis, SkippedReason, Terminal, SettlementEntry, Preflight, Candidate, Budget, Work, Attempt,
}
use attunegraph.Settlement.{
  add, add_within, initial, failed_on, admitted_with, attempt_output, attempted, compare_entries,
  ordered, passed_over,
}

module _ {A : Type 0} (cmp : A → A → Sign) where
  insert_by-Perm : (x : A) (ys : List A) → Perm (insert_by cmp x ys) (x ∷ ys)
  unfolding insert_by
  insert_by-Perm x [] = Perm.refl (x ∷ [])
  insert_by-Perm x (y ∷ ys) = elim (Bool-cases (not_after (cmp y x))) [
    | inl behind ↦ rw behind (Perm.trans (Perm.cons y (insert_by-Perm x ys)) (Perm.swap x y ys))
    | inr front ↦ rw front (Perm.refl (x ∷ y ∷ ys))
  ]

  sort_onto-Perm : (s xs : List A) → Perm (sort_onto cmp s xs) (s ++ xs)
  unfolding sort_onto
  sort_onto-Perm s [] = rw append-nil (Perm.refl s)
  sort_onto-Perm s (x ∷ xs) =
      Perm.trans (sort_onto-Perm (insert_by cmp x s) xs)
        (Perm.trans (Perm.append_right xs (insert_by-Perm x s)) (Perm.symm (perm_middle s xs)))

  pub sort-Perm : (xs : List A) → Perm (sort cmp xs) xs
  unfolding sort
  sort-Perm xs = sort_onto-Perm [] xs

-- The work on each axis is within the budget.
pub record IsWithin (b : Budget) (w : Work) : Type 0 where
  pub depth : w.depth ≤ b.max_depth
  pub considered : w.considered ≤ b.max_considered_assertions
  pub visited : w.visited ≤ b.max_visited_refs
  pub assertions : w.assertions ≤ b.max_assertions
  pub token : w.token ≤ b.max_estimated_tokens
  pub bytes : w.bytes ≤ b.max_output_bytes

pub initial-IsWithin : (b : Budget) → IsWithin b initial
initial-IsWithin b = record {
  depth = omega arith;
  considered = omega arith;
  visited = omega arith;
  assertions = omega arith;
  token = omega arith;
  bytes = omega arith;
}

pub add_within-le :
    (left right maximum sum : ℕ)
    → add_within left right maximum ≡ some sum
    → (sum ≡ left + right) × (sum ≤ maximum) × (sum ≤ max_safe_integer)
unfolding add_within add
add_within-le left right maximum sum h = elim (Bool-cases (ltb max_safe_integer (left + right))) [
  | inl unsafe ↦ absurd (let e = rw (add_within, add, unsafe) at h in cc)
  | inr safe ↦
      let h = rw (add_within, add, safe) at h in
      elim (Bool-cases (ltb maximum (left + right))) [
        | inl large ↦ absurd (let e = rw large at h in cc)
        | inr small ↦
            let h = rw small at h in
            let e : left + right ≡ sum = cc in
            (sym e, ground (arith, small, e), ground (arith, safe, e))
      ]
]

module _ (P : Attempt → Type 0) (q : Candidate) (b : Budget) (current : Work)
    (on_failure : (axis : Axis) (w : Work)
      → IsWithin b w
      → w.token ≡ current.token
      → w.bytes ≡ current.bytes
      → P (failed_on q axis w))
    (on_admission : (w : Work) → IsWithin b w → P (admitted_with q w)) where
  attempt_output_rule :
      (depth : ℕ) (vwork : Work)
      → depth ≤ b.max_depth
      → IsWithin b vwork
      → vwork.token ≡ current.token
      → vwork.bytes ≡ current.bytes
      → P (attempt_output q depth current vwork b)
  unfolding attempt_output
  attempt_output_rule depth vwork d h kt kb =
      elim (Option-cases (add_within current.assertions q.cost.assertions b.max_assertions)) [
        | inl over ↦ rw (attempt_output, over) (on_failure Axis.assertions vwork h kt kb)
        | inr (assertions, ea) ↦
            rw (attempt_output, ea)
              (elim (Option-cases
                (add_within current.token q.cost.estimated_tokens b.max_estimated_tokens)) [
                  | inl over ↦ rw over (on_failure Axis.token vwork h kt kb)
                  | inr (token, et) ↦
                      rw et
                        (elim (Option-cases
                          (add_within current.bytes q.cost.output_bytes b.max_output_bytes)) [
                            | inl over ↦ rw over (on_failure Axis.bytes vwork h kt kb)
                            | inr (bytes, eb) ↦ rw eb (
                                on_admission
                                  (record vwork {
                                    depth = depth;
                                    assertions = assertions;
                                    token = token;
                                    bytes = bytes;
                                  })
                                  (record {
                                    depth = d;
                                    considered = h.considered;
                                    visited = h.visited;
                                    assertions = (add_within-le _ _ _ _ ea).1;
                                    token = (add_within-le _ _ _ _ et).1;
                                    bytes = (add_within-le _ _ _ _ eb).1;
                                  }))
                          ])
                ])
      ]

  -- What holds of a failure and of an admission, with a work within the budget, holds of an attempt.
  pub attempted_rule : IsWithin b current → P (attempted q current b)
  unfolding attempted
  attempted_rule h = elim (Bool-cases (ltb b.max_depth (max current.depth q.cost.depth))) [
    | inl deep ↦ rw deep (on_failure Axis.depth current h refl refl)
    | inr shallow ↦
        rw shallow
          (elim (Option-cases (
            add_within current.considered q.cost.considered_assertions
              b.max_considered_assertions)) [
                | inl over ↦ rw over (on_failure Axis.considered current h refl refl)
                | inr (considered, ec) ↦
                    let hc : IsWithin b (record current { considered = considered }) = record {
                      depth = h.depth;
                      considered = (add_within-le _ _ _ _ ec).1;
                      visited = h.visited;
                      assertions = h.assertions;
                      token = h.token;
                      bytes = h.bytes;
                    } in
                    rw ec
                      (elim (Option-cases
                        (add_within current.visited q.cost.visited_refs b.max_visited_refs)) [
                          | inl over ↦ rw over (
                              on_failure Axis.visited (record current { considered = considered })
                                hc refl refl)
                          | inr (visited, ev) ↦ rw ev (
                              attempt_output_rule (max current.depth q.cost.depth)
                                (record current { considered = considered; visited = visited })
                                (ltb-false→le _ _ shallow)
                                (record {
                                  depth = h.depth;
                                  considered = hc.considered;
                                  visited = (add_within-le _ _ _ _ ev).1;
                                  assertions = h.assertions;
                                  token = h.token;
                                  bytes = h.bytes;
                                })
                                refl refl)
                        ])
              ])
  ]

-- How an entry answers its candidate: one that was refused before is rejected for the same reason,
-- and no other is.
abbrev pub Answers : Preflight → Terminal → Type 0
Answers (Preflight.refused why) terminal = terminal ≡ Terminal.rejected why
Answers Preflight.eligible (Terminal.rejected why) = true ≡ false
Answers Preflight.eligible Terminal.admitted = Unit
Answers Preflight.eligible (Terminal.failed axis) = Unit
Answers Preflight.eligible (Terminal.skipped reason) = Unit

pub record IsEntryOf (q : Candidate) (e : SettlementEntry) : Type 0 where
  pub id : e.candidate_id ≡ q.candidate_id
  pub role : e.role ≡ q.role
  pub answers : Answers q.preflight e.terminal

-- Entries of the same candidates in the same order.
abbrev pub Matches : List SettlementEntry → List Candidate → Type 0
Matches [] [] = Unit
Matches [] (q ∷ qs) = true ≡ false
Matches (e ∷ es) [] = true ≡ false
Matches (e ∷ es) (q ∷ qs) = IsEntryOf q e × Matches es qs

-- Each candidate has one entry.
pub record IsComplete (entries : List SettlementEntry) (candidates : List Candidate) : Type 0 where
  pub arranged : List SettlementEntry
  pub settled : List Candidate
  pub same_entries : Perm entries arranged
  pub same_candidates : Perm settled candidates
  pub matches : Matches arranged settled

pub Matches-append :
    (es fs : List SettlementEntry) (qs rs : List Candidate)
    → Matches es qs
    → Matches fs rs
    → Matches (es ++ fs) (qs ++ rs)
Matches-append [] fs [] rs h k = k
Matches-append [] fs (q ∷ qs) rs h k = absurd (cc)
Matches-append (e ∷ es) fs [] rs h k = absurd (cc)
Matches-append (e ∷ es) fs (q ∷ qs) rs h k = (h.0, Matches-append es fs qs rs h.1 k)

passed_over-IsEntryOf :
    (reason : SkippedReason) (q : Candidate) → IsEntryOf q (passed_over reason q)
passed_over-IsEntryOf reason q = go q.preflight
  where
    go :
        (p : Preflight)
        → IsEntryOf (record q { preflight = p }) (passed_over reason (record q { preflight = p }))
    go Preflight.eligible = record { id = refl; role = refl; answers = tt }
    go (Preflight.refused why) = record { id = refl; role = refl; answers = refl }

Matches-passed_over :
    (reason : SkippedReason) (qs : List Candidate) → Matches (map (passed_over reason) qs) qs
Matches-passed_over reason [] = tt
Matches-passed_over reason (q ∷ qs) =
    (passed_over-IsEntryOf reason q, Matches-passed_over reason qs)

-- A ledger of a core entry and optional ones is complete where the optional ones are.
pub ordered-IsComplete :
    (core : Candidate) (e : SettlementEntry) (es : List SettlementEntry)
    (qs optionals : List Candidate)
    → IsEntryOf core e
    → Matches es qs
    → Perm qs optionals
    → IsComplete (ordered e es) (core ∷ optionals)
unfolding ordered
ordered-IsComplete core e es qs optionals h m p = record {
  arranged = e ∷ es;
  settled = core ∷ qs;
  same_entries = Perm.cons e (sort-Perm compare_entries es);
  same_candidates = Perm.cons core p;
  matches = (h, m);
}

pub passed_over-IsComplete :
    (reason : SkippedReason) (core : Candidate) (e : SettlementEntry) (optionals : List Candidate)
    → IsEntryOf core e
    → IsComplete (ordered e (map (passed_over reason) optionals)) (core ∷ optionals)
passed_over-IsComplete reason core e optionals h =
    ordered-IsComplete core e (map (passed_over reason) optionals) optionals optionals h
      (Matches-passed_over reason optionals) (Perm.refl optionals)
