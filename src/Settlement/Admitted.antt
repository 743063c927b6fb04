-- ===== src/Settlement/Admitted.antt =====
-- What the checks of src/candidate-settlement-ledger.ts accept as an inventory.
use attunegraph.Common.{
  ℕ, ◌≤◌, ◌≡◌, ◌↔◌, refl, ◌∙◌, Bool, true, false, ◌&&◌, ◌||◌, not, ◌==◌, List, [], ◌∷◌, ◌++◌, map,
  leb, Text, arith, length, ok, >>=-eq-ok, guard-eq-ok, leb→le, All, text_eq_iff,
}
use mathlib.Core.List.{append_assoc, append-nil}
use attunegraph.Common.Sets
use attunegraph.Common.Sets.{has, is_distinct, is_distinct-concat, has-append}
use attunegraph.Decision.{max_safe_integer}
use attunegraph.Settlement.Types.{Role, Candidate, Budget, Inventory, SettlementError}
use attunegraph.Settlement.{is_safe}
use attunegraph.Settlement.Counting.{IsSafeBudget}
use attunegraph.Settlement.Admission.{
  is_safe_budget, is_candidate_id, has_reason, is_refused, is_same_role, is_free, is_safe_cost,
  check_candidate, check_optionals, check_inventory,
}

-- A candidate that is accepted in a role: a rank is for optional candidates that are not refused, and
-- a refused one costs nothing.
pub record IsCandidate (r : Role) (q : Candidate) : Type 0 where
  pub role : q.role ≡ r
  pub id : is_candidate_id q.candidate_id ≡ true
  pub rank : q.rank ≤ max_safe_integer
  pub reason : has_reason q.preflight ≡ true
  pub cost : is_safe_cost q.cost ≡ true
  pub unranked_core : r ≡ Role.core → q.rank ≡ 0
  pub unranked_refused : is_refused q.preflight ≡ true → q.rank ≡ 0
  pub free : is_refused q.preflight ≡ true → is_free q.cost ≡ true

is_same_role_iff : (a b : Role) → is_same_role a b ≡ true ↔ (a ≡ b)
is_same_role_iff Role.core Role.core = ((λ h. refl), λ h. refl)
is_same_role_iff Role.core Role.optional = ((λ h. absurd (cc)), λ h. absurd (cc))
is_same_role_iff Role.optional Role.core = ((λ h. absurd (cc)), λ h. absurd (cc))
is_same_role_iff Role.optional Role.optional = ((λ h. refl), λ h. refl)

-- Neither a core candidate nor a refused one has a rank.
ranked :
    (core refused : Bool) {IsCore : Type 0} {n : ℕ}
    → (core ≡ true → IsCore)
    → (IsCore → n ≡ 0)
    → (refused ≡ true → n ≡ 0)
    → not ((core || refused) && not (n == 0)) ≡ true
ranked true refused h k l = let z = k (h refl) in rw z refl
ranked false true h k l = let z = l refl in rw z refl
ranked false false h k l = refl

check_candidate-IsCandidate :
    (role : Role) (q : Candidate) → check_candidate role q ≡ ok tt ↔ IsCandidate role q
unfolding check_candidate
check_candidate-IsCandidate role q =
    let same = is_same_role_iff q.role role in
    let core = is_same_role_iff role Role.core in
    (
      λ h.
          let (a, h) = guard-eq-ok (is_same_role q.role role) SettlementError.invalid_role _ h in
          let (b, h) =
            guard-eq-ok (is_candidate_id q.candidate_id) SettlementError.invalid_candidate_id _ h in
          let (c, h) = guard-eq-ok (is_safe q.rank) SettlementError.invalid_number _ h in
          let (d, h) = guard-eq-ok (has_reason q.preflight) SettlementError.invalid_reason_id _ h in
          let (e, h) = guard-eq-ok (is_safe_cost q.cost) SettlementError.invalid_number _ h in
          let (f, h) =
            guard-eq-ok
              (not ((is_same_role role Role.core || is_refused q.preflight) && not (q.rank == 0)))
              SettlementError.invalid_rank _ h in
          let g : not (is_refused q.preflight && not (is_free q.cost)) ≡ true = ground (arith, h) in
          record {
            role = same.0 a;
            id = b;
            rank = leb→le q.rank max_safe_integer c;
            reason = d;
            cost = e;
            unranked_core = λ k. ground (arith, core.1 k, f);
            unranked_refused = λ k. ground (arith, k, f);
            free = λ k. ground (arith, k, g);
          },
      λ h.
          let a = same.1 h.role in
          let c : is_safe q.rank ≡ true = ground (arith, h.rank) in
          let f : not ((is_same_role role Role.core || is_refused q.preflight) && not (q.rank == 0))
              ≡ true =
            ranked (is_same_role role Role.core) (is_refused q.preflight) core.0 h.unranked_core
              h.unranked_refused in
          let g : not (is_refused q.preflight && not (is_free q.cost)) ≡ true =
            ground (arith, h.free) in
          rw (a, h.id, c, h.reason, h.cost, f, g) refl,
    )

abbrev pub id_of : Candidate → Text
id_of q = q.candidate_id

add-fresh : (x : Text) (s : List Text) → has x s ≡ false → Sets.add x s ≡ s ++ x ∷ []
unfolding Sets.add
add-fresh x s h = rw (Sets.add, h) refl

has-is_distinct : (x : Text) (s t : List Text) → is_distinct (s ++ x ∷ t) ≡ true → has x s ≡ false
unfolding is_distinct has
has-is_distinct x [] t h = refl
has-is_distinct x (y ∷ s) t h =
    ground
      (arith, h, has-is_distinct x s t, has-append y s (x ∷ t), text_eq_iff y x, text_eq_iff x y)

-- What the loop on the optional candidates accepts, behind ids that were seen.
abbrev Follow : List Text → List Candidate → Type 0
Follow seen qs = All (IsCandidate Role.optional) qs × (is_distinct (seen ++ map id_of qs) ≡ true)

check_optionals_iff :
    (seen : List Text) (qs : List Candidate)
    → is_distinct seen ≡ true
    → check_optionals seen qs ≡ ok tt ↔ Follow seen qs
unfolding check_optionals
check_optionals_iff seen [] d = ((λ h. (tt, rw append-nil d)), λ h. refl)
check_optionals_iff seen (q ∷ qs) d =
    let first = check_candidate-IsCandidate Role.optional q in
    (
      λ h.
          let (done, ec, h) = >>=-eq-ok (check_candidate Role.optional q) _ h in
          let (fresh, h) =
            guard-eq-ok (not (has q.candidate_id seen)) SettlementError.duplicate_candidate_id _
              h in
          let absent : has q.candidate_id seen ≡ false = ground (arith, fresh) in
          let rest = check_optionals_iff (seen ++ q.candidate_id ∷ []) qs (longer absent) in
          let (all, distinct) = rest.0 (rw (add-fresh q.candidate_id seen absent) at h) in
          ((first.0 ec, all), rw append_assoc at distinct),
      λ h.
          let absent = has-is_distinct q.candidate_id seen (map id_of qs) h.1 in
          let rest = check_optionals_iff (seen ++ q.candidate_id ∷ []) qs (longer absent) in
          let ec = first.1 h.0.0 in
          let distinct : is_distinct ((seen ++ q.candidate_id ∷ []) ++ map id_of qs) ≡ true =
            rw append_assoc h.1 in
          let e = rest.1 (h.0.1, distinct) in
          rw (ec, absent, add-fresh q.candidate_id seen absent) e,
    )
  where
    longer : has q.candidate_id seen ≡ false → is_distinct (seen ++ q.candidate_id ∷ []) ≡ true
    longer absent = is_distinct-concat q.candidate_id seen ∙ ground (arith, absent, d)

one_distinct : (x : Text) → is_distinct (x ∷ []) ≡ true
unfolding is_distinct has
one_distinct x = refl

-- An inventory that is accepted.
pub record IsAdmitted (inv : Inventory) : Type 0 where
  pub safe : IsSafeBudget inv.budget
  pub core : IsCandidate Role.core inv.core
  pub few : length inv.optionals ≤ 255
  pub optionals : All (IsCandidate Role.optional) inv.optionals
  pub distinct : is_distinct (inv.core.candidate_id ∷ map id_of inv.optionals) ≡ true

is_safe_budget-IsSafeBudget : (b : Budget) → is_safe_budget b ≡ true ↔ IsSafeBudget b
unfolding is_safe_budget
is_safe_budget-IsSafeBudget b = (
  λ h. record {
    depth = leb→le b.max_depth max_safe_integer (ground (arith, h));
    considered = leb→le b.max_considered_assertions max_safe_integer (ground (arith, h));
    visited = leb→le b.max_visited_refs max_safe_integer (ground (arith, h));
    assertions = leb→le b.max_assertions max_safe_integer (ground (arith, h));
    token = leb→le b.max_estimated_tokens max_safe_integer (ground (arith, h));
    bytes = leb→le b.max_output_bytes max_safe_integer (ground (arith, h));
  },
  λ h. ground (arith, h.depth, h.considered, h.visited, h.assertions, h.token, h.bytes),
)

-- The checks accept what is said to be accepted, and nothing else.
pub check_inventory-IsAdmitted : (inv : Inventory) → check_inventory inv ≡ ok tt ↔ IsAdmitted inv
unfolding check_inventory
check_inventory-IsAdmitted inv =
    let budget = is_safe_budget-IsSafeBudget inv.budget in
    let core = check_candidate-IsCandidate Role.core inv.core in
    let optionals =
      check_optionals_iff (inv.core.candidate_id ∷ []) inv.optionals
        (one_distinct inv.core.candidate_id) in
    (
      λ h.
          let (safe, h) =
            guard-eq-ok (is_safe_budget inv.budget) SettlementError.invalid_number _ h in
          let (done, ec, h) = >>=-eq-ok (check_candidate Role.core inv.core) _ h in
          let (few, h) =
            guard-eq-ok (leb (length inv.optionals) 255) SettlementError.too_many_optionals _ h in
          let (all, distinct) = optionals.0 h in
          record {
            safe = budget.0 safe;
            core = core.0 ec;
            few = leb→le (length inv.optionals) 255 few;
            optionals = all;
            distinct = distinct;
          },
      λ h.
          let few : leb (length inv.optionals) 255 ≡ true = ground (arith, h.few) in
          let rest = optionals.1 (h.optionals, h.distinct) in
          rw (budget.1 h.safe, core.1 h.core, few) rest,
    )
