-- ===== src/Settlement/Verdict.antt =====
-- What a settlement has, whichever way it was reached.
use attunegraph.Common.{
  ◌≡◌, refl, Bool, true, false, List, [], ◌∷◌, ◌++◌, Text, sort, inl, inr, ◌⊎◌, All,
}
use mathlib.Core.List.{Perm, perm_middle}
use mathlib.Core.List.Perm
use attunegraph.Common.Order.{All-sort}
use attunegraph.Settlement.Types.{SettlementEntry, Preflight, Candidate, Budget, Inventory, Work}
use attunegraph.Settlement.{
  attempted, compare_ranks, ordered, rejections, eligibles, is_some, settle_eligible,
  settle_optionals,
}
use attunegraph.Settlement.Complete.{
  sort-Perm, IsWithin, attempted_rule, IsEntryOf, Matches, Matches-append, IsComplete,
  ordered-IsComplete,
}

pub Preflight-cases :
    (p : Preflight) → (p ≡ Preflight.eligible) ⊎ ((why : Text) × (p ≡ Preflight.refused why))
Preflight-cases Preflight.eligible = inl refl
Preflight-cases (Preflight.refused why) = inr (why, refl)

abbrev IsEligible : Candidate → Type 0
IsEligible q = q.preflight ≡ Preflight.eligible

-- An attempt gives an entry of its candidate and keeps the work within the budget.
pub attempted-IsEntryOf :
    (q : Candidate) (b : Budget) (w : Work)
    → IsEligible q
    → IsWithin b w
    → IsEntryOf q (attempted q w b).entry × IsWithin b (attempted q w b).work
attempted-IsEntryOf q b w e h =
    attempted_rule (λ a. IsEntryOf q a.entry × IsWithin b a.work) q b w
      (λ axis v k kt kb. (record { id = refl; role = refl; answers = rw e tt }, k))
      (λ v k. (record { id = refl; role = refl; answers = rw e tt }, k)) h

settle_eligible-Matches :
    (b : Budget) (stopped : Bool) (w : Work) (qs : List Candidate)
    → All IsEligible qs
    → IsWithin b w
    → Matches (settle_eligible b stopped w qs).entries qs
      × IsWithin b (settle_eligible b stopped w qs).work
unfolding settle_eligible
settle_eligible-Matches b stopped w [] all h = (tt, h)
settle_eligible-Matches b true w (q ∷ qs) all h =
    let rest = settle_eligible-Matches b true w qs all.1 h in
    ((record { id = refl; role = refl; answers = rw (all.0) tt }, rest.0), rest.1)
settle_eligible-Matches b false w (q ∷ qs) all h =
    let first = attempted-IsEntryOf q b w all.0 h in
    let next = attempted q w b in
    let rest = settle_eligible-Matches b (is_some next.axis) next.work qs all.1 first.1 in
    ((first.0, rest.0), rest.1)

-- The candidates that were refused before.
refusals : List Candidate → List Candidate
refusals [] = []
refusals (q ∷ rest) = elim q.preflight [
  | Preflight.eligible ↦ refusals rest
  | Preflight.refused why ↦ q ∷ refusals rest
]

rejections-Matches : (qs : List Candidate) → Matches (rejections qs) (refusals qs)
unfolding rejections refusals
rejections-Matches [] = tt
rejections-Matches (q ∷ qs) = elim (Preflight-cases q.preflight) [
  | inl fine ↦ rw fine (rejections-Matches qs)
  | inr (why, bad) ↦
      rw bad ((record { id = refl; role = refl; answers = rw bad refl }, rejections-Matches qs))
]

eligibles-IsEligible : (qs : List Candidate) → All IsEligible (eligibles qs)
unfolding eligibles
eligibles-IsEligible [] = tt
eligibles-IsEligible (q ∷ qs) = elim (Preflight-cases q.preflight) [
  | inl fine ↦ rw fine (fine, eligibles-IsEligible qs)
  | inr (why, bad) ↦ rw bad (eligibles-IsEligible qs)
]

divided : (qs : List Candidate) → Perm (refusals qs ++ eligibles qs) qs
unfolding eligibles refusals
divided [] = Perm.refl []
divided (q ∷ qs) = elim (Preflight-cases q.preflight) [
  | inl fine ↦
      simp fine (Perm.trans (perm_middle (refusals qs) (eligibles qs)) (Perm.cons q (divided qs)))
  | inr (why, bad) ↦ simp bad (Perm.cons q (divided qs))
]

-- The entries of the normal mode.
pub settle_optionals-IsComplete :
    (inv : Inventory) (e : SettlementEntry) (w : Work)
    → IsEntryOf inv.core e
    → IsWithin inv.budget w
    → IsComplete (ordered e (settle_optionals inv w).entries) (inv.core ∷ inv.optionals)
      × IsWithin inv.budget (settle_optionals inv w).work
unfolding settle_optionals
settle_optionals-IsComplete inv e w h k =
    let queue = sort compare_ranks (eligibles inv.optionals) in
    let loop =
      settle_eligible-Matches inv.budget false w queue
        (All-sort compare_ranks IsEligible (eligibles inv.optionals)
          (eligibles-IsEligible inv.optionals))
        k in
    (
      ordered-IsComplete inv.core e _ (refusals inv.optionals ++ queue) inv.optionals h
          (Matches-append (rejections inv.optionals) _ (refusals inv.optionals) queue
            (rejections-Matches inv.optionals) loop.0)
          (Perm.trans
            (Perm.append_left (refusals inv.optionals)
              (sort-Perm compare_ranks (eligibles inv.optionals)))
            (divided inv.optionals)),
      loop.1,
    )
