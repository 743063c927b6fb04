-- ===== src/Settlement/Counting.antt =====
-- How many entries a ledger has, and that their counters are consistent.
use attunegraph.Common.{
  ℕ, suc, ◌+◌, ◌≤◌, ◌≡◌, refl, ap, Bool, true, false, List, [], ◌∷◌, leb, if◌then◌else◌, arith,
  length, length-append, length-sort, sort, inl, inr, ==_iff,
}
use attunegraph.Decision.{max_safe_integer}
use attunegraph.Settlement.Types.{Terminal, SettlementEntry, Candidate, Budget, Inventory, Work}
use attunegraph.Settlement.{
  attempted, count, is_admitted, is_rejected, is_failed, is_skipped, tally, is_consistent, ordered,
  compare_ranks, compare_entries, rejections, eligibles, is_some, settle_eligible, settle_optionals,
}
use attunegraph.Settlement.Verdict.{Preflight-cases}
use attunegraph.Settlement.Complete.{IsWithin}

abbrev mark : Bool → ℕ
mark test = if test then 1 else 0

one_end :
    (t : Terminal)
    → mark (is_admitted t) + mark (is_rejected t) + mark (is_failed t) + mark (is_skipped t) ≡ 1
one_end Terminal.admitted = omega arith
one_end (Terminal.rejected why) = omega arith
one_end (Terminal.failed axis) = omega arith
one_end (Terminal.skipped reason) = omega arith

-- Each entry is counted once.
count_all :
    (es : List SettlementEntry)
    → length es
      ≡ count is_admitted es + count is_rejected es + count is_failed es + count is_skipped es
unfolding count
count_all [] = omega arith
count_all (e ∷ es) = omega (arith, count_all es, one_end e.terminal)

-- The maxima of a budget are safe integers.
pub record IsSafeBudget (b : Budget) : Type 0 where
  pub depth : b.max_depth ≤ max_safe_integer
  pub considered : b.max_considered_assertions ≤ max_safe_integer
  pub visited : b.max_visited_refs ≤ max_safe_integer
  pub assertions : b.max_assertions ≤ max_safe_integer
  pub token : b.max_estimated_tokens ≤ max_safe_integer
  pub bytes : b.max_output_bytes ≤ max_safe_integer

le→leb : (a b : ℕ) → a ≤ b → leb a b ≡ true
le→leb a b h = ground (arith, h)

safe_count : (n : ℕ) → n ≤ 256 → leb n max_safe_integer ≡ true
safe_count n h = le→leb n max_safe_integer (omega (arith, h))

pub tally-is_consistent :
    (b : Budget) (es : List SettlementEntry) (w : Work)
    → IsSafeBudget b
    → IsWithin b w
    → length es ≤ 256
    → is_consistent (tally es w) ≡ true
unfolding is_consistent
tally-is_consistent b es w s h few =
    let all = count_all es in
    let equal = (==_iff _ _).1 all in
    rw
      (
        equal,
        safe_count (length es) few,
        safe_count (count is_admitted es) (omega (arith, all, few)),
        safe_count (count is_rejected es) (omega (arith, all, few)),
        safe_count (count is_failed es) (omega (arith, all, few)),
        safe_count (count is_skipped es) (omega (arith, all, few)),
        le→leb w.depth max_safe_integer (omega (arith, h.depth, s.depth)),
        le→leb w.considered max_safe_integer (omega (arith, h.considered, s.considered)),
        le→leb w.visited max_safe_integer (omega (arith, h.visited, s.visited)),
        le→leb w.assertions max_safe_integer (omega (arith, h.assertions, s.assertions)),
        le→leb w.token max_safe_integer (omega (arith, h.token, s.token)),
        le→leb w.bytes max_safe_integer (omega (arith, h.bytes, s.bytes)),
      )
      refl

length-settle_eligible :
    (b : Budget) (stopped : Bool) (w : Work) (qs : List Candidate)
    → length (settle_eligible b stopped w qs).entries ≡ length qs
unfolding settle_eligible
length-settle_eligible b stopped w [] = refl
length-settle_eligible b true w (q ∷ qs) = ap suc (length-settle_eligible b true w qs)
length-settle_eligible b false w (q ∷ qs) =
    let next = attempted q w b in ap suc (length-settle_eligible b (is_some next.axis) next.work qs)

length-divided : (qs : List Candidate) → length (rejections qs) + length (eligibles qs) ≡ length qs
unfolding rejections eligibles
length-divided [] = omega arith
length-divided (q ∷ qs) = elim (Preflight-cases q.preflight) [
  | inl fine ↦ rw fine (omega (arith, length-divided qs))
  | inr (why, bad) ↦ rw bad (omega (arith, length-divided qs))
]

pub length-settle_optionals :
    (inv : Inventory) (w : Work) → length (settle_optionals inv w).entries ≡ length inv.optionals
unfolding settle_optionals
length-settle_optionals inv w =
    let queue = sort compare_ranks (eligibles inv.optionals) in
    omega (
      arith,
      length-append (rejections inv.optionals) (settle_eligible inv.budget false w queue).entries,
      length-settle_eligible inv.budget false w queue,
      length-sort compare_ranks (eligibles inv.optionals),
      length-divided inv.optionals,
    )

pub length-ordered :
    (e : SettlementEntry) (es : List SettlementEntry) → length (ordered e es) ≡ suc (length es)
unfolding ordered
length-ordered e es = ap suc (length-sort compare_entries es)
