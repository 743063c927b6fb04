-- ===== src/Store/Recorded/Loop.antt =====
-- The loop of `recorded` on assertions in the order of their epochs: its two exits are a filter and
-- a cut.
use attunegraph.Common.{
  ℕ, zero, suc, ◌-◌, ◌≤◌, ◌<◌, ◌≡◌, refl, ap, sym, ◌∙◌, Bool, true, false, not, Option, none, some,
  List, [], ◌∷◌, ◌++◌, map, leb, ltb, Text, arith, Sign, not_after, length, get_elem?, take, drop,
  select, All, All-map, length-append, Bool-cases, inl, inr, leb-false→lt,
}
use mathlib.Core.List.{append_assoc, append-nil}
use attunegraph.Common.Order.{IsSorted}
use attunegraph.Graph.Types.{Assertion, RecordedRange}
use attunegraph.Graph.Instant.{instant_epoch}
use attunegraph.Store.State.{Store, stored_at, compare_assertions}
use attunegraph.Store.Recorded.{is_past, collect}
use attunegraph.Store.Invariant.{id_of}
use attunegraph.Store.Invariant.Insert.{Held, stored_at_lem}

-- Whether an assertion was recorded behind the lower end of a range.
abbrev pub is_behind : Option Text → Assertion → Bool
is_behind none a = true
is_behind (some after) a = ltb (instant_epoch after) (instant_epoch a.recorded_at)

abbrev at_epoch : Assertion → ℕ
at_epoch a = instant_epoch a.recorded_at

-- In the order of their epochs.
abbrev pub ByEpoch : List Assertion → Type 0
ByEpoch [] = Unit
ByEpoch (x ∷ l) = All (λ y. at_epoch x ≤ at_epoch y) l × ByEpoch l

pub epoch-le :
    (locale_compare : Text → Text → Sign) (x y : Assertion)
    → not_after (compare_assertions locale_compare x y) ≡ true
    → at_epoch x ≤ at_epoch y
unfolding compare_assertions
epoch-le locale_compare x y h = ground arith

pub ByEpoch-of_sorted :
    (locale_compare : Text → Text → Sign) (l : List Assertion)
    → IsSorted (compare_assertions locale_compare) l
    → ByEpoch l
ByEpoch-of_sorted locale_compare [] h = tt
ByEpoch-of_sorted locale_compare (x ∷ l) h = (
  All-map (λ y. not_after (compare_assertions locale_compare x y) ≡ true)
      (λ y. at_epoch x ≤ at_epoch y) (λ y e. epoch-le locale_compare x y e) l h.0,
  ByEpoch-of_sorted locale_compare l h.1,
)

pub All-selected {ℓ κ} :
    {A : Type ℓ} (P : A → Type κ) (p : A → Bool) (l : List A) → All P l → All P (select p l)
All-selected P p [] h = tt
All-selected P p (x ∷ l) h = elim (Bool-cases (p x)) [
  | inl e ↦ rw e (h.0, All-selected P p l h.1)
  | inr e ↦ rw e (All-selected P p l h.1)
]

select_none {ℓ} :
    {A : Type ℓ} (p : A → Bool) (l : List A) → All (λ x. p x ≡ false) l → select p l ≡ []
select_none p [] h = refl
select_none p (x ∷ l) h = rw (h.0) (select_none p l h.1)

-- Where a border splits a list by a test, dropping the first part is taking out what fails.
pub drop-select {ℓ} :
    {A : Type ℓ} (p : A → Bool) (l : List A) (r : ℕ)
    → ((i : ℕ) (x : A) → i < r → get_elem? l i ≡ some x → p x ≡ false)
    → ((i : ℕ) (x : A) → r ≤ i → get_elem? l i ≡ some x → p x ≡ true)
    → drop r l ≡ select p l
drop-select p [] zero below above = refl
drop-select p [] (suc r) below above = refl
drop-select p (x ∷ l) zero below above = rw (above 0 x (omega arith) refl) (
    ap (λ t. x ∷ t)
      (drop-select p l 0 (λ i y lt e. absurd (omega arith))
        (λ i y le e. above (suc i) y (omega arith) e)))
drop-select p (x ∷ l) (suc r) below above = rw (below 0 x (omega arith) refl) (
    drop-select p l r (λ i y lt e. below (suc i) y (omega arith) e)
      (λ i y le e. above (suc i) y (omega arith) e))

past_stays :
    (through : Option Text) (x y : Assertion)
    → at_epoch x ≤ at_epoch y
    → is_past through x ≡ true
    → not (is_past through y) ≡ false
past_stays none x y le h = ground arith
past_stays (some t) x y le h = ground arith

take_nil {ℓ} : {A : Type ℓ} (n : ℕ) → take {A = A} n [] ≡ []
take_nil zero = refl
take_nil (suc n) = refl

take_positive {ℓ} :
    {A : Type ℓ} (n : ℕ) (x : A) (l : List A) → 0 < n → take n (x ∷ l) ≡ x ∷ take (n - 1) l
take_positive zero x l h = absurd (omega arith)
take_positive (suc n) x l h =
    let less : suc n - 1 ≡ n = omega arith in ap (λ k. x ∷ take k l) (sym less)

-- The loop with its two exits, from a place where the result is not full.
pub collect_lem :
    (s : Store) (range : RecordedRange) (l acc : List Assertion)
    → All (Held s.assertions) l
    → ByEpoch l
    → length acc < range.limit
    → collect s range (map id_of l) acc
      ≡ acc ++ take (range.limit - length acc) (select (λ a. not (is_past range.through a)) l)
unfolding collect
collect_lem s range [] acc held sorted room =
    sym (ap (λ t. acc ++ t) (take_nil (range.limit - length acc)) ∙ append-nil acc)
collect_lem s range (x ∷ l) acc held sorted room =
    let found : stored_at s (some x.id) ≡ some x = stored_at_lem s x.id held.0.1 ∙ held.0.0 in
    let grown = length-append acc (x ∷ []) in
    let early_half = select (λ a. not (is_past range.through a)) l in
    let first = take_positive (range.limit - length acc) x early_half (omega (arith, room)) in
    elim (Bool-cases (is_past range.through x)) [
      | inl past ↦
          let rest =
            select_none (λ a. not (is_past range.through a)) l
              (All-map (λ y. at_epoch x ≤ at_epoch y) (λ y. not (is_past range.through y) ≡ false)
                (λ y le. past_stays range.through x y le past) l sorted.0) in
          rw (found, past, rest, collect)
            (sym (ap (λ t. acc ++ t) (take_nil (range.limit - length acc)) ∙ append-nil acc))
      | inr early ↦ elim (Bool-cases (leb range.limit (length (acc ++ x ∷ [])))) [
        | inl full ↦
            let last : range.limit - length acc - 1 ≡ 0 = ground (arith, room, grown, full) in
            rw (found, early, full, collect)
              (ap (λ t. acc ++ t) (sym (first ∙ ap (λ n. x ∷ take n early_half) last)))
        | inr room' ↦
            let free = leb-false→lt range.limit (length (acc ++ x ∷ [])) room' in
            let left : range.limit - length (acc ++ x ∷ []) ≡ range.limit - length acc - 1 =
              omega (arith, grown) in
            rw (found, early, room', collect)
              (collect_lem s range l (acc ++ x ∷ []) held.1 sorted.1 free
                ∙ append_assoc acc (x ∷ []) _
                ∙ ap (λ t. acc ++ t) (ap (λ n. x ∷ take n early_half) left ∙ sym first))
      ]
    ]
