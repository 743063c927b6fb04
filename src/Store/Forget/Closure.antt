-- ===== src/Store/Forget/Closure.antt =====
-- The closure of `forget`: it ends within its fuel, holds what the scope names, and holds exactly
-- what follows from that by citations.
use attunegraph.Common.{
  ℕ, zero, suc, ◌+◌, ◌≤◌, ◌<◌, ◌≡◌, refl, ap, true, false, not, ◌&&◌, ◌||◌, some, List, [], ◌∷◌,
  ◌++◌, Text, arith, text_eq, text_eq_iff, text_eq_refl, if◌then◌else◌, length, length-append,
  Bool-cases, inl, inr, ◌⊎◌, ◌↔◌,
}
use attunegraph.Common.Sets.{has, has-append}
use attunegraph.Store.State.{Store}
use attunegraph.Store.Forget.{dependents_of, admit, close, closure_fuel}

-- How many of the ids are not in the removal.
pub missing : List Text → List Text → ℕ
missing [] removal = 0
missing (id ∷ ids) removal = (if has id removal then 0 else 1) + missing ids removal

missing-append :
    (ids removal : List Text) (x : Text) → missing ids (removal ++ x ∷ []) ≤ missing ids removal
unfolding missing has
missing-append [] removal x = omega arith
missing-append (id ∷ ids) removal x =
    ground (arith, missing-append ids removal x, has-append id removal (x ∷ []))

missing-append-lt :
    (ids removal : List Text) (x : Text)
    → has x ids ≡ true
    → has x removal ≡ false
    → missing ids (removal ++ x ∷ []) < missing ids removal
unfolding missing has
missing-append-lt [] removal x h k = ground arith
missing-append-lt (id ∷ ids) removal x h k = ground (
  arith,
  missing-append ids removal x,
  missing-append-lt ids removal x,
  has-append id removal (x ∷ []),
  text_eq_iff id x,
)

pub missing-le : (ids removal : List Text) → missing ids removal ≤ length ids
unfolding missing
missing-le [] removal = omega arith
missing-le (id ∷ ids) removal = ground (arith, missing-le ids removal)

-- Each id of the one list is in the other.
abbrev pub Within : List Text → List Text → Type 0
Within xs ys = (x : Text) → has x xs ≡ true → has x ys ≡ true

-- What `admit` gives: the removal grows by the ids it is given, the queue by those that are new.
pub record Admitted (ids removal queue removal' queue' : List Text) : Type 0 where
  pub is_union : (x : Text) → has x removal' ≡ (has x ids || has x removal)
  pub queued : (x : Text) → has x queue' ≡ (has x queue || (has x ids && not (has x removal)))
  pub spent :
      (stored : List Text)
      → Within ids stored
      → length queue' + missing stored removal' ≤ length queue + missing stored removal

pub admit-Admitted :
    (ids removal queue : List Text)
    → Admitted ids removal queue (admit ids removal queue).0 (admit ids removal queue).1
unfolding admit has
admit-Admitted [] removal queue = record {
  is_union = λ x. refl;
  queued = λ x. ground arith;
  spent = λ stored h. omega arith;
}
admit-Admitted (id ∷ ids) removal queue = elim (Bool-cases (has id removal)) [
  | inl old ↦
      rw (old, admit)
        (let ih = admit-Admitted ids removal queue in
          record {
            is_union = λ x. ground (arith, ih.is_union x, text_eq_iff id x);
            queued = λ x. ground (arith, ih.queued x, text_eq_iff id x);
            spent = λ stored h. ih.spent stored (λ x m. h x (ground arith));
          })
  | inr new ↦
      rw (new, admit)
        (let ih = admit-Admitted ids (removal ++ id ∷ []) (queue ++ id ∷ []) in
          record {
            is_union = λ x. ground (arith, ih.is_union x, has-append x removal (id ∷ []));
            queued = λ x. ground (
              arith,
              ih.queued x,
              has-append x removal (id ∷ []),
              has-append x queue (id ∷ []),
              text_eq_iff id x,
            );
            spent = λ stored h.
                let less =
                  missing-append-lt stored removal id (h id (ground (arith, text_eq_refl id)))
                    new in
                omega (
                  arith,
                  ih.spent stored (λ x m. h x (ground arith)),
                  length-append queue (id ∷ []),
                  less,
                );
          })
]

-- An id is doomed where the scope names it, and where it cites a doomed one.
pub data Doomed (s : Store) (start : List Text) : Text → Type 0 where
  named : {x : Text} → has x start ≡ true → Doomed s start x
  citing : {x y : Text} → Doomed s start x → has y (dependents_of s x) ≡ true → Doomed s start y

-- All citations lead to stored ids.
abbrev pub CitesStored : Store → Type 0
CitesStored s = (x : Text) → Within (dependents_of s x) s.journal_ids

-- Between two rounds: what was read has its dependents in the removal.
pub record IsClosing (s : Store) (start removal queue : List Text) : Type 0 where
  pub holds : Within start removal
  pub doomed : (x : Text) → has x removal ≡ true → Doomed s start x
  pub pending :
      (x : Text) → has x removal ≡ true → (has x queue ≡ true) ⊎ Within (dependents_of s x) removal

round-IsClosing :
    (s : Store) (start removal queue removal' queue' : List Text) (id : Text)
    → has id removal ≡ true
    → Admitted (dependents_of s id) removal queue removal' queue'
    → IsClosing s start removal (id ∷ queue)
    → IsClosing s start removal' queue'
unfolding has
round-IsClosing s start removal queue removal' queue' id inside a c = record {
  holds = λ x h. ground (arith, a.is_union x, c.holds x h);
  doomed = λ x h. elim (Bool-cases (has x removal)) [
    | inl old ↦ c.doomed x old
    | inr new ↦ Doomed.citing (c.doomed id inside) (ground (arith, a.is_union x))
  ];
  pending = λ x h. elim (Bool-cases (has x removal)) [
    | inr new ↦ inl (ground (arith, a.is_union x, a.queued x))
    | inl old ↦ elim (c.pending x old) [
      | inr done ↦ inr (λ y m. ground (arith, a.is_union y, done y m))
      | inl waits ↦ elim (Bool-cases (text_eq id x)) [
        | inr later ↦ inl (ground (arith, a.queued x))
        | inl now ↦
            let at : id ≡ x = (text_eq_iff id x).0 now in
            inr (λ y m. ground (arith, a.is_union y, ap (λ i. has y (dependents_of s i)) at))
      ]
    ]
  ];
}

queue-Within :
    (removal queue ids removal' queue' : List Text)
    → Admitted ids removal queue removal' queue'
    → Within queue removal
    → Within queue' removal'
queue-Within removal queue ids removal' queue' a h x m =
    ground (arith, a.is_union x, a.queued x, h x)

-- The loop ends within its fuel, with the ids that are doomed and no others.
pub close-Doomed :
    (fuel : ℕ) (s : Store) (start removal queue : List Text)
    → CitesStored s
    → Within queue removal
    → IsClosing s start removal queue
    → length queue + missing s.journal_ids removal ≤ fuel
    → (result : List Text) × (close fuel s removal queue ≡ some result)
      × IsClosing s start result []
unfolding close
close-Doomed fuel s start removal [] cites h c enough = (removal, refl, c)
close-Doomed zero s start removal (id ∷ queue) cites h c enough = absurd (omega arith)
close-Doomed (suc fuel) s start removal (id ∷ queue) cites h c enough =
    let a = admit-Admitted (dependents_of s id) removal queue in
    let inside : has id removal ≡ true = h id (unfold has in ground (arith, text_eq_refl id)) in
    close-Doomed fuel s start (admit (dependents_of s id) removal queue).0
      (admit (dependents_of s id) removal queue).1 cites
      (queue-Within removal queue (dependents_of s id) _ _ a
        (λ x m. h x (unfold has in ground arith)))
      (round-IsClosing s start removal queue _ _ id inside a c)
      (omega (arith, a.spent s.journal_ids (cites id)))

start-IsClosing : (s : Store) (start : List Text) → IsClosing s start start start
start-IsClosing s start = record {
  holds = λ x h. h;
  doomed = λ x h. Doomed.named h;
  pending = λ x h. inl h;
}

Doomed-has :
    (s : Store) (start result : List Text)
    → IsClosing s start result []
    → {x : Text} → Doomed s start x
    → has x result ≡ true
Doomed-has s start result c {x} (named h) = c.holds x h
Doomed-has s start result c {x = y} (citing {x = x} d m) =
    let before = Doomed-has s start result c d in
    elim (c.pending x before) [
      | inl waits ↦ absurd (unfold has in ground arith)
      | inr done ↦ done y m
    ]

-- From the seeds on: an id is in the result exactly when it is doomed.
pub closure_lem :
    (s : Store) (start : List Text)
    → CitesStored s
    → (result : List Text) × (close (closure_fuel s start) s start start ≡ some result)
      × ((x : Text) → (has x result ≡ true) ↔ Doomed s start x)
unfolding closure_fuel
closure_lem s start cites =
    let (result, done, c) =
      close-Doomed (length start + length s.journal_ids) s start start start cites (λ x h. h)
        (start-IsClosing s start) (omega (arith, missing-le s.journal_ids start)) in
    (result, done, λ x. (c.doomed x, Doomed-has s start result c))
