-- ===== src/Store/Append/Staging.antt =====
-- The first loop of `append`: what it has staged when it ends.
use attunegraph.Common.{
  ℕ, ◌+◌, ◌≡◌, refl, ap, ◌∙◌, true, Option, none, some, List, [], ◌∷◌, Text, arith, text_eq,
  text_eq_iff, text_eq_refl, if◌then◌else◌, length, ok, All, Bool-cases, inl, inr, Option-cases,
  ◌⊎◌, sym, Sign, subst, length-append,
}
use attunegraph.Common.Maps.{
  get, put, keys, get-put, keys-put_new, length-keys, is_distinct-keys-put,
}
use attunegraph.Common.Sets.{is_distinct}
use attunegraph.Graph.Types.{Assertion}
use attunegraph.Graph.Fingerprint.{canonical_assertion}
use attunegraph.Validation.{normalize_assertion}
use attunegraph.Store.Append.{
  Staged, Batch, Finding, collision, replay, fresh, compare_prints, find, stage,
}
use attunegraph.Store.State.{Store}

abbrev print_or : Option Staged → Option Text → Option Text
print_or none old = old
print_or (some e) old = some e.fingerprint

-- The fingerprint under an id, of the batch or else of the store.
abbrev pub known : Store → Batch → Text → Option Text
known s staged id = print_or (get id staged) (get id s.fingerprints)

abbrev pub find_in : Option Text → Text → Finding
find_in none print = fresh
find_in (some old) print = compare_prints old print

pub find_lem :
    (s : Store) (staged : Batch) (a : Assertion)
    → find s staged a ≡ find_in (known s staged a.id) (canonical_assertion a)
unfolding find
find_lem s staged a = ground arith

abbrev pub entry_of : Assertion → Staged
entry_of a = record { assertion = a; fingerprint = canonical_assertion a }

pub known-put :
    (s : Store) (staged : Batch) (a : Assertion) (id : Text)
    → known s (put a.id (entry_of a) staged) id
      ≡ (if text_eq a.id id then some (canonical_assertion a) else known s staged id)
known-put s staged a id = ground (arith, get-put a.id id (entry_of a) staged)

pub Finding-cases : (f : Finding) → (f ≡ collision) ⊎ ((f ≡ replay) ⊎ (f ≡ fresh))
Finding-cases collision = inl refl
Finding-cases replay = inr (inl refl)
Finding-cases fresh = inr (inr refl)

module _ (locale_compare : Text → Text → Sign) (s : Store) where
  -- An entry is a new normal assertion under its id, with its fingerprint.
  pub record IsReady (k : Text) (e : Staged) : Type 0 where
    pub own : e.assertion.id ≡ k
    pub print : e.fingerprint ≡ canonical_assertion e.assertion
    pub normal : normalize_assertion locale_compare e.assertion ≡ ok e.assertion
    pub unknown : get k s.fingerprints ≡ none

  pub record AllReady (staged : Batch) : Type 0 where
    pub distinct : is_distinct (keys staged) ≡ true
    pub entries : (k : Text) (e : Staged) → get k staged ≡ some e → IsReady k e

  find-fresh :
      (staged : Batch) (a : Assertion)
      → find s staged a ≡ fresh
      → (get a.id staged ≡ none) × (get a.id s.fingerprints ≡ none)
  unfolding find
  find-fresh staged a h = ground arith

  AllReady-put :
      (staged : Batch) (a : Assertion)
      → AllReady staged
      → normalize_assertion locale_compare a ≡ ok a
      → find s staged a ≡ fresh
      → AllReady (put a.id (entry_of a) staged)
  AllReady-put staged a r normal new = record {
    distinct = is_distinct-keys-put a.id (entry_of a) staged r.distinct;
    entries = λ k e h. elim (Bool-cases (text_eq a.id k)) [
      | inl same ↦
          let at : a.id ≡ k = (text_eq_iff a.id k).0 same in
          let it : entry_of a ≡ e = ground (arith, get-put a.id k (entry_of a) staged) in
          subst (λ x. IsReady k x) it
            (record {
              own = at;
              print = refl;
              normal = normal;
              unknown = ap (λ i. get i s.fingerprints) (sym at) ∙ (find-fresh staged a new).1;
            })
      | inr apart ↦ r.entries k e (ground (arith, get-put a.id k (entry_of a) staged))
    ];
  }

  -- What the loop has done when it has ended without a collision.
  pub record Outcome (inputs : List Assertion) (staged : Batch) (replayed : ℕ) (out : Batch) (n : ℕ)
      : Type 0 where
    pub ready : AllReady out
    pub kept : (id p : Text) → known s staged id ≡ some p → known s out id ≡ some p
    pub covered : All (λ (a : Assertion). known s out a.id ≡ some (canonical_assertion a)) inputs
    pub counted : length out + n ≡ length staged + replayed + length inputs

  replay-known :
      (staged : Batch) (a : Assertion)
      → find s staged a ≡ replay
      → known s staged a.id ≡ some (canonical_assertion a)
  replay-known staged a h =
      let found : find_in (known s staged a.id) (canonical_assertion a) ≡ replay =
        sym (find_lem s staged a) ∙ h in
      elim (Option-cases (known s staged a.id)) [
        | inl unknown ↦ ground arith
        | inr (p, there) ↦ ground (arith, text_eq_iff p (canonical_assertion a))
      ]

  fresh-known :
      (staged : Batch) (a : Assertion) (id p : Text)
      → find s staged a ≡ fresh
      → known s staged id ≡ some p
      → known s (put a.id (entry_of a) staged) id ≡ some p
  fresh-known staged a id p new h =
      let unknown = find-fresh staged a new in
      ground (arith, known-put s staged a id, text_eq_iff a.id id)

  length-put_new :
      (staged : Batch) (a : Assertion)
      → get a.id staged ≡ none
      → length (put a.id (entry_of a) staged) ≡ length staged + 1
  length-put_new staged a h =
      let keys_after = ap length (keys-put_new a.id (entry_of a) staged h) in
      omega (
        arith,
        length-keys (put a.id (entry_of a) staged),
        length-keys staged,
        length-append (keys staged) (a.id ∷ []),
      )

  -- One more replay, or one more entry, in front of the outcome of the rest.
  after_replay :
      (a : Assertion) (inputs : List Assertion) (staged : Batch) (replayed : ℕ) (out : Batch)
      (n : ℕ)
      → find s staged a ≡ replay
      → Outcome inputs staged (replayed + 1) out n
      → Outcome (a ∷ inputs) staged replayed out n
  after_replay a inputs staged replayed out n again o = record {
    ready = o.ready;
    kept = o.kept;
    covered = (o.kept a.id (canonical_assertion a) (replay-known staged a again), o.covered);
    counted = omega (arith, o.counted);
  }

  after_fresh :
      (a : Assertion) (inputs : List Assertion) (staged : Batch) (replayed : ℕ) (out : Batch)
      (n : ℕ)
      → find s staged a ≡ fresh
      → Outcome inputs (put a.id (entry_of a) staged) replayed out n
      → Outcome (a ∷ inputs) staged replayed out n
  after_fresh a inputs staged replayed out n new o = record {
    ready = o.ready;
    kept = λ id p h. o.kept id p (fresh-known staged a id p new h);
    covered = (
      o.kept a.id (canonical_assertion a)
          (ground (arith, known-put s staged a a.id, text_eq_refl a.id)),
      o.covered,
    );
    counted = omega (arith, o.counted, length-put_new staged a (find-fresh staged a new).0);
  }

  pub stage-Outcome :
      (inputs : List Assertion) (staged : Batch) (replayed : ℕ) (out : Batch) (n : ℕ)
      → AllReady staged
      → All (λ a. normalize_assertion locale_compare a ≡ ok a) inputs
      → stage s inputs staged replayed ≡ ok (out, n)
      → Outcome inputs staged replayed out n
  unfolding stage
  stage-Outcome [] staged replayed out n r normal h =
      let same : staged ≡ out = ground arith in
      let count : replayed ≡ n = ground arith in
      rw (← same, ← count)
        (record { ready = r; kept = λ id p k. k; covered = tt; counted = omega arith })
  stage-Outcome (a ∷ inputs) staged replayed out n r normal h =
      elim (Finding-cases (find s staged a)) [
        | inl clash ↦ absurd (ground arith)
        | inr (inl again) ↦
            after_replay a inputs staged replayed out n again
              (stage-Outcome inputs staged (replayed + 1) out n r normal.1 (ground arith))
        | inr (inr new) ↦ after_fresh a inputs staged replayed out n new (
            stage-Outcome inputs (put a.id (entry_of a) staged) replayed out n
              (AllReady-put staged a r normal.0 new) normal.1 (ground arith))
      ]

  pub AllReady-nil : AllReady []
  unfolding get keys is_distinct
  AllReady-nil = record { distinct = refl; entries = λ k e h. absurd (cc) }
