-- ===== src/Store/Append/Effect.antt =====
-- What a successful `append` does to the store, and that it can be repeated.
use attunegraph.Common.{
  ℕ, ◌+◌, ◌≡◌, ◌≢◌, refl, get_elem?, All-get_elem?, ap, ◌∙◌, some, List, [], ◌∷◌, ◌++◌, Text, arith,
  Sign, length, Result, ok, err, >>=-eq-ok, All, All-map, Option-cases, inl, inr, text_eq_refl,
}
use attunegraph.Common.Maps.{get, put, keys, values, length-keys}
use attunegraph.Common.Order.{IsOrder}
use attunegraph.Graph.Types.{Assertion, AppendReceipt}
use attunegraph.Graph.Fingerprint.{canonical_assertion}
use attunegraph.Validation.{DataError, assertion_collision, normalize_assertion, normalize_batch}
use attunegraph.Validation.Laws.{normalize_batch-IsNormal}
use attunegraph.Store.State.{Store}
use attunegraph.Store.Invariant.{IsWellFormed}
use attunegraph.Store.Invariant.Comparator.{compare_assertions-IsOrder}
use attunegraph.Store.Append.{Batch, replay, find, stage, commit, append_normalized, append}
use attunegraph.Store.Append.Staging.{
  entry_of, Finding-cases, known, find_lem, AllReady, AllReady-nil, Outcome, stage-Outcome,
}
use attunegraph.Store.Append.Commit.{assertion_in, Committed, commit-Committed}

module _ (locale_compare : Text → Text → Sign) (locale : IsOrder locale_compare) where
  -- A batch that is accepted: what was staged, and the store behind it.
  pub record Accepted (s : Store) (inputs : List Assertion) (receipt : AppendReceipt)
      (after : Store) : Type 0 where
    pub staged : Batch
    pub replays : ℕ
    pub outcome : Outcome locale_compare s inputs [] 0 staged replays
    pub committed : Committed locale_compare s staged after
    pub receipt_is : receipt ≡ record {
      appended = length (keys staged);
      assertion_ids = keys staged;
      replayed = replays;
    }

  pub append_normalized-Accepted :
      (s : Store) (inputs : List Assertion) (receipt : AppendReceipt) (after : Store)
      → IsWellFormed locale_compare s
      → All (λ a. normalize_assertion locale_compare a ≡ ok a) inputs
      → append_normalized locale_compare inputs s ≡ ok (receipt, after)
      → Accepted s inputs receipt after
  unfolding append_normalized
  append_normalized-Accepted s inputs receipt after w normal h =
      let ((staged, replays), es, h1) = >>=-eq-ok (stage s inputs [] 0) _ h in
      let o =
        stage-Outcome locale_compare s inputs [] 0 staged replays (AllReady-nil locale_compare s)
          normal es in
      let c =
        commit-Committed locale_compare (compare_assertions-IsOrder locale_compare locale) staged s
          w o.ready in
      let same : commit locale_compare (values staged) s ≡ after = ground arith in
      record {
        staged = staged;
        replays = replays;
        outcome = o;
        committed = rw same at c;
        receipt_is = ground arith;
      }

  append-Accepted :
      (s : Store) (inputs normalized : List Assertion) (receipt : AppendReceipt) (after : Store)
      → IsWellFormed locale_compare s
      → normalize_batch locale_compare inputs ≡ ok normalized
      → append locale_compare inputs s ≡ ok (receipt, after)
      → Accepted s normalized receipt after
  unfolding append
  append-Accepted s inputs normalized receipt after w n h =
      append_normalized-Accepted s normalized receipt after w
        (normalize_batch-IsNormal locale_compare locale inputs normalized n) (ground arith)

  -- A successful `append` to a well-formed store leaves it well formed, when `localeCompare` is an
  -- order: maps, journal, indexes and recorded order agree again.
  pub append-IsWellFormed :
      (s : Store) (inputs : List Assertion) (receipt : AppendReceipt) (after : Store)
      → IsWellFormed locale_compare s
      → append locale_compare inputs s ≡ ok (receipt, after)
      → IsWellFormed locale_compare after
  unfolding append
  append-IsWellFormed s inputs receipt after w h =
      let (normalized, n, h1) = >>=-eq-ok (normalize_batch locale_compare inputs) _ h in
      (append-Accepted s inputs normalized receipt after w n h).committed.well_formed

  kept_assertion :
      (s : Store) (staged : Batch) (id : Text) (b : Assertion)
      → IsWellFormed locale_compare s
      → AllReady locale_compare s staged
      → get id s.assertions ≡ some b
      → assertion_in staged s.assertions id ≡ some b
  kept_assertion s staged id b w r h = elim (Option-cases (get id staged)) [
    | inl absent ↦ ground arith
    | inr (e, there) ↦
        let stored = w.own_print id b h in
        let unknown = (r.entries id e there).unknown in absurd (ground arith)
  ]

  -- What a successful `append` to a well-formed store does, when `localeCompare` is an order: the
  -- journal grows by the ids of the receipt, in order; the receipt counts every input once, as appended or as replayed; and every
  -- input is recorded under its id with its own fingerprint.
  pub append-effect :
      (s : Store) (inputs normalized : List Assertion) (receipt : AppendReceipt) (after : Store)
      → IsWellFormed locale_compare s
      → normalize_batch locale_compare inputs ≡ ok normalized
      → append locale_compare inputs s ≡ ok (receipt, after)
      → (after.journal_ids ≡ s.journal_ids ++ receipt.assertion_ids)
        × (receipt.appended + receipt.replayed ≡ length normalized)
        × All
            (λ (a : Assertion). get a.id after.fingerprints ≡ some (canonical_assertion a))
            normalized
  append-effect s inputs normalized receipt after w n h =
      let acc = append-Accepted s inputs normalized receipt after w n h in
      (
        ground (arith, acc.committed.journal, acc.receipt_is),
        ground (arith, acc.receipt_is, acc.outcome.counted, length-keys acc.staged),
        All-map (λ (a : Assertion). known s acc.staged a.id ≡ some (canonical_assertion a))
            (λ (a : Assertion). get a.id after.fingerprints ≡ some (canonical_assertion a))
            (λ a e. acc.committed.prints a.id ∙ e) normalized acc.outcome.covered,
      )

  -- A successful `append` to a well-formed store keeps every assertion that was stored, as it was,
  -- when `localeCompare` is an order.
  pub append_keeps :
      (s : Store) (inputs normalized : List Assertion) (receipt : AppendReceipt) (after : Store)
      → IsWellFormed locale_compare s
      → normalize_batch locale_compare inputs ≡ ok normalized
      → append locale_compare inputs s ≡ ok (receipt, after)
      → (id : Text) (b : Assertion) → get id s.assertions ≡ some b
      → get id after.assertions ≡ some b
  append_keeps s inputs normalized receipt after w n h id b e =
      let acc = append-Accepted s inputs normalized receipt after w n h in
      acc.committed.assertions id ∙ kept_assertion s acc.staged id b w acc.outcome.ready e

  stage_replays :
      (s : Store) (inputs : List Assertion) (n : ℕ)
      → All (λ (a : Assertion). get a.id s.fingerprints ≡ some (canonical_assertion a)) inputs
      → stage s inputs [] n ≡ ok ([], n + length inputs)
  unfolding stage get
  stage_replays s [] n h = ground arith
  stage_replays s (a ∷ inputs) n h =
      let again : find s [] a ≡ replay =
        find_lem s [] a ∙ ground (arith, text_eq_refl (canonical_assertion a)) in
      rw (again, stage) (stage_replays s inputs (n + 1) h.1 ∙ ground arith)

  -- A batch that a well-formed store has accepted can be sent again: every assertion counts as
  -- replayed, nothing is appended, and the store is the same, when `localeCompare` is an order.
  pub append_replay :
      (s : Store) (inputs normalized : List Assertion) (receipt : AppendReceipt) (after : Store)
      → IsWellFormed locale_compare s
      → normalize_batch locale_compare inputs ≡ ok normalized
      → append locale_compare inputs s ≡ ok (receipt, after)
      → append locale_compare inputs after
        ≡ ok (record { appended = 0; assertion_ids = []; replayed = length normalized }, after)
  unfolding append append_normalized keys values commit
  append_replay s inputs normalized receipt after w n h =
      let effect = append-effect s inputs normalized receipt after w n h in
      rw n (rw (stage_replays after normalized 0 effect.2) (ground arith))

  -- Two assertions of one id and different content: one is stored and one is in the batch, or both
  -- are in the batch.
  pub data Conflict (s : Store) (batch : List Assertion) : Type 0 where
    with_stored :
        (i : ℕ) (a : Assertion) (print : Text)
        → get_elem? batch i ≡ some a
        → get a.id s.fingerprints ≡ some print
        → print ≢ canonical_assertion a
        → Conflict s batch
    in_batch :
        (i j : ℕ) (a b : Assertion)
        → get_elem? batch i ≡ some a
        → get_elem? batch j ≡ some b
        → a.id ≡ b.id
        → canonical_assertion a ≢ canonical_assertion b
        → Conflict s batch

  not-Conflict :
      (s : Store) (normalized : List Assertion) (receipt : AppendReceipt) (after : Store)
      → Accepted s normalized receipt after
      → ¬ Conflict s normalized
  unfolding get
  not-Conflict s normalized receipt after acc (with_stored i a print at stored differs) =
      let covered =
        All-get_elem? (λ (a : Assertion). known s acc.staged a.id ≡ some (canonical_assertion a))
          normalized i a acc.outcome.covered at in
      let kept = acc.outcome.kept a.id print stored in differs (ground arith)
  not-Conflict s normalized receipt after acc (in_batch i j a b at_i at_j same differs) =
      let first =
        All-get_elem? (λ (a : Assertion). known s acc.staged a.id ≡ some (canonical_assertion a))
          normalized i a acc.outcome.covered at_i in
      let second =
        All-get_elem? (λ (a : Assertion). known s acc.staged a.id ≡ some (canonical_assertion a))
          normalized j b acc.outcome.covered at_j in
      differs (ground (arith, ap (known s acc.staged) same))

  stage-err :
      (s : Store) (inputs : List Assertion) (staged : Batch) (n : ℕ) (e : DataError)
      → stage s inputs staged n ≡ err e
      → e ≡ assertion_collision
  unfolding stage
  stage-err s [] staged n e h = absurd (cc)
  stage-err s (a ∷ inputs) staged n e h = elim (Finding-cases (find s staged a)) [
    | inl clash ↦ ground arith
    | inr (inl again) ↦ stage-err s inputs staged (n + 1) e (ground arith)
    | inr (inr new) ↦ stage-err s inputs (put a.id (entry_of a) staged) n e (ground arith)
  ]

  -- A batch that passes normalization and is in conflict with itself or with a well-formed store is
  -- refused as a collision, when `localeCompare` is an order; the refusal has no store, so that it
  -- writes nothing.
  pub append-Conflict :
      (s : Store) (inputs normalized : List Assertion)
      → IsWellFormed locale_compare s
      → normalize_batch locale_compare inputs ≡ ok normalized
      → Conflict s normalized
      → append locale_compare inputs s ≡ err assertion_collision
  append-Conflict s inputs normalized w n conflict = go (stage s normalized [] 0) refl
    where
      go :
          (r : Result DataError (Batch × ℕ))
          → stage s normalized [] 0 ≡ r
          → append locale_compare inputs s ≡ err assertion_collision
      go (err e) h =
          unfold append append_normalized in
          rw n (rw h (ap (λ x. err x) (stage-err s normalized [] 0 e h)))
      go (ok (staged, replays)) h =
          let receipt : AppendReceipt = record {
            appended = length (keys staged);
            assertion_ids = keys staged;
            replayed = replays;
          } in
          let after : Store = commit locale_compare (values staged) s in
          absurd (
            not-Conflict s normalized receipt after
              (append-Accepted s inputs normalized receipt after w n
                (unfold append append_normalized in rw n (rw h)))
              conflict)
