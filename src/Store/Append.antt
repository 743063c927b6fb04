-- ===== src/Store/Append.antt =====
-- src/in-memory-store.ts: `append`. The whole batch is checked before anything is written.
pub mod Staging
pub mod Commit
pub mod Effect
use attunegraph.Common.{
  ℕ, ◌+◌, ◌≡◌, refl, Bool, Option, none, some, List, [], ◌∷◌, if◌then◌else◌, Text, text_eq, Sign,
  length, Result, ok, err, ◌>>=◌,
}
use attunegraph.Common.Maps.{get, put, keys, values}
use attunegraph.Graph.Types.{Assertion, AppendReceipt}
use attunegraph.Graph.Fingerprint.{canonical_assertion}
use attunegraph.Validation.{DataError, assertion_collision, normalize_batch}
use attunegraph.Store.State.{Store, enter}

pub record Staged : Type 0 where
  pub assertion : Assertion
  pub fingerprint : Text

abbrev pub Batch : Type 0
Batch = List (Text × Staged)

-- What the first loop of `append` does with one assertion: a collision, a replay, or a new entry.
pub data Finding : Type 0 where
  collision replay fresh : Finding

abbrev pub compare_prints : Text → Text → Finding
compare_prints known fingerprint = if text_eq known fingerprint then replay else collision

unfoldable pub find : Store → Batch → Assertion → Finding
find s staged a = elim (get a.id staged) [
  | some earlier ↦ compare_prints earlier.fingerprint (canonical_assertion a)
  | none ↦ elim (get a.id s.fingerprints) [
    | some known ↦ compare_prints known (canonical_assertion a)
    | none ↦ fresh
  ]
]

unfoldable pub stage : Store → List Assertion → Batch → ℕ → Result DataError (Batch × ℕ)
stage s [] staged replayed = ok (staged, replayed)
stage s (a ∷ rest) staged replayed =
    let again = stage s rest staged (replayed + 1) in
    let next =
      stage s rest (put a.id (record { assertion = a; fingerprint = canonical_assertion a }) staged)
        replayed in
    elim (find s staged a) [ collision ↦ err assertion_collision | replay ↦ again | fresh ↦ next ]

module _ (locale_compare : Text → Text → Sign) where
  -- The second loop.
  unfoldable pub commit : List Staged → Store → Store
  commit [] s = s
  commit (e ∷ rest) s = commit rest (enter locale_compare e.assertion e.fingerprint s)

  -- `append` behind the normalization of its batch.
  unfoldable pub append_normalized :
      List Assertion → Store → Result DataError (AppendReceipt × Store)
  append_normalized inputs s = do
    (staged, replayed) ← stage s inputs [] 0
    ok (
      record { appended = length (keys staged); assertion_ids = keys staged; replayed = replayed },
      commit (values staged) s,
    )

  unfoldable pub append : List Assertion → Store → Result DataError (AppendReceipt × Store)
  append inputs s = do
    normalized ← normalize_batch locale_compare inputs
    append_normalized normalized s
