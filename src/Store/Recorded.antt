-- ===== src/Store/Recorded.antt =====
-- src/in-memory-store.ts: `getAssertion`, `journal` and `recorded`.
pub mod Loop
pub mod Range
use attunegraph.Common.{
  ℕ, Bool, false, Option, none, some, List, [], ◌∷◌, ◌++◌, if◌then◌else◌, Text, ltb, leb, length,
  drop,
}
use attunegraph.Common.Maps.{get}
use attunegraph.Graph.Types.{Assertion, RecordedRange}
use attunegraph.Graph.Instant.{instant_epoch}
use attunegraph.Store.State.{Store, stored_at, first_recorded_after}

unfoldable pub get_assertion : Store → Text → Option Assertion
get_assertion s id = get id s.assertions

-- `journal`: the ids without an assertion are passed over.
unfoldable pub journal_of : Store → List Text → List Assertion
journal_of s [] = []
journal_of s (id ∷ ids) =
    let rest = journal_of s ids in elim (get id s.assertions) [ none ↦ rest | some a ↦ a ∷ rest ]

unfoldable pub journal : Store → List Assertion
unfolding journal_of
journal s = journal_of s s.journal_ids

abbrev pub is_past : Option Text → Assertion → Bool
is_past none a = false
is_past (some through) a = ltb (instant_epoch through) (instant_epoch a.recorded_at)

-- The loop of `recorded`, on the ids from the start index on.
unfoldable pub collect : Store → RecordedRange → List Text → List Assertion → List Assertion
collect s range [] result = result
collect s range (id ∷ ids) result =
    let skip = collect s range ids result in
    elim (stored_at s (some id)) [
      | none ↦ skip
      | some a ↦
          let more = collect s range ids (result ++ a ∷ []) in
          if is_past range.through a
          then result
          else if leb range.limit (length (result ++ a ∷ []))
          then result ++ a ∷ []
          else more
    ]

-- `range.after ? this.firstRecordedAfter(…) : 0`
unfoldable pub start_index : Store → Option Text → ℕ
start_index s none = 0
start_index s (some after) = first_recorded_after s (instant_epoch after)

-- `recorded` behind the normalization of its range.
unfoldable pub recorded : Store → RecordedRange → List Assertion
recorded s range = collect s range (drop (start_index s range.after) s.recorded_ids) []
