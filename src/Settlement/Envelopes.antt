-- ===== src/Settlement/Envelopes.antt =====
-- src/candidate-settlement-ledger.ts: the bodies of ledgers and capacity errors as plain objects, and
-- the calls of `canonicalizeImmutableEnvelope` (src/canonical-immutable-envelope.ts) on them.
use Prim.Native.String.{String}
use attunegraph.Common.{ℕ, Option, none, some, List, [], ◌∷◌, ◌++◌, Text, codes, Result, ok, err}
use attunegraph.Envelope.Values.{
  natural, Container, plain, standard, external_mutable, Input, number_input, string_input,
  array_input, record_input, Elements, element, last, Entries, entry, none_left,
}
use attunegraph.Envelope.Contract.{EnvelopeError, Spec}
use attunegraph.Envelope.{Sealed, canonicalize_immutable_envelope}
use attunegraph.Settlement.Types.{
  Axis, Role, SkippedReason, Terminal, SettlementEntry, SettlementCounters, LedgerMode, LedgerBody,
  CapacityBody, Canonical, SettlementError,
}

-- `LEDGER_SPEC`
abbrev pub ledger_spec : Spec
ledger_spec = record {
  hash_domain = codes "attunegraph.candidate-settlement-ledger.v1";
  id_field = codes "ledgerId";
  id_prefix = codes "attunegraph-candidate-ledger:sha256:";
}

-- `ERROR_SPEC`
abbrev pub error_spec : Spec
error_spec = record {
  hash_domain = codes "attunegraph.candidate-settlement-capacity-error.v1";
  id_field = codes "errorId";
  id_prefix = codes "attunegraph-candidate-capacity-error:sha256:";
}

abbrev pub axis_text : Axis → Text
axis_text Axis.depth = codes "depth"
axis_text Axis.considered = codes "considered"
axis_text Axis.visited = codes "visited"
axis_text Axis.assertions = codes "assertions"
axis_text Axis.token = codes "token"
axis_text Axis.bytes = codes "bytes"

abbrev pub role_text : Role → Text
role_text Role.core = codes "core"
role_text Role.optional = codes "optional"

-- `SkippedReasonId`
abbrev pub skipped_text : SkippedReason → Text
skipped_text SkippedReason.core_not_admitted = codes "skipped:core-not-admitted"
skipped_text SkippedReason.after_first_failure = codes "skipped:after-first-failure"
skipped_text SkippedReason.core_only_fallback = codes "skipped:core-only-fallback"
skipped_text SkippedReason.abstain_fallback = codes "skipped:abstain-fallback"

abbrev pub mode_text : LedgerMode → Text
mode_text LedgerMode.normal = codes "normal"
mode_text LedgerMode.core_only = codes "core-only"
mode_text LedgerMode.abstain = codes "abstain"

-- An object or an array literal.
abbrev literal : Container
literal = record { brand = plain; prototype = standard; profile = external_mutable }

abbrev text_entry : String → Text → Entries → Entries
text_entry key text rest = entry (codes key) (string_input text) rest

abbrev number_entry : String → ℕ → Entries → Entries
number_entry key n rest = entry (codes key) (number_input (natural n)) rest

-- The fields of an entry behind its candidate's id.
abbrev terminal_entries : Text → Terminal → Entries
terminal_entries role Terminal.admitted =
    text_entry "role" role (text_entry "terminalState" (codes "admitted") none_left)
terminal_entries role (Terminal.rejected why) =
    text_entry "reasonId" why
      (text_entry "role" role (text_entry "terminalState" (codes "rejected") none_left))
terminal_entries role (Terminal.failed axis) =
    text_entry "reasonId" (codes "budget:" ++ axis_text axis)
      (text_entry "role" role (text_entry "terminalState" (codes "failed") none_left))
terminal_entries role (Terminal.skipped reason) =
    text_entry "reasonId" (skipped_text reason)
      (text_entry "role" role (text_entry "terminalState" (codes "skipped") none_left))

-- `{ ...item }`
unfoldable pub entry_input : SettlementEntry → Input
entry_input e =
    record_input literal
      (text_entry "candidateId" e.candidate_id (terminal_entries (role_text e.role) e.terminal))

-- `entries.map((item) => ({ ...item }))`
unfoldable pub entry_inputs : List SettlementEntry → Elements
unfolding entry_input
entry_inputs [] = last
entry_inputs (e ∷ entries) = element (entry_input e) (entry_inputs entries)

-- `{ ...counters(entries, work) }`
unfoldable pub counters_input : SettlementCounters → Input
counters_input c = record_input literal (
    number_entry "admitted" c.admitted (
      number_entry "candidateCount" c.candidate_count (
        number_entry "failed" c.failed (
          number_entry "maxDepth" c.work.depth (
            number_entry "rejected" c.rejected (
              number_entry "selectedAssertions" c.work.assertions (
                number_entry "selectedPayloadBytes" c.work.bytes (
                  number_entry "selectedPayloadEstimatedTokens" c.work.token (
                    number_entry "skipped" c.skipped (
                      number_entry "consideredAssertions" c.work.considered
                        (number_entry "visitedRefs" c.work.visited none_left)))))))))))

abbrev axis_entries : Option Axis → Entries
axis_entries none = none_left
axis_entries (some axis) = text_entry "firstViolatedAxis" (axis_text axis) none_left

-- The object that `envelope` writes.
unfoldable pub ledger_input : LedgerBody → Input
unfolding entry_inputs counters_input
ledger_input body = record_input literal (
    entry (codes "counters") (counters_input body.counters) (
      entry (codes "entries") (array_input literal (entry_inputs body.entries)) (
        text_entry "inventoryId" body.inventory_id (
          text_entry "mode" (mode_text body.mode)
            (number_entry "schemaVersion" 1 (axis_entries body.first_violated_axis))))))

-- The object that `invalid` writes.
unfoldable pub capacity_input : CapacityBody → Input
capacity_input body = record_input literal (
    text_entry "firstViolatedAxis" (axis_text body.first_violated_axis) (
      text_entry "inventoryId" body.inventory_id (
        entry (codes "minimumRequired")
          (record_input literal (
            number_entry "maxEstimatedTokens" body.max_estimated_tokens
              (number_entry "maxOutputBytes" body.max_output_bytes none_left)))
          (text_entry "mode" (codes "invalid-input") (
            text_entry "reasonId" (codes "minimum-abstention-exceeds-budget")
              (number_entry "schemaVersion" 1 none_left))))))

-- What the settlement takes of an envelope; an error of the envelope passes through. The test behind
-- it, that the ledger is frozen and has as many entries as were written, is left out.
unfoldable pub sealed_as : Result EnvelopeError Sealed → Result SettlementError Canonical
sealed_as (ok s) = ok (record {
  content_id = s.content_id;
  json = s.canonical_json;
  byte_length = s.canonical_byte_length;
})
sealed_as (err why) = err (SettlementError.envelope_refused why)

module _ (sha256_hex : Text → Text) where
  unfoldable pub ledger_canonical : LedgerBody → Result SettlementError Canonical
  unfolding ledger_input sealed_as
  ledger_canonical body =
      sealed_as (
        canonicalize_immutable_envelope sha256_hex (ledger_input body) external_mutable ledger_spec)

  unfoldable pub capacity_canonical : CapacityBody → Result SettlementError Canonical
  unfolding capacity_input sealed_as
  capacity_canonical body =
      sealed_as (
        canonicalize_immutable_envelope sha256_hex (capacity_input body) external_mutable
          error_spec)
