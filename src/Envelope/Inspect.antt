-- ===== src/Envelope/Inspect.antt =====
-- src/canonical-immutable-envelope.ts: the inspection of an input, which detaches a value from it.
use attunegraph.Common.{
  ℕ, suc, Bool, true, false, ◌&&◌, Option, none, some, [], leb, ◌==◌, Text, text_eq, Result, ok,
  err, guard, ◌>>=◌, ◌>>◌,
}
use attunegraph.Json.Print.{number}
use attunegraph.Envelope.Values.{
  Value, null_value, boolean_value, number_value, string_value, array_value, record_value, Items,
  nil, cons, Fields, end, field, Input, null_input, other_input, boolean_input, number_input,
  string_input, array_input, record_input, Elements, last, element, Entries, none_left, entry,
  element_count, entry_keys,
}
use attunegraph.Envelope.Contract.{
  EnvelopeError, BudgetAxis, failure, exceeded, invalid_input, inspect, unsupported_value,
  root_not_record, max_depth, bounded_path,
}
use attunegraph.Envelope.Charges.{
  Options, State, charge_descriptors, validate_and_charge_string, validate_number, enter,
  open_record, admit_field,
}

abbrev pub Inspected : Type 0 → Type 0
Inspected A = Result EnvelopeError (A × State)

-- The id field of the root is not defined in the detached record.
abbrev pub define_kept : Option Text → Text → Value → Fields → Fields
define_kept none key child fields = field key child fields
define_kept (some id) key child fields = fields

module _ (o : Options) where
  unfoldable mutual
    -- `inspectValue` of a value within the limit of depth.
    pub inspect_shallow : Input → ℕ → Text → State → Inspected Value
    inspect_shallow null_input level path s = ok (null_value, s)
    inspect_shallow other_input level path s =
        err (failure invalid_input inspect unsupported_value path)
    inspect_shallow (boolean_input b) level path s = ok (boolean_value b, s)
    inspect_shallow (number_input n) level path s = validate_number n path >> ok (number_value n, s)
    inspect_shallow (string_input text) level path s =
        validate_and_charge_string text s path >>= λ charged. ok (string_value text, charged)
    inspect_shallow (array_input c elements) level path s =
        enter o true c level path s
        >>= (λ entered. charge_descriptors entered (element_count elements) path)
        >>= (λ charged. inspect_elements elements 0 (suc level) path charged)
        >>= (λ r. ok (array_value (r.0), r.1))
    inspect_shallow (record_input c entries) level path s =
        enter o false c level path s
        >>= (λ entered. open_record o (level == 0) (entry_keys entries) path entered)
        >>= (λ opened. inspect_entries entries (level == 0) (suc level) path opened)
        >>= (λ r. ok (record_value (r.0), r.1))

    -- The loop of `inspectArray`.
    pub inspect_elements : Elements → ℕ → ℕ → Text → State → Inspected Items
    inspect_elements last index level path s = ok (nil, s)
    inspect_elements (element v vs) index level path s =
        let here = bounded_path path (number index) in
        guard (leb level max_depth) (exceeded inspect here BudgetAxis.depth level max_depth)
        >> inspect_shallow v level here s
        >>= λ first.
            (inspect_elements vs (suc index) level path (first.1)
              >>= (λ rest. ok (cons (first.0) (rest.0), rest.1)))

    -- The loop of `inspectRecord`; the second argument says that the record is the root.
    pub inspect_entries : Entries → Bool → ℕ → Text → State → Inspected Fields
    inspect_entries none_left root level path s = ok (end, s)
    inspect_entries (entry key v es) root level path s =
        let here = bounded_path path key in
        validate_and_charge_string key s here >>= λ named.
        (guard (leb level max_depth) (exceeded inspect here BudgetAxis.depth level max_depth)
          >> inspect_shallow v level here named
          >>= λ child.
              (admit_field o (root && text_eq key o.spec.id_field) key (child.0) (child.1) here
                >>= λ admitted.
                    (inspect_entries es root level path (admitted.1)
                      >>= (λ rest. ok (define_kept (admitted.0) key (child.0) (rest.0), rest.1)))))

  -- `inspectValue`
  unfoldable pub inspect_value : Input → ℕ → Text → State → Inspected Value
  unfolding inspect_shallow
  inspect_value v level path s =
      guard (leb level max_depth) (exceeded inspect path BudgetAxis.depth level max_depth)
      >> inspect_shallow v level path s

-- The body of an envelope is a record.
abbrev pub as_body : Value × State → Result EnvelopeError (Fields × Option Text)
as_body (record_value fields, s) = ok (fields, s.supplied_id)
as_body (v, s) = err (failure invalid_input inspect root_not_record [])

abbrev pub fresh_state : State
fresh_state = record { descriptors = 0; aggregate_string_bytes = 0; supplied_id = none }

-- `inspectEnvelope`: the body and the id that came with it.
unfoldable pub inspect_envelope : Options → Input → Result EnvelopeError (Fields × Option Text)
unfolding inspect_value inspect_shallow
inspect_envelope o input = inspect_value o input 0 [] fresh_state >>= as_body
