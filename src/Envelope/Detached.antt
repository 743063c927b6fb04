-- ===== src/Envelope/Detached.antt =====
-- What the inspection detaches from an input, what it charges for it, and the tests that it makes,
-- each as a function of the value alone.
use attunegraph.Common.{
  ℕ, suc, ◌+◌, Bool, true, false, ◌&&◌, leb, length, if◌then◌else◌, Text, text_eq,
}
use attunegraph.Json.Print.{byte_length}
use attunegraph.Decision.{is_paired}
use attunegraph.Envelope.Values.{
  Value, null_value, boolean_value, number_value, string_value, array_value, record_value, Items,
  nil, cons, Fields, end, field, Container, plain, standard, absent, attunegraph_frozen, Input,
  null_input, other_input, boolean_input, number_input, string_input, array_input, record_input,
  Elements, last, element, Entries, none_left, entry,
}
use attunegraph.Envelope.Contract.{max_depth, max_string_code_units, max_string_bytes}
use attunegraph.Envelope.Charges.{is_supported_number}

unfoldable mutual
  pub detached : Input → Value
  detached null_input = null_value
  detached other_input = null_value
  detached (boolean_input b) = boolean_value b
  detached (number_input n) = number_value n
  detached (string_input s) = string_value s
  detached (array_input c vs) = array_value (detached_elements vs)
  detached (record_input c es) = record_value (detached_entries es)

  pub detached_elements : Elements → Items
  detached_elements last = nil
  detached_elements (element v vs) = cons (detached v) (detached_elements vs)

  pub detached_entries : Entries → Fields
  detached_entries none_left = end
  detached_entries (entry key v es) = field key (detached v) (detached_entries es)

-- The fields with another key.
unfoldable pub without : Text → Fields → Fields
without key end = end
without key (field name v fs) =
    let rest = without key fs in if text_eq name key then rest else field name v rest

-- A value as `freezeBottomUp` leaves it.
abbrev pub frozen_array : Container
frozen_array = record { brand = plain; prototype = standard; profile = attunegraph_frozen }

abbrev pub frozen_record : Container
frozen_record = record { brand = plain; prototype = absent; profile = attunegraph_frozen }

unfoldable mutual
  pub frozen : Value → Input
  frozen null_value = null_input
  frozen (boolean_value b) = boolean_input b
  frozen (number_value n) = number_input n
  frozen (string_value s) = string_input s
  frozen (array_value vs) = array_input frozen_array (frozen_items vs)
  frozen (record_value fs) = record_input frozen_record (frozen_fields fs)

  pub frozen_items : Items → Elements
  frozen_items nil = last
  frozen_items (cons v vs) = element (frozen v) (frozen_items vs)

  pub frozen_fields : Fields → Entries
  frozen_fields end = none_left
  frozen_fields (field key v fs) = entry key (frozen v) (frozen_fields fs)

unfoldable pub string_fits : Text → Bool
string_fits s =
    leb (length s) max_string_code_units
    && is_paired false s
    && leb (byte_length s) max_string_bytes

unfoldable mutual
  unfolding string_fits

  -- The numbers, the strings and the depth of a value at a level.
  pub value_fits : ℕ → Value → Bool
  value_fits level null_value = true
  value_fits level (boolean_value b) = true
  value_fits level (number_value n) = is_supported_number n
  value_fits level (string_value s) = string_fits s
  value_fits level (array_value vs) = items_fit (suc level) vs
  value_fits level (record_value fs) = fields_fit (suc level) fs

  pub items_fit : ℕ → Items → Bool
  items_fit level nil = true
  items_fit level (cons v vs) = leb level max_depth && value_fits level v && items_fit level vs

  pub fields_fit : ℕ → Fields → Bool
  fields_fit level end = true
  fields_fit level (field key v fs) =
      string_fits key && leb level max_depth && value_fits level v && fields_fit level fs

unfoldable pub items_count : Items → ℕ
items_count nil = 0
items_count (cons v vs) = suc (items_count vs)

unfoldable pub fields_count : Fields → ℕ
fields_count end = 0
fields_count (field key v fs) = suc (fields_count fs)

-- How many objects and properties a value has; those of the items of an array are below it.
unfoldable mutual
  unfolding items_count fields_count

  pub value_descriptors : Value → ℕ
  value_descriptors (array_value vs) = suc (items_count vs + items_descriptors vs)
  value_descriptors (record_value fs) = suc (fields_count fs + fields_descriptors fs)
  value_descriptors v = 0

  pub items_descriptors : Items → ℕ
  items_descriptors nil = 0
  items_descriptors (cons v vs) = value_descriptors v + items_descriptors vs

  pub fields_descriptors : Fields → ℕ
  fields_descriptors end = 0
  fields_descriptors (field key v fs) = value_descriptors v + fields_descriptors fs

-- The bytes of the strings and the keys of a value.
unfoldable mutual
  pub value_bytes : Value → ℕ
  value_bytes (string_value s) = byte_length s
  value_bytes (array_value vs) = items_bytes vs
  value_bytes (record_value fs) = fields_bytes fs
  value_bytes v = 0

  pub items_bytes : Items → ℕ
  items_bytes nil = 0
  items_bytes (cons v vs) = value_bytes v + items_bytes vs

  pub fields_bytes : Fields → ℕ
  fields_bytes end = 0
  fields_bytes (field key v fs) = byte_length key + (value_bytes v + fields_bytes fs)
