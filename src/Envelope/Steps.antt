-- ===== src/Envelope/Steps.antt =====
-- What an inspection that ends well tells of a value and of a field.
use attunegraph.Common.{
  ℕ, suc, ◌≡◌, refl, Bool, true, false, ◌&&◌, Option, none, leb, ◌==◌, Text, text_eq, arith, Result,
  ok, guard, ◌>>◌, >>=-eq-ok, guard-eq-ok, ok-pair,
}
use attunegraph.Json.Print.{byte_length}
use attunegraph.Envelope.Values.{
  Value, null_value, boolean_value, number_value, string_value, array_value, record_value, Items,
  Fields, Input, Elements, Entries, entry,
}
use attunegraph.Envelope.Contract.{
  EnvelopeError, BudgetAxis, exceeded, inspect, max_depth, bounded_path,
}
use attunegraph.Envelope.Charges.{Options, State, validate_and_charge_string, admit_field}
use attunegraph.Envelope.Inspect.{inspect_shallow, inspect_entries, define_kept}
use attunegraph.Envelope.Detached.{
  detached, detached_elements, detached_entries, string_fits, value_fits, items_fit, fields_fit,
  value_descriptors, items_descriptors, fields_descriptors, value_bytes, items_bytes, fields_bytes,
}
use attunegraph.Envelope.Charged.{Charged, Stays, validate_and_charge_string-Charged}

-- The inspection of a value below the root.
pub record Admitted (v : Input) (level : ℕ) (s : State) (w : Value) (t : State) : Type 0 where
  pub value : w ≡ detached v
  pub fits : value_fits level w ≡ true
  pub charged : Charged s (value_descriptors w) (value_bytes w) t
  pub stays : Stays s t

pub record ItemsAdmitted (vs : Elements) (level : ℕ) (s : State) (ws : Items) (t : State)
    : Type 0 where
  pub value : ws ≡ detached_elements vs
  pub fits : items_fit level ws ≡ true
  pub charged : Charged s (items_descriptors ws) (items_bytes ws) t
  pub stays : Stays s t

pub record FieldsAdmitted (es : Entries) (level : ℕ) (s : State) (fs : Fields) (t : State)
    : Type 0 where
  pub value : fs ≡ detached_entries es
  pub fits : fields_fit level fs ≡ true
  pub charged : Charged s (fields_descriptors fs) (fields_bytes fs) t
  pub stays : Stays s t

abbrev pub returning : Value × State → Result EnvelopeError (Value × State)
returning r = ok r

-- A result is what the last step returns.
pub returned :
    (v : Input) (level : ℕ) (s u : State) (x w : Value) (t : State)
    → Admitted v level s x u
    → returning (x, u) ≡ ok (w, t)
    → Admitted v level s w t
returned v level s u x w t a h = let (same, state) = ok-pair h in rw (← same, ← state) a

pub not_zero : (level : ℕ) → (suc level == 0) ≡ false
not_zero level = ground arith

pub admit_field-other :
    (o : Options) (key : Text) (child : Value) (s : State) (path : Text)
    → admit_field o false key child s path ≡ ok (none, s)
unfolding admit_field
admit_field-other o key null_value s path = refl
admit_field-other o key (boolean_value b) s path = refl
admit_field-other o key (number_value n) s path = refl
admit_field-other o key (string_value text) s path = refl
admit_field-other o key (array_value vs) s path = refl
admit_field-other o key (record_value fs) s path = refl

-- The steps of the loop over the fields at one field.
pub record Step (o : Options) (root : Bool) (key : Text) (v : Input) (es : Entries) (level : ℕ)
    (path : Text) (s : State) (fs : Fields) (t : State) : Type 0 where
  pub named : State
  pub child : Value × State
  pub admitted : Option Text × State
  pub rest : Fields × State
  pub key_fits : string_fits key ≡ true
  pub key_charged : Charged s 0 (byte_length key) named
  pub key_stays : Stays s named
  pub deep : leb level max_depth ≡ true
  pub child_is : inspect_shallow o v level (bounded_path path key) named ≡ ok child
  pub field_is :
      admit_field o
        (root && text_eq key o.spec.id_field)
        key
        (child.0)
        (child.1)
        (bounded_path path key)
      ≡ ok admitted
  pub rest_is : inspect_entries o es root level path (admitted.1) ≡ ok rest
  pub fields_are : define_kept (admitted.0) key (child.0) (rest.0) ≡ fs
  pub state_is : rest.1 ≡ t

pub inspect_entries-Step :
    (o : Options) (root : Bool) (key : Text) (v : Input) (es : Entries) (level : ℕ) (path : Text)
    (s : State) (fs : Fields) (t : State)
    → inspect_entries o (entry key v es) root level path s ≡ ok (fs, t)
    → Step o root key v es level path s fs t
unfolding inspect_entries
inspect_entries-Step o root key v es level path s fs t h =
    let here = bounded_path path key in
    let (named, e1, k1) = >>=-eq-ok (validate_and_charge_string key s here) _ h in
    let (fit, (charge, stay)) = validate_and_charge_string-Charged key s named here e1 in
    let (child, e2, k2) =
      >>=-eq-ok
        (guard (leb level max_depth) (exceeded inspect here BudgetAxis.depth level max_depth)
          >> inspect_shallow o v level here named)
        _ k1 in
    let (deep, ev) = guard-eq-ok (leb level max_depth) _ _ e2 in
    let (admitted, e3, k3) =
      >>=-eq-ok (admit_field o (root && text_eq key o.spec.id_field) key (child.0) (child.1) here) _
        k2 in
    let (rest, e4, k4) = >>=-eq-ok (inspect_entries o es root level path (admitted.1)) _ k3 in
    record {
      named = named;
      child = child;
      admitted = admitted;
      rest = rest;
      key_fits = fit;
      key_charged = charge;
      key_stays = stay;
      deep = deep;
      child_is = ev;
      field_is = e3;
      rest_is = e4;
      fields_are = (ok-pair k4).0;
      state_is = (ok-pair k4).1;
    }
