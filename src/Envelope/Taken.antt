-- ===== src/Envelope/Taken.antt =====
-- What an inspection that ends well has detached, tested and charged.
use attunegraph.Common.{
  ℕ, suc, ◌≡◌, refl, sym, ap, ◌∙◌, true, false, none, leb, ◌==◌, Text, arith, ok, guard, ◌>>=◌,
  ◌>>◌, >>=-eq-ok, guard-eq-ok, ok-pair,
}
use attunegraph.Json.Print.{number}
use attunegraph.Envelope.Values.{
  Value, null_value, boolean_value, number_value, string_value, array_value, record_value, Items,
  nil, cons, Fields, end, field, Input, null_input, other_input, boolean_input, number_input,
  string_input, array_input, record_input, Elements, last, element, Entries, none_left, entry,
  element_count, entry_keys,
}
use attunegraph.Envelope.Contract.{BudgetAxis, exceeded, inspect, max_depth, bounded_path}
use attunegraph.Envelope.Charges.{
  Options, State, charge_descriptors, validate_and_charge_string, is_supported_number,
  validate_number, enter, open_record, admit_field,
}
use attunegraph.Envelope.Inspect.{inspect_shallow, inspect_elements, inspect_entries}
use attunegraph.Envelope.Detached.{
  detached, value_fits, value_descriptors, items_count, fields_count, value_bytes,
}
use attunegraph.Envelope.Charged.{
  Charged-refl, Charged-trans, Charged-as, charge_descriptors-Charged,
  validate_and_charge_string-Charged, enter-Charged, open_record-Charged, element_count_lem,
  length-entry_keys,
}
use attunegraph.Envelope.Steps.{
  Admitted, ItemsAdmitted, FieldsAdmitted, returned, not_zero, admit_field-other,
  inspect_entries-Step,
}

module _ (o : Options) where
  mutual
    unfolding inspect_shallow inspect_elements inspect_entries validate_number detached value_fits
        value_descriptors value_bytes admit_field

    pub inspect_Admitted :
        (v : Input) (level : ℕ) (path : Text) (s : State) (w : Value) (t : State)
        → (level == 0) ≡ false
        → inspect_shallow o v level path s ≡ ok (w, t)
        → Admitted v level s w t
    inspect_Admitted null_input level path s w t p h =
        returned null_input level s s null_value w t
          (record { value = refl; fits = refl; charged = Charged-refl s; stays = λ k. k }) h
    inspect_Admitted other_input level path s w t p h = absurd (cc)
    inspect_Admitted (boolean_input b) level path s w t p h =
        returned (boolean_input b) level s s (boolean_value b) w t
          (record { value = refl; fits = refl; charged = Charged-refl s; stays = λ k. k }) h
    inspect_Admitted (number_input n) level path s w t p h =
        let (safe, k) = guard-eq-ok (is_supported_number n) _ _ h in
        returned (number_input n) level s s (number_value n) w t
          (record { value = refl; fits = safe; charged = Charged-refl s; stays = λ k. k }) k
    inspect_Admitted (string_input text) level path s w t p h =
        let (u, e, k) = >>=-eq-ok (validate_and_charge_string text s path) _ h in
        let (fit, (charge, stay)) = validate_and_charge_string-Charged text s u path e in
        returned (string_input text) level s u (string_value text) w t
          (record { value = refl; fits = fit; charged = charge; stays = stay }) k
    inspect_Admitted (array_input c vs) level path s w t p h =
        let (r, eb, k) =
          >>=-eq-ok
            (enter o true c level path s
              >>= (λ entered. charge_descriptors entered (element_count vs) path)
              >>= (λ charged. inspect_elements o vs 0 (suc level) path charged))
            _ h in
        let (s2, e2, ei) =
          >>=-eq-ok
            (enter o true c level path s
              >>= (λ entered. charge_descriptors entered (element_count vs) path))
            _ eb in
        let (s1, e1, ec) = >>=-eq-ok (enter o true c level path s) _ e2 in
        let (c1, w1) = enter-Charged o true c level path s s1 e1 in
        let (c2, w2) = charge_descriptors-Charged s1 s2 (element_count vs) path ec in
        let a = inspect_ItemsAdmitted vs 0 (suc level) path s2 (r.0) (r.1) (not_zero level) ei in
        let count = element_count_lem vs ∙ ap items_count (sym a.value) in
        returned (array_input c vs) level s (r.1) (array_value (r.0)) w t
          (record {
            value = ap array_value a.value;
            fits = a.fits;
            charged =
                Charged-as (omega (arith, count)) (omega arith)
                  (Charged-trans (Charged-trans c1 c2) a.charged);
            stays = λ q. a.stays (w2 (w1 q));
          })
          k
    inspect_Admitted (record_input c es) level path s w t p h =
        let (r, eb, k) =
          >>=-eq-ok
            (enter o false c level path s
              >>= (λ entered. open_record o (level == 0) (entry_keys es) path entered)
              >>= (λ opened. inspect_entries o es (level == 0) (suc level) path opened))
            _ h in
        let (s2, e2, ei) =
          >>=-eq-ok
            (enter o false c level path s
              >>= (λ entered. open_record o (level == 0) (entry_keys es) path entered))
            _ eb in
        let (s1, e1, ec) = >>=-eq-ok (enter o false c level path s) _ e2 in
        let (c1, w1) = enter-Charged o false c level path s s1 e1 in
        let (c2, w2) = open_record-Charged o (entry_keys es) path s1 s2 (rw p at ec) in
        let a =
          inspect_FieldsAdmitted es (suc level) path s2 (r.0) (r.1) (not_zero level) (rw p at ei) in
        let count = length-entry_keys es ∙ ap fields_count (sym a.value) in
        returned (record_input c es) level s (r.1) (record_value (r.0)) w t
          (record {
            value = ap record_value a.value;
            fits = a.fits;
            charged =
                Charged-as (omega (arith, count)) (omega arith)
                  (Charged-trans (Charged-trans c1 c2) a.charged);
            stays = λ q. a.stays (w2 (w1 q));
          })
          k

    inspect_ItemsAdmitted :
        (vs : Elements) (index level : ℕ) (path : Text) (s : State) (ws : Items) (t : State)
        → (level == 0) ≡ false
        → inspect_elements o vs index level path s ≡ ok (ws, t)
        → ItemsAdmitted vs level s ws t
    inspect_ItemsAdmitted last index level path s ws t p h =
        let same : nil ≡ ws = cc in
        let state : s ≡ t = cc in
        rw (← same, ← state)
          (record { value = refl; fits = refl; charged = Charged-refl s; stays = λ k. k })
    inspect_ItemsAdmitted (element v vs) index level path s ws t p h =
        let here = bounded_path path (number index) in
        let (first, e1, k1) =
          >>=-eq-ok
            (guard (leb level max_depth) (exceeded inspect here BudgetAxis.depth level max_depth)
              >> inspect_shallow o v level here s)
            _ h in
        let (deep, ev) = guard-eq-ok (leb level max_depth) _ _ e1 in
        let a = inspect_Admitted v level here s (first.0) (first.1) p ev in
        let (rest, e2, k2) =
          >>=-eq-ok (inspect_elements o vs (suc index) level path (first.1)) _ k1 in
        let b = inspect_ItemsAdmitted vs (suc index) level path (first.1) (rest.0) (rest.1) p e2 in
        let (same, state) = ok-pair k2 in
        rw (← same, ← state)
          (record {
            value = λ i. cons (a.value i) (b.value i);
            fits = rw (deep, a.fits) b.fits;
            charged = Charged-trans a.charged b.charged;
            stays = λ q. b.stays (a.stays q);
          })

    inspect_FieldsAdmitted :
        (es : Entries) (level : ℕ) (path : Text) (s : State) (fs : Fields) (t : State)
        → (level == 0) ≡ false
        → inspect_entries o es false level path s ≡ ok (fs, t)
        → FieldsAdmitted es level s fs t
    inspect_FieldsAdmitted none_left level path s fs t p h =
        let same : end ≡ fs = cc in
        let state : s ≡ t = cc in
        rw (← same, ← state)
          (record { value = refl; fits = refl; charged = Charged-refl s; stays = λ k. k })
    inspect_FieldsAdmitted (entry key v es) level path s fs t p h =
        let st = inspect_entries-Step o false key v es level path s fs t h in
        let a =
          inspect_Admitted v level (bounded_path path key) st.named (st.child.0) (st.child.1) p
            st.child_is in
        let other : ok (none, st.child.1) ≡ ok st.admitted =
          sym (admit_field-other o key (st.child.0) (st.child.1) (bounded_path path key))
          ∙ st.field_is in
        let (is_kept, same_state) = ok-pair other in
        let b =
          inspect_FieldsAdmitted es level path (st.child.1) (st.rest.0) (st.rest.1) p
            (rw (← same_state) at st.rest_is) in
        let same : field key (st.child.0) (st.rest.0) ≡ fs = (rw (← is_kept) at st.fields_are) in
        rw (← same, ← st.state_is)
          (record {
            value = λ i. field key (a.value i) (b.value i);
            fits = rw (st.key_fits, st.deep, a.fits) b.fits;
            charged =
                Charged-as (omega arith) refl
                  (Charged-trans st.key_charged (Charged-trans a.charged b.charged));
            stays = λ q. b.stays (a.stays (st.key_stays q));
          })
