-- ===== src/Envelope/Root.antt =====
-- What the inspection of a whole envelope has detached, tested and charged.
use attunegraph.Common.{
  ℕ, zero, suc, ◌+◌, ◌≤◌, ◌≡◌, refl, ap, ◌∙◌, true, false, Option, List, [], ◌++◌, length,
  length-append, if◌then◌else◌, Text, arith, Bool-cases, inl, inr, ok, ◌>>=◌, ◌>>◌, >>=-eq-ok,
  ok-pair,
}
use attunegraph.Common.Sets.{has}
use attunegraph.Json.Print.{byte_length}
use attunegraph.Envelope.Values.{
  Fields, Container, Input, null_input, other_input, boolean_input, number_input, string_input,
  array_input, record_input, Entries, entry_keys, element_count, repeat,
}
use attunegraph.Envelope.Contract.{Spec, max_descriptors, max_aggregate_string_bytes, bounded_path}
use attunegraph.Envelope.Charges.{
  Options, State, charge_descriptors, validate_and_charge_string, validate_number, enter,
  check_root, charge_id, open_record,
}
use attunegraph.Envelope.Inspect.{
  inspect_shallow, inspect_elements, inspect_entries, inspect_value, as_body, fresh_state,
  inspect_envelope,
}
use attunegraph.Envelope.Detached.{
  detached_entries, without, fields_fit, fields_count, fields_descriptors, fields_bytes,
}
use attunegraph.Envelope.Charged.{
  Stays, charge_descriptors-Charged, validate_and_charge_string-Charged, enter-Charged,
}
use attunegraph.Envelope.RootFields.{
  length-le-byte_length, lacks, lacks-without, id_cost, root_fields,
}

-- What `open_record` charges for the root.
record Opened (o : Options) (keys : List Text) (s t : State) : Type 0 where
  descriptors :
      t.descriptors ≡ s.descriptors + (length keys + (if has o.spec.id_field keys then 0 else 1))
  bytes :
      s.aggregate_string_bytes + (if has o.spec.id_field keys then 0 else id_cost o)
      ≤ t.aggregate_string_bytes
  stays : Stays s t

length-repeat : (c n : ℕ) → length (repeat c n) ≡ n
unfolding repeat
length-repeat c zero = refl
length-repeat c (suc n) = ap suc (length-repeat c n)

charge_id-Charged :
    (o : Options) (path : Text) (s t : State)
    → charge_id o true path s ≡ ok t
    → (t.descriptors ≡ s.descriptors)
      × (s.aggregate_string_bytes + id_cost o ≤ t.aggregate_string_bytes)
      × Stays s t
unfolding charge_id
charge_id-Charged o path s t h =
    let here = bounded_path path o.spec.id_field in
    let dummy = o.spec.id_prefix ++ repeat b'0' 64 in
    let (u, e, k) = >>=-eq-ok (validate_and_charge_string o.spec.id_field s here) _ h in
    let (f1, (c1, w1)) = validate_and_charge_string-Charged o.spec.id_field s u here e in
    let (f2, (c2, w2)) = validate_and_charge_string-Charged dummy u t here k in
    let units = length-append o.spec.id_prefix (repeat b'0' 64) in
    let least = length-le-byte_length dummy in
    let zeros = length-repeat b'0' 64 in
    (
      omega (arith, c1.descriptors, c2.descriptors),
      omega (arith, c1.bytes, c2.bytes, units, least, zeros),
      λ q. w2 (w1 q),
    )

root_Opened :
    (o : Options) (keys : List Text) (path : Text) (s t : State)
    → open_record o true keys path s ≡ ok t
    → Opened o keys s t
unfolding open_record
root_Opened o keys path s t h = elim (Bool-cases (has o.spec.id_field keys)) [
  | inl present ↦
      let (u, e, k) =
        >>=-eq-ok (check_root o true true path >> charge_descriptors s (length keys + 0) path)
          (charge_id o false path) (rw present at h) in
      let (done, e1, e2) = >>=-eq-ok (check_root o true true path) _ e in
      let (c, w) = charge_descriptors-Charged s u (length keys + 0) path e2 in
      let same : u ≡ t = unchanged u k in
      rw (← same) (record {
        descriptors = rw present c.descriptors;
        bytes = rw present (omega (arith, c.bytes));
        stays = w;
      })
  | inr absent ↦
      let (u, e, k) =
        >>=-eq-ok (check_root o true false path >> charge_descriptors s (length keys + 1) path)
          (charge_id o true path) (rw absent at h) in
      let (done, e1, e2) = >>=-eq-ok (check_root o true false path) _ e in
      let (c, w) = charge_descriptors-Charged s u (length keys + 1) path e2 in
      let (kept, more, w') = charge_id-Charged o path u t k in
      record {
        descriptors = rw absent (omega (arith, c.descriptors, kept));
        bytes = rw absent (omega (arith, c.bytes, more));
        stays = λ q. w' (w q);
      }
]
  where
    unchanged : (u : State) → charge_id o false path u ≡ ok t → u ≡ t
    unchanged u k = cc

-- What is known of the body of an envelope that passes the inspection.
pub record IsBody (spec : Spec) (input : Input) (body : Fields) : Type 0 where
  pub container : Container
  pub entries : Entries
  pub is_record : input ≡ record_input container entries
  pub value : body ≡ without spec.id_field (detached_entries entries)
  pub fits : fields_fit 1 body ≡ true
  pub descriptors : fields_count body + fields_descriptors body + 2 ≤ max_descriptors
  pub bytes :
      fields_bytes body + (byte_length spec.id_field + (length spec.id_prefix + 64))
      ≤ max_aggregate_string_bytes

record_IsBody :
    (o : Options) (c : Container) (es : Entries) (body : Fields) (supplied : Option Text)
    → inspect_envelope o (record_input c es) ≡ ok (body, supplied)
    → IsBody o.spec (record_input c es) body
unfolding inspect_envelope inspect_value inspect_shallow
record_IsBody o c es body supplied h =
    let (r, e, k) = >>=-eq-ok (inspect_value o (record_input c es) 0 [] fresh_state) as_body h in
    let (r', e', k') =
      >>=-eq-ok
        (enter o false c 0 [] fresh_state
          >>= (λ entered. open_record o true (entry_keys es) [] entered)
          >>= (λ opened. inspect_entries o es true 1 [] opened))
        _ e in
    let (s2, e2, ei) =
      >>=-eq-ok
        (enter o false c 0 [] fresh_state
          >>= (λ entered. open_record o true (entry_keys es) [] entered))
        _ e' in
    let (s1, e1, ec) = >>=-eq-ok (enter o false c 0 [] fresh_state) _ e2 in
    let (c1, w1) = enter-Charged o false c 0 [] fresh_state s1 e1 in
    let b = root_Opened o (entry_keys es) [] s1 s2 ec in
    let a = root_fields o [] es s2 (r'.0) (r'.1) ei in
    let within =
      a.stays (b.stays (w1 (record { descriptors = omega arith; bytes = omega arith }))) in
    let same = (ok-pair (ap (λ x. x >>= as_body) k' ∙ k)).0 in
    rw (← same) (record {
      container = c;
      entries = es;
      is_record = refl;
      value = a.value;
      fits = a.fits;
      descriptors = elim (Bool-cases (has o.spec.id_field (entry_keys es))) [
        | inl present ↦ omega (
          arith,
          within.descriptors,
          a.descriptors,
          c1.descriptors,
          rw present at a.count,
          rw present at b.descriptors,
        )
        | inr absent ↦ omega (
          arith,
          within.descriptors,
          a.descriptors,
          c1.descriptors,
          rw absent at a.count,
          rw absent at b.descriptors,
        )
      ];
      bytes = elim (Bool-cases (has o.spec.id_field (entry_keys es))) [
        | inl present ↦ omega (arith, within.bytes, rw present at a.bytes, rw present at b.bytes)
        | inr absent ↦ omega (arith, within.bytes, rw absent at a.bytes, rw absent at b.bytes)
      ];
    })

-- An inspected envelope is a record whose body fits the limits with its id.
pub inspect_envelope-IsBody :
    (o : Options) (input : Input) (body : Fields) (supplied : Option Text)
    → inspect_envelope o input ≡ ok (body, supplied)
    → IsBody o.spec input body
unfolding inspect_envelope inspect_value inspect_shallow
inspect_envelope-IsBody o null_input body supplied h = absurd (cc)
inspect_envelope-IsBody o other_input body supplied h = absurd (cc)
inspect_envelope-IsBody o (boolean_input b) body supplied h = absurd (cc)
inspect_envelope-IsBody o (number_input n) body supplied h =
    let (r, e, k) = >>=-eq-ok (inspect_value o (number_input n) 0 [] fresh_state) as_body h in
    let (u, e', k') = >>=-eq-ok (validate_number n []) _ e in
    let never = ap (λ x. x >>= as_body) k' ∙ k in absurd (cc)
inspect_envelope-IsBody o (string_input s) body supplied h =
    let (r, e, k) = >>=-eq-ok (inspect_value o (string_input s) 0 [] fresh_state) as_body h in
    let (u, e', k') = >>=-eq-ok (validate_and_charge_string s fresh_state []) _ e in
    let never = ap (λ x. x >>= as_body) k' ∙ k in absurd (cc)
inspect_envelope-IsBody o (array_input c vs) body supplied h =
    let (r, e, k) = >>=-eq-ok (inspect_value o (array_input c vs) 0 [] fresh_state) as_body h in
    let (r', e', k') =
      >>=-eq-ok
        (enter o true c 0 [] fresh_state
          >>= (λ entered. charge_descriptors entered (element_count vs) [])
          >>= (λ charged. inspect_elements o vs 0 1 [] charged))
        _ e in
    let never = ap (λ x. x >>= as_body) k' ∙ k in absurd (cc)
inspect_envelope-IsBody o (record_input c es) body supplied h = record_IsBody o c es body supplied h

pub body_lacks :
    {spec : Spec} {input : Input} {body : Fields}
    → IsBody spec input body
    → lacks spec.id_field body ≡ true
body_lacks {spec} b = rw b.value (lacks-without spec.id_field (detached_entries b.entries))
