-- ===== src/Envelope/Charged.antt =====
-- What an inspection charges for one string, object or property, and the states that it goes through.
use attunegraph.Common.{
  ℕ, suc, ◌+◌, ◌≤◌, ◌≡◌, refl, ap, ◌∙◌, Bool, true, false, ◌&&◌, none, some, List, ltb, leb, length,
  Text, arith, Bool-cases, inl, inr, ok, ◌>>=◌, >>=-eq-ok,
}
use attunegraph.Json.Print.{byte_length}
use attunegraph.Decision.{is_paired}
use attunegraph.Envelope.Values.{
  Container, Elements, last, element, Entries, none_left, entry, element_count, entry_keys,
}
use attunegraph.Envelope.Contract.{
  max_descriptors, max_string_code_units, max_string_bytes, max_aggregate_string_bytes,
}
use attunegraph.Envelope.Charges.{
  Options, State, count_bytes, charge_bytes, charge_descriptors, validate_and_charge_string, enter,
  open_record, admit_container, charge_id, check_root,
}
use attunegraph.Envelope.Measure.{count_bytes_lem}
use attunegraph.Envelope.Detached.{
  detached, detached_elements, detached_entries, string_fits, items_count, fields_count,
}

-- One state with the charges of `d` properties and `b` bytes is the other.
pub record Charged (s : State) (d b : ℕ) (t : State) : Type 0 where
  pub descriptors : t.descriptors ≡ s.descriptors + d
  pub bytes : t.aggregate_string_bytes ≡ s.aggregate_string_bytes + b
  pub supplied : t.supplied_id ≡ s.supplied_id

pub record IsWithin (s : State) : Type 0 where
  pub descriptors : s.descriptors ≤ max_descriptors
  pub bytes : s.aggregate_string_bytes ≤ max_aggregate_string_bytes

pub Charged-refl : (s : State) → Charged s 0 0 s
Charged-refl s = record { descriptors = omega arith; bytes = omega arith; supplied = refl }

pub Charged-trans :
    {s t u : State} {d e b c : ℕ} → Charged s d b t → Charged t e c u → Charged s (d + e) (b + c) u
Charged-trans h k = record {
  descriptors = omega (arith, h.descriptors, k.descriptors);
  bytes = omega (arith, h.bytes, k.bytes);
  supplied = k.supplied ∙ h.supplied;
}

pub Charged-as : {s t : State} {d e b c : ℕ} → d ≡ e → b ≡ c → Charged s d b t → Charged s e c t
Charged-as p q h = record {
  descriptors = omega (arith, h.descriptors, p);
  bytes = omega (arith, h.bytes, q);
  supplied = h.supplied;
}

abbrev pub Stays : State → State → Type 0
Stays s t = IsWithin s → IsWithin t

pub charge_descriptors-Charged :
    (s t : State) (amount : ℕ) (path : Text)
    → charge_descriptors s amount path ≡ ok t
    → Charged s amount 0 t × Stays s t
unfolding charge_descriptors
charge_descriptors-Charged s t amount path h =
    elim (Bool-cases (ltb max_descriptors (s.descriptors + amount))) [
      | inl over ↦ absurd (ground arith)
      | inr within ↦
          let e : record s { descriptors = s.descriptors + amount } ≡ t = ground arith in
          rw (← e) (
            record { descriptors = refl; bytes = omega arith; supplied = refl },
            λ w. record { descriptors = ground arith; bytes = w.bytes },
          )
    ]

pub charge_bytes-Charged :
    (bytes : ℕ) (s t : State) (path : Text)
    → charge_bytes (some bytes) s path ≡ ok t
    → (bytes ≤ max_string_bytes) × (Charged s 0 bytes t × Stays s t)
unfolding charge_bytes
charge_bytes-Charged bytes s t path h = elim (Bool-cases (ltb max_string_bytes bytes)) [
  | inl long ↦ absurd (ground arith)
  | inr short ↦
      elim (Bool-cases (ltb max_aggregate_string_bytes (s.aggregate_string_bytes + bytes))) [
        | inl over ↦ absurd (ground arith)
        | inr within ↦
            let e : record s { aggregate_string_bytes = s.aggregate_string_bytes + bytes } ≡ t =
              ground arith in
            rw (← e) (
              ground arith,
              (
                record { descriptors = omega arith; bytes = refl; supplied = refl },
                λ w. record { descriptors = w.descriptors; bytes = ground arith },
              ),
            )
      ]
]

pub string_fits-of :
    (value : Text)
    → ltb max_string_code_units (length value) ≡ false
    → is_paired false value ≡ true
    → byte_length value ≤ max_string_bytes
    → string_fits value ≡ true
unfolding string_fits
string_fits-of value h k l = rw k (bounded (length value) (byte_length value) h l)
  where
    bounded :
        (n m : ℕ)
        → ltb max_string_code_units n ≡ false
        → m ≤ max_string_bytes
        → (leb n max_string_code_units && true && leb m max_string_bytes) ≡ true
    bounded n m h l = ground arith

pub validate_and_charge_string-Charged :
    (value : Text) (s t : State) (path : Text)
    → validate_and_charge_string value s path ≡ ok t
    → (string_fits value ≡ true) × (Charged s 0 (byte_length value) t × Stays s t)
unfolding validate_and_charge_string string_fits charge_bytes
validate_and_charge_string-Charged value s t path h =
    elim (Bool-cases (ltb max_string_code_units (length value))) [
      | inl long ↦ absurd (ground arith)
      | inr short ↦
          let g : charge_bytes (count_bytes false value) s path ≡ ok t = rw short at h in
          elim (Bool-cases (is_paired false value)) [
            | inl paired ↦
                let r =
                  charge_bytes-Charged (byte_length value) s t path
                    (rw (count_bytes_lem value, paired) at g) in
                (string_fits-of value short paired (r.0), r.1)
            | inr alone ↦
                let e : charge_bytes none s path ≡ ok t = rw (count_bytes_lem value, alone) at g in
                absurd (cc)
          ]
    ]

pub enter-Charged :
    (o : Options) (is_array : Bool) (c : Container) (level : ℕ) (path : Text) (s t : State)
    → enter o is_array c level path s ≡ ok t
    → Charged s 1 0 t × Stays s t
unfolding enter
enter-Charged o is_array c level path s t h =
    let (done, e, g) = >>=-eq-ok (admit_container o is_array c level path) _ h in
    charge_descriptors-Charged s t 1 path g

pub open_record-Charged :
    (o : Options) (keys : List Text) (path : Text) (s t : State)
    → open_record o false keys path s ≡ ok t
    → Charged s (length keys) 0 t × Stays s t
unfolding open_record charge_id check_root
open_record-Charged o keys path s t h =
    let (r, k) = charge_descriptors-Charged s t (length keys + 0) path (last_step h) in
    (Charged-as (omega arith) refl r, k)
  where
    last_step :
        (charge_descriptors s (length keys + 0) path >>= ok) ≡ ok t
        → charge_descriptors s (length keys + 0) path ≡ ok t
    last_step g =
        let (u, e, f) = >>=-eq-ok (charge_descriptors s (length keys + 0) path) ok g in e ∙ f

pub element_count_lem : (vs : Elements) → element_count vs ≡ items_count (detached_elements vs)
unfolding element_count items_count detached
element_count_lem last = refl
element_count_lem (element v vs) = ap suc (element_count_lem vs)

pub length-entry_keys : (es : Entries) → length (entry_keys es) ≡ fields_count (detached_entries es)
unfolding entry_keys fields_count detached
length-entry_keys none_left = refl
length-entry_keys (entry key v es) = ap suc (length-entry_keys es)
