-- ===== src/Envelope/Values.antt =====
-- src/canonical-immutable-envelope.ts: the values that are inspected, those that the inspection
-- detaches from them, and how a number is written (`JSON.stringify`).
use attunegraph.Common.{
  ℕ, zero, suc, Bool, true, false, List, [], ◌∷◌, ◌++◌, ltb, if◌then◌else◌, Text, codes, take, drop,
}
use attunegraph.Json.Print.{number}

-- A number. One that is not whole is given by the digits of its shortest decimal form and by how
-- many of them stand in front of the point, or how many zeros stand between the point and them.
pub data Number : Type 0 where
  not_a_number minus_zero : Number
  infinite : Bool → Number
  natural : ℕ → Number
  -- Less than zero by one more than the argument.
  negative : ℕ → Number
  mixed : Bool → ℕ → ℕ → Number
  small : Bool → ℕ → ℕ → Number

mutual
  -- `DetachedValue`
  pub data Value : Type 0 where
    null_value : Value
    boolean_value : Bool → Value
    number_value : Number → Value
    string_value : Text → Value
    array_value : Items → Value
    record_value : Fields → Value

  pub data Items : Type 0 where
    nil : Items
    cons : Value → Items → Items

  pub data Fields : Type 0 where
    end : Fields
    field : Text → Value → Fields → Fields

-- `CanonicalImmutableEnvelopeProfile`: how an object and its properties are expected to be, and how
-- those of one input are: extensible with writable properties, or frozen.
pub data Profile : Type 0 where
  external_mutable attunegraph_frozen : Profile

-- What `isProxy` and the brand predicates tell.
pub data Brand : Type 0 where
  plain proxy branded : Brand

-- `Array.prototype` of an array and `Object.prototype` of another object are standard.
pub data Prototype : Type 0 where
  standard absent foreign : Prototype

pub record Container : Type 0 where
  pub brand : Brand
  pub prototype : Prototype
  pub profile : Profile

mutual
  -- An input, as reflection sees it. Each of its objects is reached once.
  pub data Input : Type 0 where
    null_input other_input : Input
    boolean_input : Bool → Input
    number_input : Number → Input
    string_input : Text → Input
    array_input : Container → Elements → Input
    record_input : Container → Entries → Input

  pub data Elements : Type 0 where
    last : Elements
    element : Input → Elements → Elements

  pub data Entries : Type 0 where
    none_left : Entries
    entry : Text → Input → Entries → Entries

unfoldable pub element_count : Elements → ℕ
element_count last = 0
element_count (element v vs) = suc (element_count vs)

-- `Reflect.ownKeys(record)`
unfoldable pub entry_keys : Entries → List Text
entry_keys none_left = []
entry_keys (entry k v es) = k ∷ entry_keys es

-- `defineDetachedField(record, key, value)` of a key that the record does not have.
unfoldable pub define_field : Fields → Text → Value → Fields
define_field end k v = field k v end
define_field (field j w fs) k v = field j w (define_field fs k v)

unfoldable pub repeat : ℕ → ℕ → Text
repeat c zero = []
repeat c (suc n) = c ∷ repeat c n

unfoldable pub minus_sign : Bool → Text
minus_sign true = b'-' ∷ []
minus_sign false = []

unfoldable pub after_point : Text → Text
after_point [] = []
after_point (c ∷ s) = b'.' ∷ c ∷ s

-- The first digit, the others behind a point, and the exponent.
unfoldable pub exponential : Text → ℕ → Text
unfolding after_point
exponential [] e = []
exponential (c ∷ s) e = c ∷ (after_point s ++ b'e' ∷ b'-' ∷ number e)

-- `JSON.stringify(number)`
unfoldable pub number_text : Number → Text
unfolding repeat minus_sign exponential after_point
number_text not_a_number = codes "null"
number_text (infinite below) = codes "null"
number_text minus_zero = codes "0"
number_text (natural n) = number n
number_text (negative n) = b'-' ∷ number (suc n)
number_text (mixed below digits point) =
    minus_sign below ++ (take point (number digits) ++ b'.' ∷ drop point (number digits))
number_text (small below digits gap) =
    minus_sign below
    ++ (if ltb gap 6
        then b'0' ∷ b'.' ∷ (repeat b'0' gap ++ number digits)
        else exponential (number digits) (suc gap))
