-- ===== src/Graph/Instant.antt =====
-- Canonical ISO instants: `canonicalInstant` and `instantEpoch` of src/validation.ts, with what
-- `Date` does on them. `new Date(text).toISOString() === text` holds of the texts
-- `YYYY-MM-DDTHH:mm:ss.sssZ` and `±YYYYYY-MM-DDTHH:mm:ss.sssZ` (years outside 0 to 9999) that name
-- a date of the proleptic Gregorian calendar within 100,000,000 days of 1970.
-- An epoch is counted in milliseconds from the year -280000, so that it is a natural number: the
-- sources only compare epochs.
use attunegraph.Common.{
  ℕ, zero, suc, ◌+◌, ◌-◌, ◌*◌, ◌/◌, ◌%◌, Bool, true, false, ◌&&◌, ◌||◌, not, Option, none, some, [],
  ◌∷◌, ltb, leb, ◌==◌, if◌then◌else◌, Text, codes, ◌≡◌, refl,
}

infixl 5 ◌>>=◌ ◌>>◌
abbrev ◌>>=◌ : {A B : Type 0} → Option A → (A → Option B) → Option B
none >>= f = none
some a >>= f = f a

abbrev ◌>>◌ : {B : Type 0} → Option (Unit {0}) → Option B → Option B
m >> k = m >>= λ _. k

abbrev check : Bool → Option (Unit {0})
check true = some tt
check false = none

-- A number of so many digits, and what follows it.
number : ℕ → ℕ → Text → Option (ℕ × Text)
number zero value s = some (value, s)
number (suc n) value [] = none
number (suc n) value (c ∷ s) =
    let rest = number n (value * 10 + (c - 48)) s in if leb b'0' c && leb c b'9' then rest else none

mark : ℕ → Text → Option Text
mark c [] = none
mark c (d ∷ s) = if d == c then some s else none

abbrev year_zero : ℕ
year_zero = 280_000

signed_year : Bool → ℕ → Option ℕ
signed_year ahead y =
    if ahead
    then (if leb 10_000 y then some (year_zero + y) else none)
    else (if y == 0 then none else some (year_zero - y))

-- The year, counted from `year_zero` years before the year 0.
year_field : Text → Option (ℕ × Text)
unfolding number signed_year
year_field [] = none
year_field (c ∷ s) =
    if c == b'+' || c == b'-'
    then (do (y, rest) ← number 6 0 s; y' ← signed_year (c == b'+') y; some (y', rest))
    else (do (y, rest) ← number 4 0 (c ∷ s); some (year_zero + y, rest))

is_leap : ℕ → Bool
is_leap y = (y % 4 == 0) && (not (y % 100 == 0) || (y % 400 == 0))

days_in_month : ℕ → ℕ → ℕ
days_in_month y m =
    if m == 2
    then (if is_leap y then 29 else 28)
    else if m == 4 || m == 6 || m == 9 || m == 11
    then 30
    else 31

day_number : ℕ → ℕ → ℕ → ℕ
day_number y m d =
    let y' : ℕ = if leb m 2 then y - 1 else y in
    let m' : ℕ = if leb m 2 then m + 9 else m - 3 in
    365 * y' + y' / 4 - y' / 100 + y' / 400 + (153 * m' + 2) / 5 + d

day_ms : ℕ
day_ms = 86_400_000

-- The instant of 1970.
epoch_zero : ℕ
unfolding day_number day_ms
epoch_zero = day_number (year_zero + 1970) 1 1 * day_ms

max_time : ℕ
max_time = 8_640_000_000_000_000

in_range : ℕ → Bool
in_range t = leb t (epoch_zero + max_time) && leb epoch_zero (t + max_time)

-- The epoch of a canonical instant; `none` is any other text.
unfoldable pub parse_instant : Text → Option ℕ
unfolding year_field mark number is_leap days_in_month day_number day_ms epoch_zero max_time
    in_range
parse_instant text = do
  (y, s1) ← year_field text
  s2 ← mark b'-' s1
  (m, s3) ← number 2 0 s2
  s4 ← mark b'-' s3
  (d, s5) ← number 2 0 s4
  s6 ← mark b'T' s5
  (hh, s7) ← number 2 0 s6
  s8 ← mark b':' s7
  (mm, s9) ← number 2 0 s8
  s10 ← mark b':' s9
  (ss, s11) ← number 2 0 s10
  s12 ← mark b'.' s11
  (ms, s13) ← number 3 0 s12
  s14 ← mark b'Z' s13
  check (elim s14 [ [] ↦ true | _ ↦ false ])
  check (leb 1 m && leb m 12 && leb 1 d && leb d (days_in_month y m))
  check (ltb hh 24 && ltb mm 60 && ltb ss 60)
  let t = day_number y m d * day_ms + ((hh * 60 + mm) * 60 + ss) * 1000 + ms
  check (in_range t)
  some t

-- `instantEpoch(text)`, of a text that `canonicalInstant` has admitted.
unfoldable pub instant_epoch : Text → ℕ
unfolding parse_instant
instant_epoch text = elim (parse_instant text) [ none ↦ 0 | some t ↦ t ]

instant_epoch_test :
    instant_epoch (codes "2026-07-31T09:00:00.000Z")
      - instant_epoch (codes "1970-01-01T00:00:00.000Z")
    ≡ 1785488400000
unfolding instant_epoch
instant_epoch_test = refl

leap_day_test :
    (parse_instant (codes "2023-02-29T00:00:00.000Z") ≡ none)
    × (parse_instant (codes "2024-02-29T00:00:00.00Z") ≡ none)
    × (parse_instant (codes "+275760-09-13T00:00:00.001Z") ≡ none)
unfolding parse_instant
leap_day_test = (refl, refl, refl)
