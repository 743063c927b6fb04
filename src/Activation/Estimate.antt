-- ===== src/Activation/Estimate.antt =====
-- The estimate that an output reports is that of the output itself: the eight rounds are enough.
use attunegraph.Common.{
  ℕ, zero, suc, ◌+◌, ◌/◌, ◌≤◌, ◌<◌, ◌≡◌, ◌≢◌, refl, ap, sym, ◌∙◌, Bool, true, false, List, Text,
  codes, Sign, arith, ◌==◌, Bool-cases, inl, inr, ==_iff,
}
use attunegraph.Json.Print.{number, byte_length}
use attunegraph.Json.Sizes.{
  digits_of, digits_of_small, digits_of_mono, digits_of_pos, digits_of-add_two,
  digits_of-add_digits,
}
use attunegraph.Json.Varies.{object-Varies, byte_length-Varies, number-Varies}
use attunegraph.Graph.Types.{Assertion, ActivationConflict, ActivationSubgraph, ActivationInput}
use attunegraph.Activation.Output.{
  diagnostics_fields, diagnostics_json, subgraph_fields, subgraph_json, estimate_tokens,
  with_estimate, settle_estimate, TraversalStats, unsettled_output, build_output,
}

-- Rounds of an estimate whose size depends on the digits of the estimate only.
module _ (size : ℕ → ℕ) (size_lem : (n m : ℕ) → size n + digits_of m ≡ size m + digits_of n) where
  abbrev next : ℕ → ℕ
  next n = (size n + 3) / 4

  next_same : (m n : ℕ) → digits_of m ≡ digits_of n → next m ≡ next n
  next_same m n h = let e : size m ≡ size n = omega (arith, size_lem m n, h) in rw e

  next_mono : (m n : ℕ) → digits_of m ≤ digits_of n → next m ≤ next n
  next_mono m n h = omega (arith, size_lem m n, h)

  next_step : (m n : ℕ) → digits_of n ≤ digits_of m + 1 → next n ≤ next m + 1
  next_step m n h = omega (arith, size_lem m n, h)

  -- The second estimate has one digit more than the first at most,
  second_digits : digits_of (next (next 0)) ≤ digits_of (next 0) + 1
  second_digits =
      let one = digits_of_small 0 (omega arith) in
      let pos = digits_of_pos (next 0) in
      omega (
        arith,
        digits_of-add_digits (next 0),
        digits_of_mono (next (next 0)) (next 0 + digits_of (next 0))
            (omega (arith, size_lem (next 0) 0, one, pos)),
      )

  -- and so has a third than the second.
  third_digits :
      (m n : ℕ) → next m ≡ n → digits_of n ≤ digits_of m + 1 → digits_of (next n) ≤ digits_of n + 1
  third_digits m n e h = omega (
    arith,
    digits_of_mono (next n) (n + 2) (omega (arith, next_step m n h, e)),
    digits_of-add_two n,
  )

  next_fixed : (m n : ℕ) → next m ≡ n → digits_of n ≡ digits_of m → next n ≡ n
  next_fixed m n e h = next_same n m h ∙ e

  ==_false : (m n : ℕ) → (m == n) ≡ false → m ≢ n
  ==_false m n h = λ e. absurd (ground arith)

  fourth_fixed :
      (e1 e2 e3 e4 : ℕ) → next 0 ≡ e1 → next e1 ≡ e2 → next e2 ≡ e3 → next e3 ≡ e4 → next e4 ≡ e4
  fourth_fixed e1 e2 e3 e4 h1 h2 h3 h4 =
      let one = digits_of_small 0 (omega arith) in
      let up1 : e1 ≤ e2 =
        omega (arith, next_mono 0 e1 (omega (arith, one, digits_of_pos e1)), h1, h2) in
      let up2 : e2 ≤ e3 = omega (arith, next_mono e1 e2 (digits_of_mono e1 e2 up1), h2, h3) in
      let up3 : e3 ≤ e4 = omega (arith, next_mono e2 e3 (digits_of_mono e2 e3 up2), h3, h4) in
      let second : digits_of e2 ≤ digits_of e1 + 1 = let h = rw (h1, h2) at second_digits in h in
      let third : digits_of e3 ≤ digits_of e2 + 1 =
        let h = rw h3 at (third_digits e1 e2 h2 second) in h in
      let step2 : e3 ≤ e2 + 1 = omega (arith, next_step e1 e2 second, h2, h3) in
      let step3 : e4 ≤ e3 + 1 = omega (arith, next_step e2 e3 third, h3, h4) in
      next_fixed e3 e4 h4 (elim (Bool-cases (digits_of e3 == digits_of e2)) [
        | inl same ↦
            let e = (==_iff (digits_of e3) (digits_of e2)).0 same in
            let stays : e4 ≡ e3 = omega (arith, next_same e3 e2 e, h3, h4) in ap digits_of stays
        | inr differs ↦ omega (
          arith,
          ==_false (digits_of e3) (digits_of e2) differs,
          third,
          digits_of_mono e2 e3 up2,
          digits_of_mono e3 e4 up3,
          digits_of_mono e4 (e2 + 2) (omega (arith, step2, step3)),
          digits_of-add_two e2,
        )
      ])

-- The estimate after some rounds that do not stop.
iterate : (ℕ → ℕ) → ℕ → ℕ → ℕ
iterate f zero n = n
iterate f (suc k) n = iterate f k (f n)

module _ (out : ActivationSubgraph) where
  abbrev size_of : ℕ → ℕ
  size_of n = byte_length (subgraph_json (with_estimate out n))

  abbrev estimate_of : ℕ → ℕ
  estimate_of n = estimate_tokens (subgraph_json (with_estimate out n))

  -- Only the digits of the estimate change the size.
  size_of_lem : (n m : ℕ) → size_of n + digits_of m ≡ size_of m + digits_of n
  unfolding subgraph_json diagnostics_json
  size_of_lem n m =
      byte_length-Varies (digits_of n) (digits_of m) (subgraph_json (with_estimate out n))
        (subgraph_json (with_estimate out m))
        (object-Varies (digits_of n) (digits_of m) (codes "schemaVersion", number 1)
          (subgraph_fields out) (codes "diagnostics")
          (diagnostics_json (record out.diagnostics { estimated_tokens = n }))
          (diagnostics_json (record out.diagnostics { estimated_tokens = m }))
          (object-Varies (digits_of n) (digits_of m)
            (codes "candidateAssertions", number out.diagnostics.candidate_assertions)
            (diagnostics_fields out.diagnostics) (codes "estimatedTokens") (number n) (number m)
            (number-Varies n m)))

  -- The loop ends at a fixed point where so many rounds lead to one.
  settle_estimate_fixed :
      (rounds k n : ℕ)
      → k < rounds
      → estimate_of (iterate estimate_of k n) ≡ iterate estimate_of k n
      → estimate_of (settle_estimate rounds out n) ≡ settle_estimate rounds out n
  unfolding iterate settle_estimate
  settle_estimate_fixed zero k n b h = absurd (omega (arith, b))
  settle_estimate_fixed (suc rounds) zero n b h =
      let same : (estimate_of n == n) ≡ true = (==_iff (estimate_of n) n).1 h in rw same h
  settle_estimate_fixed (suc rounds) (suc k) n b h = elim (Bool-cases (estimate_of n == n)) [
    | inl same ↦ rw same ((==_iff (estimate_of n) n).0 same)
    | inr differs ↦ rw differs (settle_estimate_fixed rounds k (estimate_of n) (omega (arith, b)) h)
  ]

  eight_rounds_fixed : estimate_of (settle_estimate 8 out 0) ≡ settle_estimate 8 out 0
  unfolding iterate estimate_tokens
  eight_rounds_fixed =
      settle_estimate_fixed 8 4 0 (omega arith)
        (fourth_fixed size_of size_of_lem _ _ _ _ refl refl refl refl)

-- What an output reports as its estimated tokens is the estimate of its own JSON text, the
-- reported number included.
pub build_output-estimate_tokens :
    (locale_compare : Text → Text → Sign) (input : ActivationInput) (assertions : List Assertion)
    (conflicts : List ActivationConflict) (stats : TraversalStats) (assertion_cut token_cut : Bool)
    → (build_output locale_compare input assertions conflicts stats assertion_cut
        token_cut).diagnostics.estimated_tokens
      ≡ estimate_tokens (
          subgraph_json
            (build_output locale_compare input assertions conflicts stats assertion_cut token_cut))
unfolding build_output
build_output-estimate_tokens locale_compare input assertions conflicts stats assertion_cut
      token_cut =
    sym (
      eight_rounds_fixed
        (unsettled_output locale_compare input assertions conflicts stats assertion_cut token_cut))
