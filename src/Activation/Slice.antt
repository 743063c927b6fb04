-- ===== src/Activation/Slice.antt =====
-- What a compiled slice holds: candidates in their order, within the budgets, and all of them where
-- the slice does not say that it was cut.
use attunegraph.Common.{
  ltb-false→le, ℕ, zero, suc, ◌≤◌, ◌<◌, ◌≡◌, refl, ap, sym, ◌∙◌, Bool, true, false, ◌&&◌, ◌||◌, not,
  List, [], ◌∷◌, ◌++◌, ◌==◌, leb, ltb, Text, Sign, arith, length, length-append, take, sort, ok,
  err, Bool-cases, inl, inr, leb-false→lt, ltb→lt, ◌⊎◌,
}
use mathlib.Core.List.{append_assoc, append-nil}
use attunegraph.Common.Subsequences.{
  IsSubsequence, nil, IsSubsequence-append, IsSubsequence-concat, IsSubsequence-take,
}
use attunegraph.Graph.Types.{
  Assertion, TraversalResult, ActivationConflict, ActivationSubgraph, ActivationInput,
}
use attunegraph.Validation.{invalid_query}
use attunegraph.Activation.Conflicts.{compare_activation, detect_conflicts}
use attunegraph.Activation.Output.{TraversalStats, reasons, unsettled_output, build_output}
use attunegraph.Activation.{
  Selection, select_candidates, shrink, stats_of, nothing_selected, compile_slice,
}

length-take : (n : ℕ) (l : List Assertion) → length (take n l) ≤ length l
length-take zero l = omega arith
length-take (suc n) [] = omega arith
length-take (suc n) (x ∷ l) = omega (arith, length-take n l)

length_zero : (l : List Assertion) → length l ≡ 0 → l ≡ []
length_zero [] e = refl
length_zero (x ∷ l) e = absurd (omega (arith, e))

reasons_lem : (a b c : Bool) → not (length (reasons a b c) == 0) ≡ (a || (b || c))
unfolding reasons
reasons_lem a b c = ground arith

-- What the selection has after the candidates `seen`.
record IsSelection (input : ActivationInput) (seen : List Assertion) (s : Selection) : Type 0 where
  pub chosen : IsSubsequence s.selected seen
  pub few : length s.selected ≤ input.budget.max_assertions
  pub complete : (s.assertion_cut || s.token_cut) ≡ false → s.selected ≡ seen

module _ (locale_compare : Text → Text → Sign) (input : ActivationInput)
    (conflicts : List ActivationConflict) (stats : TraversalStats) where
  select_candidates-IsSelection :
      (seen rest : List Assertion) (s : Selection)
      → s.assertion_cut ≡ false
      → IsSelection input seen s
      → IsSelection input
          (seen ++ rest)
          (select_candidates locale_compare input conflicts stats rest s)
  unfolding select_candidates
  select_candidates-IsSelection seen [] s open_ h = rw append-nil h
  select_candidates-IsSelection seen (a ∷ rest) s open_ h =
      let out =
        build_output locale_compare input (s.selected ++ a ∷ []) conflicts stats s.assertion_cut
          false in
      let regroup : (seen ++ a ∷ []) ++ rest ≡ seen ++ a ∷ rest = append_assoc seen (a ∷ []) rest in
      elim (Bool-cases (leb input.budget.max_assertions (length s.selected))) [
        | inl full ↦ rw full (record {
          chosen = IsSubsequence-append (a ∷ rest) h.chosen;
          few = h.few;
          complete = λ e. absurd (cc);
        })
        | inr room ↦
            elim (Bool-cases
              (ltb input.budget.max_estimated_tokens out.diagnostics.estimated_tokens)) [
                | inl large ↦
                    let next =
                      select_candidates-IsSelection (seen ++ a ∷ []) rest
                        (record s { token_cut = true }) open_
                        (record {
                          chosen = IsSubsequence-append (a ∷ []) h.chosen;
                          few = h.few;
                          complete = λ e. absurd (ground (arith, open_));
                        }) in
                    rw (room, large) (rw regroup at next)
                | inr fits ↦
                    let free = leb-false→lt input.budget.max_assertions (length s.selected) room in
                    let next =
                      select_candidates-IsSelection (seen ++ a ∷ []) rest
                        (record s { selected = s.selected ++ a ∷ [] }) open_
                        (record {
                          chosen = IsSubsequence-concat a h.chosen;
                          few = omega (arith, free, length-append s.selected (a ∷ []));
                          complete = λ e. ap (λ l. l ++ a ∷ []) (h.complete e);
                        }) in
                    rw (room, fits) (rw regroup at next)
              ]
      ]

  -- What holds of the first output and of each shorter one holds of the last.
  shrink_rule :
      (P : ActivationSubgraph → Type 0) (s : Selection) (left : ℕ) (out : ActivationSubgraph)
      → P out
      → ((n : ℕ)
          → P (
              build_output locale_compare input
                (take n s.selected)
                conflicts
                stats
                s.assertion_cut
                true))
      → P (shrink locale_compare input conflicts stats s left out)
  unfolding shrink
  shrink_rule P s zero out p q = p
  shrink_rule P s (suc left) out p q =
      elim (Bool-cases (ltb input.budget.max_estimated_tokens out.diagnostics.estimated_tokens)) [
        | inl large ↦ rw large (
            shrink_rule P s left
              (build_output locale_compare input (take left s.selected) conflicts stats
                s.assertion_cut true)
              (q left) q)
        | inr fits ↦ rw fits p
      ]

  -- The output without an assertion.
  abbrev pub bare : Bool → Bool → ActivationSubgraph
  bare = build_output locale_compare input [] conflicts stats

  abbrev IsBare : ActivationSubgraph → Type 0
  IsBare out = (assertion_cut token_cut : Bool) × (out ≡ bare assertion_cut token_cut)

  -- The last output exceeds the budget only if it has no assertion left.
  shrink-IsBare :
      (s : Selection) (left : ℕ) (out : ActivationSubgraph)
      → (left ≡ 0 → IsBare out)
      → ltb input.budget.max_estimated_tokens
          (shrink locale_compare input conflicts stats s left out).diagnostics.estimated_tokens
        ≡ true
      → IsBare (shrink locale_compare input conflicts stats s left out)
  unfolding shrink
  shrink-IsBare s zero out first large = first refl
  shrink-IsBare s (suc left) out first large =
      elim (Bool-cases (ltb input.budget.max_estimated_tokens out.diagnostics.estimated_tokens)) [
        | inl exceeds ↦
            let large = rw exceeds at large in
            rw exceeds (
              shrink-IsBare s left
                (build_output locale_compare input (take left s.selected) conflicts stats
                  s.assertion_cut true)
                (λ e. (s.assertion_cut, true, rw e refl)) large)
        | inr fits ↦ absurd (let h = rw fits at large in cc)
      ]

-- What a client gets for a traversal.
pub record IsSlice (locale_compare : Text → Text → Sign) (input : ActivationInput)
    (traversal : TraversalResult) (out : ActivationSubgraph) : Type 0 where
  pub chosen :
      IsSubsequence out.assertions (sort (compare_activation locale_compare) traversal.assertions)
  pub few : length out.assertions ≤ input.budget.max_assertions
  pub conflicts :
      out.conflicts
      ≡ detect_conflicts locale_compare
          (sort (compare_activation locale_compare) traversal.assertions)
  pub counted : out.diagnostics.selected_assertions ≡ length out.assertions
  pub complete :
      out.truncated ≡ false
      → (out.assertions ≡ sort (compare_activation locale_compare) traversal.assertions)
        × (traversal.truncated ≡ false)

module _ (locale_compare : Text → Text → Sign) (input : ActivationInput)
    (traversal : TraversalResult) where
  abbrev pub candidates : List Assertion
  candidates = sort (compare_activation locale_compare) traversal.assertions

  build_output-IsSlice :
      (assertions : List Assertion) (assertion_cut token_cut : Bool)
      → IsSubsequence assertions candidates
      → length assertions ≤ input.budget.max_assertions
      → ((assertion_cut || (token_cut || traversal.truncated)) ≡ false → assertions ≡ candidates)
      → IsSlice locale_compare input traversal (
          build_output locale_compare input assertions
            (detect_conflicts locale_compare candidates)
            (stats_of locale_compare traversal)
            assertion_cut
            token_cut)
  unfolding build_output unsettled_output
  build_output-IsSlice assertions assertion_cut token_cut sub few all = record {
    chosen = sub;
    few = few;
    conflicts = refl;
    counted = refl;
    complete = λ e.
        let none_given = sym (reasons_lem assertion_cut token_cut traversal.truncated) ∙ e in
        (all none_given, ground arith);
  }

  abbrev pub IsTooLarge : Bool → Bool → Type 0
  IsTooLarge assertion_cut token_cut =
      let out =
        build_output locale_compare input [] (detect_conflicts locale_compare candidates)
          (stats_of locale_compare traversal) assertion_cut token_cut in
      input.budget.max_estimated_tokens < out.diagnostics.estimated_tokens

  -- The slice that a compilation gives, which fits both budgets.
  abbrev pub Compiled : Type 0
  Compiled =
      (out : ActivationSubgraph) × (compile_slice locale_compare input traversal ≡ ok out)
      × IsSlice locale_compare input traversal out
      × (out.diagnostics.estimated_tokens ≤ input.budget.max_estimated_tokens)

  -- A refusal, with an output without assertions that exceeds the budget of tokens.
  abbrev pub Refused : Type 0
  Refused =
      (compile_slice locale_compare input traversal ≡ err invalid_query)
      × (assertion_cut token_cut : Bool) × IsTooLarge assertion_cut token_cut

  -- Compiling a slice from a traversal, for a normalized input, gives an output that fits both
  -- budgets, or refuses the input because an output without any assertion exceeds the budget of
  -- tokens. An output holds candidates in the order of their priority; it reports the conflicts of
  -- all candidates, also of those that it leaves out; and unless it says that it was cut, it holds
  -- every candidate and the traversal was not cut either.
  pub compile_slice-IsSlice : Compiled ⊎ Refused
  unfolding compile_slice
  compile_slice-IsSlice =
      let conflicts = detect_conflicts locale_compare candidates in
      let stats = stats_of locale_compare traversal in
      let s = select_candidates locale_compare input conflicts stats candidates nothing_selected in
      let sel =
        select_candidates-IsSelection locale_compare input conflicts stats [] candidates
          nothing_selected refl
          (record { chosen = nil; few = omega arith; complete = λ e. refl }) in
      let cut =
        s.assertion_cut || (ltb (length s.selected) (length candidates) && not s.token_cut) in
      let first = build_output locale_compare input s.selected conflicts stats cut s.token_cut in
      let last = shrink locale_compare input conflicts stats s (length s.selected) first in
      let slice : IsSlice locale_compare input traversal last =
        shrink_rule locale_compare input conflicts stats (IsSlice locale_compare input traversal) s
          (length s.selected) first
          (build_output-IsSlice s.selected cut s.token_cut sel.chosen sel.few
            (λ e. sel.complete (ground arith)))
          (λ n.
            build_output-IsSlice (take n s.selected) s.assertion_cut true
              (IsSubsequence-take n sel.chosen) (omega (arith, length-take n s.selected, sel.few))
              (λ e. absurd (ground arith))) in
      elim (Bool-cases (ltb input.budget.max_estimated_tokens last.diagnostics.estimated_tokens)) [
        | inl large ↦
            let bare =
              shrink-IsBare locale_compare input conflicts stats s (length s.selected) first
                (λ e. (
                  cut,
                  s.token_cut,
                  ap (λ l. build_output locale_compare input l conflicts stats cut s.token_cut)
                      (length_zero s.selected e),
                ))
                large in
            inr (
              rw large refl,
              bare.0,
              bare.1,
              let exceeds =
                    ltb→lt input.budget.max_estimated_tokens last.diagnostics.estimated_tokens
                      large in
                  rw bare.2 at exceeds,
            )
        | inr fits ↦ inl (
          last,
          rw fits refl,
          slice,
          ltb-false→le input.budget.max_estimated_tokens last.diagnostics.estimated_tokens fits,
        )
      ]
