-- ===== src/Validation/Laws.antt =====
-- Normalization is done once: a normalized assertion is normal, and has what it was given.
use attunegraph.Common.{
  ◌≡◌, ap, true, List, [], ◌∷◌, Text, Sign, arith, sort, ok, All, ◌>>=◌, >>=-eq-ok, guard, leb,
  length,
}
use attunegraph.Common.Order.{IsOrder, sort-IsSorted, sort-sorted}
use attunegraph.Graph.Types.{Assertion}
use attunegraph.Graph.Keys.{evidence_ref_key}
use attunegraph.Validation.{
  assertion_ok, compare_evidence, normalize_assertion, normalize_all, normalize_batch,
  invalid_assertion,
}

module _ (locale_compare : Text → Text → Sign) (locale : IsOrder locale_compare) where
  compare_evidence-IsOrder : IsOrder (compare_evidence locale_compare)
  unfolding compare_evidence
  compare_evidence-IsOrder = record {
    flips = λ a b. locale.flips (evidence_ref_key a) (evidence_ref_key b);
    trans = λ a b c. locale.trans (evidence_ref_key a) (evidence_ref_key b) (evidence_ref_key c);
  }

  abbrev in_order : Assertion → Assertion
  in_order a = record a { source_refs = sort (compare_evidence locale_compare) a.source_refs }

  -- What normalization gives is accepted again, and normalizing it again changes nothing, when
  -- `localeCompare` is an order.
  pub normalize_assertion_idem :
      (a b : Assertion)
      → normalize_assertion locale_compare a ≡ ok b
      → normalize_assertion locale_compare b ≡ ok b
  unfolding normalize_assertion
  normalize_assertion_idem a b h =
      let again =
        sort-sorted (compare_evidence locale_compare)
          (sort (compare_evidence locale_compare) a.source_refs)
          (sort-IsSorted (compare_evidence locale_compare) compare_evidence-IsOrder
            a.source_refs) in
      let it : in_order a ≡ b = ground arith in
      let fine : assertion_ok (in_order a) ≡ true = ground arith in
      let same : in_order (in_order a) ≡ in_order a =
        ap (λ refs. record a { source_refs = refs }) again in
      rw (← it, same, fine)

  abbrev pub IsNormal : Assertion → Type 0
  IsNormal a = normalize_assertion locale_compare a ≡ ok a

  pub normalize_all-IsNormal :
      (inputs outputs : List Assertion)
      → normalize_all locale_compare inputs ≡ ok outputs
      → All IsNormal outputs
  unfolding normalize_all
  normalize_all-IsNormal [] outputs h = let it : [] ≡ outputs = cc in rw (← it) tt
  normalize_all-IsNormal (a ∷ inputs) outputs h =
      let (b, eb, h1) =
        >>=-eq-ok (normalize_assertion locale_compare a)
          (λ b. normalize_all locale_compare inputs >>= λ bs. ok (b ∷ bs)) h in
      let (bs, ebs, h2) = >>=-eq-ok (normalize_all locale_compare inputs) (λ bs. ok (b ∷ bs)) h1 in
      let it : b ∷ bs ≡ outputs = cc in
      rw (← it) (normalize_assertion_idem a b eb, normalize_all-IsNormal inputs bs ebs)

  -- Every assertion of a normalized batch is normal.
  pub normalize_batch-IsNormal :
      (inputs outputs : List Assertion)
      → normalize_batch locale_compare inputs ≡ ok outputs
      → All IsNormal outputs
  unfolding normalize_batch
  normalize_batch-IsNormal inputs outputs h =
      let (u, _, h1) =
        >>=-eq-ok (guard (leb (length inputs) 65_536) invalid_assertion)
          (λ _. normalize_all locale_compare inputs) h in
      normalize_all-IsNormal inputs outputs h1
