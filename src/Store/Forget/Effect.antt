-- ===== src/Store/Forget/Effect.antt =====
-- What `forget` takes out, said of the stored assertions and not of the indexes.
use attunegraph.Common.{
  ◌≡◌, ◌≢◌, refl, ap, sym, ◌∙◌, Bool, true, false, ◌&&◌, ◌||◌, Option, none, some, List, [], ◌∷◌,
  Text, arith, text_eq, text_eq_iff, if◌then◌else◌, length, any, any-sort, select, sort,
  raw_compare, Sign, Bool-cases, Option-cases, inl, inr, ◌↔◌,
}
use attunegraph.Common.Maps.{get, keys, get-drop_key, has-keys-of_get}
use attunegraph.Common.Sets.{has, add_all, has-add_all}
use attunegraph.Common.Order.{IsOrder}
use attunegraph.Graph.Types.{GraphRef, EvidenceRef, Assertion, ForgetScope, ForgetReceipt}
use attunegraph.Graph.Constants.{assertion_source_namespace}
use attunegraph.Graph.Keys.{graph_ref_key, evidence_ref_key, evidence_base_key}
use attunegraph.Store.Index.{members}
use attunegraph.Store.Index.Of.{under}
use attunegraph.Store.State.{Store, remove_assertion}
use attunegraph.Store.Invariant.{
  IsWellFormed, IsIndexed, subject_keys, object_keys, source_keys, base_keys,
}
use attunegraph.Store.Invariant.Comparator.{compare_assertions-IsOrder}
use attunegraph.Store.Invariant.Steps.{remove_sources_lem, remove_assertion-IsWellFormed}
use attunegraph.Store.Forget.{
  seed_refs, seed_sources, matching_ids, seeds, dependents, remove_all, removed_ids, forget,
}
use attunegraph.Store.Forget.Closure.{CitesStored, Doomed, closure_lem}

-- Whether an assertion has the node as its subject or object.
abbrev pub touches : GraphRef → Option Assertion → Bool
touches ref o = under object_keys (graph_ref_key ref) o || under subject_keys (graph_ref_key ref) o

-- Whether an assertion cites the source: in this version, where the reference has one.
abbrev pub cites_source : EvidenceRef → Option Assertion → Bool
cites_source ref o = elim ref.version [
  | some (c ∷ v) ↦ under source_keys (evidence_ref_key ref) o
  | _ ↦ under base_keys (evidence_base_key ref.namespace ref.id) o
]

-- Whether the scope names the id.
abbrev pub is_named : Store → ForgetScope → Text → Bool
is_named s scope x =
    any (λ ref. cites_source ref (get x s.assertions)) scope.source_refs
    || (any (λ ref. touches ref (get x s.assertions)) scope.graph_refs || has x scope.assertion_ids)

-- The key under which an assertion is cited as a source.
abbrev pub citation_key : Text → Text
citation_key id = evidence_base_key assertion_source_namespace id

-- What `forget` must take out: what the scope names, and what cites something to be taken out.
pub data MustGo (s : Store) (scope : ForgetScope) : Text → Type 0 where
  named : {x : Text} → is_named s scope x ≡ true → MustGo s scope x
  citing :
      {x y : Text} (b : Assertion)
      → MustGo s scope x
      → x ≢ []
      → get y s.assertions ≡ some b
      → has (citation_key x) (base_keys b) ≡ true
      → MustGo s scope y

module _ (s : Store) (indexed : IsIndexed s) where
  has-seed_refs :
      (refs : List GraphRef) (removal : List Text) (x : Text)
      → has x (seed_refs s refs removal)
        ≡ (any (λ ref. touches ref (get x s.assertions)) refs || has x removal)
  unfolding seed_refs
  has-seed_refs [] removal x = refl
  has-seed_refs (ref ∷ refs) removal x =
      let out = members s.outgoing (graph_ref_key ref) in
      let into = members s.incoming (graph_ref_key ref) in
      ground (
        arith,
        has-seed_refs refs (add_all into (add_all out removal)) x,
        has-add_all x into (add_all out removal),
        has-add_all x out removal,
        indexed.outgoing.holds (graph_ref_key ref) x,
        indexed.incoming.holds (graph_ref_key ref) x,
      )

  has-matching_ids :
      (ref : EvidenceRef) (x : Text)
      → has x (matching_ids s ref) ≡ cites_source ref (get x s.assertions)
  unfolding matching_ids
  has-matching_ids ref x = ground (
    arith,
    indexed.sources.holds (evidence_ref_key ref) x,
    indexed.bases.holds (evidence_base_key ref.namespace ref.id) x,
  )

  has-seed_sources :
      (refs : List EvidenceRef) (removal : List Text) (x : Text)
      → has x (seed_sources s refs removal)
        ≡ (any (λ ref. cites_source ref (get x s.assertions)) refs || has x removal)
  unfolding seed_sources
  has-seed_sources [] removal x = refl
  has-seed_sources (ref ∷ refs) removal x = ground (
    arith,
    has-seed_sources refs (add_all (matching_ids s ref) removal) x,
    has-add_all x (matching_ids s ref) removal,
    has-matching_ids ref x,
  )

  -- The first ids are those that the scope names.
  has-seeds : (scope : ForgetScope) (x : Text) → has x (seeds s scope) ≡ is_named s scope x
  unfolding seeds
  has-seeds scope x =
      let ids = add_all scope.assertion_ids [] in
      has-seed_sources scope.source_refs (seed_refs s scope.graph_refs ids) x
      ∙ ap (λ b. any (λ ref. cites_source ref (get x s.assertions)) scope.source_refs || b)
          (has-seed_refs scope.graph_refs ids x
            ∙ ap (λ b. any (λ ref. touches ref (get x s.assertions)) scope.graph_refs || b)
                (has-add_all x scope.assertion_ids [] ∙ unfold has in ground arith))

  has-dependents :
      (x y : Text) → has y (dependents s x) ≡ under base_keys (citation_key x) (get y s.assertions)
  unfolding dependents
  has-dependents x y = indexed.bases.holds (citation_key x) y

  Doomed→MustGo : (scope : ForgetScope) {x : Text} → Doomed s (seeds s scope) x → MustGo s scope x
  Doomed→MustGo scope {x} (Doomed.named h) = MustGo.named (sym (has-seeds scope x) ∙ h)
  Doomed→MustGo scope {x = y} (Doomed.citing {x = []} d m) = absurd (unfold has in ground arith)
  Doomed→MustGo scope {x = y} (Doomed.citing {x = c ∷ x} d m) =
      let cites : under base_keys (citation_key (c ∷ x)) (get y s.assertions) ≡ true =
        sym (has-dependents (c ∷ x) y) ∙ m in
      elim (Option-cases (get y s.assertions)) [
        | inl absent ↦ absurd (ground arith)
        | inr (b, there) ↦ MustGo.citing b (Doomed→MustGo scope d) (λ e. cc) there (ground arith)
      ]

  MustGo→Doomed : (scope : ForgetScope) {x : Text} → MustGo s scope x → Doomed s (seeds s scope) x
  MustGo→Doomed scope {x} (MustGo.named h) = Doomed.named (has-seeds scope x ∙ h)
  MustGo→Doomed scope {x = y} (MustGo.citing {x = []} b d ne there cites) = absurd (ne refl)
  MustGo→Doomed scope {x = y} (MustGo.citing {x = c ∷ x} b d ne there cites) =
      Doomed.citing (MustGo→Doomed scope d) (has-dependents (c ∷ x) y ∙ ground arith)

get-remove_assertion :
    (id x : Text) (s : Store)
    → get x (remove_assertion id s).assertions ≡ (if text_eq id x then none else get x s.assertions)
unfolding remove_assertion
get-remove_assertion id x s = elim (Option-cases (get id s.assertions)) [
  | inl absent ↦ rw (absent, remove_assertion) (ground (arith, text_eq_iff id x))
  | inr (a, there) ↦
      rw (there, remove_assertion)
        (rw (remove_sources_lem a.source_refs id) (get-drop_key id x s.assertions))
]

get-remove_all :
    (ids : List Text) (x : Text) (s : Store)
    → get x (remove_all ids s).assertions ≡ (if has x ids then none else get x s.assertions)
unfolding remove_all has
get-remove_all [] x s = refl
get-remove_all (id ∷ ids) x s =
    ground (arith, get-remove_all ids x (remove_assertion id s), get-remove_assertion id x s)

has-any : (x : Text) (l : List Text) → has x l ≡ any (λ y. text_eq y x) l
unfolding has
has-any x [] = refl
has-any x (y ∷ l) = ground (arith, has-any x l)

has-select : (p : Text → Bool) (x : Text) (l : List Text) → has x (select p l) ≡ (has x l && p x)
unfolding has
has-select p x [] = refl
has-select p x (y ∷ l) = ground (arith, has-select p x l, text_eq_iff y x)

has-removed_ids :
    (s : Store) (removal : List Text) (x : Text)
    → has x (removed_ids s removal) ≡ (has x removal && has x (keys s.assertions))
unfolding removed_ids
has-removed_ids s removal x =
    let kept = select (λ id. has id (keys s.assertions)) removal in
    has-any x (sort raw_compare kept)
    ∙ any-sort (λ y. text_eq y x) raw_compare kept
    ∙ sym (has-any x kept)
    ∙ has-select (λ id. has id (keys s.assertions)) x removal

module _ (locale_compare : Text → Text → Sign) (locale : IsOrder locale_compare) where
  remove_all-IsWellFormed :
      (ids : List Text) (s : Store)
      → IsWellFormed locale_compare s
      → IsWellFormed locale_compare (remove_all ids s)
  unfolding remove_all
  remove_all-IsWellFormed [] s w = w
  remove_all-IsWellFormed (id ∷ ids) s w = remove_all-IsWellFormed ids (remove_assertion id s) (
      remove_assertion-IsWellFormed locale_compare
        (compare_assertions-IsOrder locale_compare locale) s id w)

  cites-stored : (s : Store) → IsWellFormed locale_compare s → CitesStored s
  cites-stored s w [] y m = absurd (unfold has in ground arith)
  cites-stored s w (c ∷ x) y m =
      let cites : under base_keys (citation_key (c ∷ x)) (get y s.assertions) ≡ true =
        sym (has-dependents s w.indexed (c ∷ x) y) ∙ m in
      elim (Option-cases (get y s.assertions)) [
        | inl absent ↦ absurd (ground arith)
        | inr (b, there) ↦ ap (has y) (sym w.journal) ∙ has-keys-of_get y b s.assertions there
      ]

  -- What a `forget` has done: the receipt lists exactly the stored ids that must go, those are gone,
  -- and every other assertion is as it was.
  pub record Forgotten (s : Store) (scope : ForgetScope) (receipt : ForgetReceipt) (after : Store)
      : Type 0 where
    pub listed :
        (x : Text)
        → (has x receipt.removed_assertion_ids ≡ true)
          ↔ (MustGo s scope x × (has x s.journal_ids ≡ true))
    pub counted : receipt.removed ≡ length receipt.removed_assertion_ids
    pub gone : (x : Text) → MustGo s scope x → get x after.assertions ≡ none
    pub kept : (x : Text) → ¬ MustGo s scope x → get x after.assertions ≡ get x s.assertions
    pub well_formed : IsWellFormed locale_compare after

  -- `forget` on a well-formed store always ends, and takes out exactly the stored assertions that
  -- the scope names together with everything that cites them, directly or through other
  -- assertions; the others stay as they are, and the store stays well formed, when `localeCompare`
  -- is an order.
  pub forget-Forgotten :
      (s : Store) (scope : ForgetScope)
      → IsWellFormed locale_compare s
      → (receipt : ForgetReceipt) × (after : Store) × (forget s scope ≡ some (receipt, after))
        × Forgotten s scope receipt after
  unfolding forget
  forget-Forgotten s scope w =
      let (result, done, exact) = closure_lem s (seeds s scope) (cites-stored s w) in
      let ids = removed_ids s result in
      let goes : (x : Text) → MustGo s scope x → has x result ≡ true =
        λ x m. (exact x).1 (MustGo→Doomed s w.indexed scope m) in
      let must : (x : Text) → has x result ≡ true → MustGo s scope x =
        λ x m. Doomed→MustGo s w.indexed scope ((exact x).0 m) in
      (
        record { removed = length ids; removed_assertion_ids = ids },
        remove_all ids s,
        rw (done, forget),
        record {
          listed = λ x. (
            (λ h.
                let parts : has x result && has x (keys s.assertions) ≡ true =
                  sym (has-removed_ids s result x) ∙ h in
                (must x (ground arith), ap (has x) (sym w.journal) ∙ ground arith)),
            (λ p. has-removed_ids s result x ∙ ground (arith, goes x p.0, ap (has x) w.journal)),
          );
          counted = refl;
          gone = λ x m. get-remove_all ids x s ∙ elim (Option-cases (get x s.assertions)) [
            | inl absent ↦ ground arith
            | inr (a, there) ↦
                let listed = has-removed_ids s result x in
                ground (arith, goes x m, has-keys-of_get x a s.assertions there, listed)
          ];
          kept = λ x m. get-remove_all ids x s ∙ elim (Bool-cases (has x ids)) [
            | inl listed ↦
                absurd
                  (m (must x (let e = sym (has-removed_ids s result x) ∙ listed in ground arith)))
            | inr free ↦ ground arith
          ];
          well_formed = remove_all-IsWellFormed ids s w;
        },
      )

  -- After `forget` on a well-formed store, no stored assertion cites an assertion that was taken
  -- out, when that one's id is not empty and `localeCompare` is an order.
  pub forget_no_orphans :
      (s : Store) (scope : ForgetScope) (receipt : ForgetReceipt) (after : Store)
      → IsWellFormed locale_compare s
      → forget s scope ≡ some (receipt, after)
      → (x y : Text) (b : Assertion) → x ≢ []
      → has x receipt.removed_assertion_ids ≡ true
      → get y after.assertions ≡ some b
      → has (citation_key x) (base_keys b) ≡ false
  forget_no_orphans s scope receipt after w h x y b ne removed stored =
      let (r, a, e, f) = forget-Forgotten s scope w in
      let same_r : r ≡ receipt = ground arith in
      let same_a : a ≡ after = ground arith in
      let x_goes : MustGo s scope x =
        ((f.listed x).0
          (ap (λ (q : ForgetReceipt). has x q.removed_assertion_ids) same_r ∙ removed)).0 in
      let y_there : get y a.assertions ≡ some b =
        ap (λ (q : Store). get y q.assertions) same_a ∙ stored in
      elim (Bool-cases (has (citation_key x) (base_keys b))) [
        | inr free ↦ free
        | inl cites ↦
            let y_stays : ¬ MustGo s scope y = λ m. let g = f.gone y m in ground arith in
            absurd (y_stays (MustGo.citing b x_goes ne (sym (f.kept y y_stays) ∙ y_there) cites))
      ]
