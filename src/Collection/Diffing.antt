-- ===== src/Collection/Diffing.antt =====
-- What a diff of a keyed collection reports, against the two snapshots.
use agent_monitors.Prelude.{
  ◌≡◌, refl, sym, ◌↔◌, inl, inr, ◌⊎◌, false, Option, none, some, List, [], ◌∷◌, Text, text_eq_refl,
  arith, In, if◌then◌else◌, is_none,
}
use agent_monitors.Json.{Json, Elements, Fields, no_fields, get_own, keys, stringify}
use agent_monitors.Collection.{
  ChangeKind, created, modified, Outcome, ok, err, CollectionError, KeyedCollectionConfig,
  KeyedObservation, KeyedCollectionResult, collect, change_of, descoped_of, emit_all, changes,
  is_changed, observation, diff_keyed_collection, resolve_dotted_path, elements_of,
}
use agent_monitors.Collection.Reports.{ok_injective, get-keys, kind_between, changes_iff}

pub Outcome-cases :
    {A : Type 0} (o : Outcome A) → ((a : A) × (o ≡ ok a)) ⊎ ((e : CollectionError) × (o ≡ err e))
Outcome-cases (ok a) = inl (a, refl)
Outcome-cases (err e) = inr (e, refl)

ok-err : {A : Type 0} {a : A} {e : CollectionError} → err e ≡ ok a → ⊥
ok-err h = cc

module _ (graphemes : Text → List Text) (output : Json) (config : KeyedCollectionConfig)
    (monitor : Text) (display : Text) where
  -- A diff that succeeds has found and collected the elements.
  pub record Parts (previous : Option Fields) (r : KeyedCollectionResult) : Type 0 where
    pub elements : Elements
    pub current : Fields
    pub found : Option Json
    pub resolved : resolve_dotted_path output config.path ≡ ok found
    pub selected : elements_of found ≡ ok elements
    pub collected : collect config elements no_fields ≡ ok current
    pub result : r ≡ record {
      observations = changes graphemes monitor display previous current;
      snapshot = current;
    }

  pub diff-Parts :
      (previous : Option Fields) {r : KeyedCollectionResult}
      → diff_keyed_collection graphemes output config monitor previous display ≡ ok r
      → Parts previous r
  unfolding diff_keyed_collection
  diff-Parts previous {r} h = elim (Outcome-cases (resolve_dotted_path output config.path)) [
    | inr (e, q) ↦ absurd (ok-err (rw q at h))
    | inl (found, q) ↦ elim (Outcome-cases (elements_of found)) [
      | inr (e, n) ↦ absurd (ok-err (rw (q, n) at h))
      | inl (es, n) ↦ elim (Outcome-cases (collect config es no_fields)) [
        | inr (e, c) ↦ absurd (ok-err (rw (q, n, c) at h))
        | inl (current, c) ↦ record {
          elements = es;
          current = current;
          found = found;
          resolved = q;
          selected = n;
          collected = c;
          result = sym (ok_injective (rw (q, n, c) at h));
        }
      ]
    ]
  ]

  -- A diff against a previous snapshot that succeeds reports exactly the keys whose values differ
  -- between the previous snapshot and the one that it returns: created, descoped, or modified if
  -- the two values print differently.
  pub diff_reports :
      (previous : Fields) {r : KeyedCollectionResult}
      → diff_keyed_collection graphemes output config monitor (some previous) display ≡ ok r
      → (o : KeyedObservation)
      → In o r.observations ↔ (
          (k : Text) × (kind : ChangeKind) × (o ≡ observation graphemes monitor display kind k)
          × (kind_between (get_own k previous) (get_own k r.snapshot) ≡ some kind))
  diff_reports previous {r} h o =
      let parts = diff-Parts (some previous) h in
      rw parts.result (changes_iff graphemes monitor display previous parts.current o)

  no_change :
      (current : Fields) (ks : List Text)
      → ((k : Text) → In k ks → is_none (get_own k current) ≡ false)
      → emit_all graphemes monitor display (change_of current current) ks ≡ []
  unfolding emit_all
  no_change current [] h = refl
  no_change current (k ∷ ks) h =
      rw (same_value (get_own k current) (h k (inl refl)), emit_all)
        (no_change current ks (λ j i. h j (inr i)))
    where
      same_value :
          (v : Option Json)
          → is_none v ≡ false
          → (if is_none v then some created else if is_changed v v then some modified else none)
            ≡ none
      same_value none n = ground arith
      same_value (some v) n = ground (arith, text_eq_refl (stringify v))

  none_descoped :
      (current : Fields) (ks : List Text)
      → ((k : Text) → In k ks → is_none (get_own k current) ≡ false)
      → emit_all graphemes monitor display (descoped_of current) ks ≡ []
  unfolding emit_all
  none_descoped current [] h = refl
  none_descoped current (k ∷ ks) h =
      rw (h k (inl refl), emit_all) (none_descoped current ks (λ j i. h j (inr i)))

  no_changes : (current : Fields) → changes graphemes monitor display (some current) current ≡ []
  unfolding changes
  no_changes current =
      rw
        (
          no_change current (keys current) (λ k i. get-keys k current i),
          none_descoped current (keys current) (λ k i. get-keys k current i),
        )
        refl

  same-snapshot :
      (elements : Elements) (current : Fields) (found : Option Json)
      → resolve_dotted_path output config.path ≡ ok found
      → elements_of found ≡ ok elements
      → collect config elements no_fields ≡ ok current
      → diff_keyed_collection graphemes output config monitor (some current) display
        ≡ ok record { observations = []; snapshot = current }
  unfolding diff_keyed_collection
  same-snapshot es current found q n c = rw (q, n, c, no_changes current) refl

  -- After a diff that succeeds, a diff of the same output against the snapshot that it returned
  -- succeeds, reports nothing and returns that snapshot.
  pub diff_settles :
      (previous : Option Fields) {r : KeyedCollectionResult}
      → diff_keyed_collection graphemes output config monitor previous display ≡ ok r
      → diff_keyed_collection graphemes output config monitor (some r.snapshot) display
        ≡ ok record { observations = []; snapshot = r.snapshot }
  diff_settles previous h =
      let p = diff-Parts previous h in
      rw p.result (same-snapshot p.elements p.current p.found p.resolved p.selected p.collected)
