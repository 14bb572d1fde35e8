-- ===== src/Collection/Reports.antt =====
-- What the two loops of a diff emit, against the values of a key in both snapshots.
use agent_monitors.Prelude.{
  ◌≡◌, refl, sym, ap, ◌↔◌, inl, inr, ◌⊎◌, false, Option, none, some, List, [], ◌∷◌, Text, text_eq,
  text_eq_iff, arith, In, Bool-cases, Option-cases, if◌then◌else◌, is_none,
}
use agent_monitors.Json.{Json, Fields, no_fields, field, get_own, keys, stringify}
use agent_monitors.Collection.{
  ChangeKind, created, modified, descoped, ok, KeyedObservation, change_of, descoped_of, emit_all,
  changes, is_changed, observation,
}
use agent_monitors.Store.Members.{In-of_append, In-append_left, In-append_right}

pub ok_injective : {A : Type 0} {a b : A} → ok a ≡ ok b → a ≡ b
ok_injective h = cc

-- A key has a value exactly if it is listed.
pub get-keys : (k : Text) (m : Fields) → In k (keys m) → is_none (get_own k m) ≡ false
unfolding get_own
get-keys k no_fields h = elim h [ ]
get-keys k (field j v m) (inl e) = ground (arith, text_eq_iff j k)
get-keys k (field j v m) (inr h) = ground (arith, get-keys k m h)

keys-get : (k : Text) (m : Fields) → is_none (get_own k m) ≡ false → In k (keys m)
unfolding get_own
keys-get k no_fields h = ground arith
keys-get k (field j v m) h = elim (Bool-cases (text_eq j k)) [
  | inl e ↦ inl (sym ((text_eq_iff j k).0 e))
  | inr e ↦ inr (keys-get k m (rw e at h))
]

-- What has become of a key, by its values in the previous and in the current snapshot.
pub kind_between : Option Json → Option Json → Option ChangeKind
kind_between none none = none
kind_between none (some v) = some created
kind_between (some v) none = some descoped
kind_between (some v) (some w) = if text_eq (stringify w) (stringify v) then none else some modified

module _ (graphemes : Text → List Text) (monitor display : Text) where
  In-emit :
      (kind_of : Text → Option ChangeKind) (k : Text) (kind : ChangeKind) (ks : List Text)
      → In k ks
      → kind_of k ≡ some kind
      → In
          (observation graphemes monitor display kind k)
          (emit_all graphemes monitor display kind_of ks)
  unfolding emit_all
  In-emit kind_of k kind [] h e = elim h [ ]
  In-emit kind_of k kind (j ∷ js) (inl q) e =
      let n : kind_of j ≡ some kind = rw (← q) e in
      rw (n, emit_all) (inl (ap (observation graphemes monitor display kind) q))
  In-emit kind_of k kind (j ∷ js) (inr h) e = elim (Option-cases (kind_of j)) [
    | inl n ↦ rw (n, emit_all) (In-emit kind_of k kind js h e)
    | inr (c, n) ↦ rw (n, emit_all) (inr (In-emit kind_of k kind js h e))
  ]

  In-of_emit :
      (kind_of : Text → Option ChangeKind) (o : KeyedObservation) (ks : List Text)
      → In o (emit_all graphemes monitor display kind_of ks)
      → (k : Text) × (kind : ChangeKind) × In k ks
        × (kind_of k ≡ some kind)
        × (o ≡ observation graphemes monitor display kind k)
  unfolding emit_all
  In-of_emit kind_of o [] h = elim h [ ]
  In-of_emit kind_of o (j ∷ js) h = elim (Option-cases (kind_of j)) [
    | inl n ↦
        let at : In o (emit_all graphemes monitor display kind_of js) = rw (n, emit_all) at h in
        let r = In-of_emit kind_of o js at in (r.0, r.1, inr r.2, r.3, r.4)
    | inr (c, n) ↦
        let at : In o (
            observation graphemes monitor display c j
            ∷ emit_all graphemes monitor display kind_of js) =
          rw (n, emit_all) at h in
        elim at [
          | inl e ↦ (j, c, inl refl, n, e)
          | inr i ↦ let r = In-of_emit kind_of o js i in (r.0, r.1, inr r.2, r.3, r.4)
        ]
  ]

  loops_of :
      (p c : Option Json) (kind : ChangeKind)
      → kind_between p c ≡ some kind ↔ (
          ((is_none c ≡ false)
            × ((if is_none p then some created else if is_changed c p then some modified else none)
                ≡ some kind))
          ⊎ ((is_none p ≡ false) × ((if is_none c then some descoped else none) ≡ some kind)))
  unfolding kind_between
  loops_of none none kind = ground arith
  loops_of none (some w) kind = ground arith
  loops_of (some v) none kind = ground arith
  loops_of (some v) (some w) kind = ground arith

  -- The two loops together, for one key.
  kind-loops :
      (previous current : Fields) (k : Text) (kind : ChangeKind)
      → kind_between (get_own k previous) (get_own k current) ≡ some kind ↔ (
          ((is_none (get_own k current) ≡ false) × (change_of previous current k ≡ some kind))
          ⊎ ((is_none (get_own k previous) ≡ false) × (descoped_of current k ≡ some kind)))
  kind-loops previous current k kind = loops_of (get_own k previous) (get_own k current) kind

  pub changes_iff :
      (previous current : Fields) (o : KeyedObservation)
      → In o (changes graphemes monitor display (some previous) current) ↔ (
          (k : Text) × (kind : ChangeKind) × (o ≡ observation graphemes monitor display kind k)
          × (kind_between (get_own k previous) (get_own k current) ≡ some kind))
  unfolding changes
  changes_iff previous current o = (
    λ i.
        elim (In-of_append o
          (emit_all graphemes monitor display (change_of previous current) (keys current)) _ i) [
            | inl j ↦
                let r = In-of_emit (change_of previous current) o (keys current) j in
                (
                  r.0,
                  r.1,
                  r.4,
                  (kind-loops previous current r.0 r.1).1 (inl (get-keys r.0 current r.2, r.3)),
                )
            | inr j ↦
                let r = In-of_emit (descoped_of current) o (keys previous) j in
                (
                  r.0,
                  r.1,
                  r.4,
                  (kind-loops previous current r.0 r.1).1 (inr (get-keys r.0 previous r.2, r.3)),
                )
          ],
    λ (k, kind, e, h). rw e (elim ((kind-loops previous current k kind).0 h) [
      | inl p ↦
          In-append_left _ _ _ (
            In-emit (change_of previous current) k kind (keys current) (keys-get k current p.0) p.1)
      | inr p ↦
          In-append_right _ _ _
            (In-emit (descoped_of current) k kind (keys previous) (keys-get k previous p.0) p.1)
    ]),
  )
