-- ===== src/Collection/Snapshot.antt =====
-- What a snapshot holds: the normalized element of each key. And the bound of a displayed key.
use agent_monitors.Prelude.{
  ℕ, ◌≤◌, ◌≡◌, refl, sym, ap, subst, ◌∙◌, ◌↔◌, inl, inr, ◌⊎◌, false, Option, none, some, List, [],
  ◌∷◌, ◌++◌, Text, codes, text_eq, text_eq_iff, arith, length, length-append, Bool-cases,
  Option-cases, if◌then◌else◌,
}
use agent_monitors.Json.{
  Json, Elements, no_elements, element, Fields, no_fields, field, get_own, put_own, set_own, array,
}
use agent_monitors.Collection.{
  ok, err, CollectionError, KeyedCollectionConfig, collect, key_value_of, normalize_element,
  display_object_key, fitting_prefix, max_display_key_length, KeyedCollectionResult, elements_of,
  resolve_dotted_path, diff_keyed_collection,
}
use agent_monitors.Collection.Diffing.{Outcome-cases, diff-Parts}

abbrev pub InElements : Json → Elements → Type 0
InElements x no_elements = ⊥
InElements x (element y ys) = (x ≡ y) ⊎ InElements x ys

abbrev pub proto : Text
proto = codes "__proto__"

get-put_own :
    (k j : Text) (v : Json) (m : Fields)
    → get_own j (put_own k v m) ≡ (if text_eq k j then some v else get_own j m)
unfolding put_own get_own
get-put_own k j v no_fields = refl
get-put_own k j v (field i w m) =
    ground (arith, text_eq_iff k j, text_eq_iff i k, text_eq_iff i j, get-put_own k j v m)

get-set_own :
    (k j : Text) (v : Json) (m : Fields)
    → text_eq k proto ≡ false
    → get_own j (set_own k v m) ≡ (if text_eq k j then some v else get_own j m)
unfolding set_own
get-set_own k j v m h = rw h (get-put_own k j v m)

module _ (config : KeyedCollectionConfig) where
  -- An element of the key, normalized.
  pub record Holds (k : Text) (v : Json) (x : Json) : Type 0 where
    pub keyed : key_value_of x config.key ≡ ok k
    pub normal : normalize_element config.ignore_paths x ≡ ok v

  -- One round of the loop that does not fail.
  record Round (x : Json) (xs : Elements) (acc cur : Fields) : Type 0 where
    k : Text
    v : Json
    holds : Holds k v x
    fresh : get_own k acc ≡ none
    rest : collect config xs (set_own k v acc) ≡ ok cur

  not_ok : {e : CollectionError} {m : Fields} → err e ≡ ok m → ⊥
  not_ok h = cc

  collect-Round :
      (x : Json) (xs : Elements) (acc cur : Fields)
      → collect config (element x xs) acc ≡ ok cur
      → Round x xs acc cur
  unfolding collect
  collect-Round x xs acc cur h = elim (Outcome-cases (key_value_of x config.key)) [
    | inr (e, q) ↦ absurd (not_ok (rw (q, collect) at h))
    | inl (k, q) ↦ elim (Option-cases (get_own k acc)) [
      | inr (w, there) ↦ absurd (not_ok (rw (q, there, collect) at h))
      | inl fresh ↦ elim (Outcome-cases (normalize_element config.ignore_paths x)) [
        | inr (e, n) ↦ absurd (not_ok (rw (q, fresh, n, collect) at h))
        | inl (v, n) ↦ record {
          k = k;
          v = v;
          holds = record { keyed = q; normal = n };
          fresh = fresh;
          rest = rw (q, fresh, n, collect) at h;
        }
      ]
    ]
  ]

  -- The other keys keep their values.
  set_own-other :
      (k j : Text) (v w : Json) (acc : Fields)
      → get_own k acc ≡ none
      → get_own j acc ≡ some w
      → get_own j (set_own k v acc) ≡ some w
  set_own-other k j v w acc fresh h = elim (Bool-cases (text_eq k proto)) [
    | inl p ↦ unfold set_own in rw p h
    | inr p ↦ rw (get-set_own k j v acc p) (ground (arith, text_eq_iff k j))
  ]

  collect-keeps :
      (j : Text) (w : Json) (es : Elements) (acc cur : Fields)
      → collect config es acc ≡ ok cur
      → get_own j acc ≡ some w
      → get_own j cur ≡ some w
  unfolding collect
  collect-keeps j w no_elements acc cur h g = let same : acc ≡ cur = cc in rw (← same) g
  collect-keeps j w (element x xs) acc cur h g =
      let r = collect-Round x xs acc cur h in
      collect-keeps j w xs (set_own r.k r.v acc) cur r.rest
        (set_own-other r.k j r.v w acc r.fresh g)

  same_key : (a b : Text) → ok a ≡ ok b → a ≡ b
  same_key a b h = cc

  move-Holds : (a b : Text) (v : Json) (x y : Json) → a ≡ b → x ≡ y → Holds a v x → Holds b v y
  move-Holds a b v x y h e k = record {
    keyed = subst (λ z. key_value_of z config.key ≡ ok b) e (k.keyed ∙ ap ok h);
    normal = subst (λ z. normalize_element config.ignore_paths z ≡ ok v) e k.normal;
  }

  get_set_same :
      (a k : Text) (v : Json) (m : Fields)
      → a ≡ k
      → text_eq k proto ≡ false
      → get_own k (set_own a v m) ≡ some v
  get_set_same a k v m e p =
      let q : text_eq a proto ≡ false = subst (λ z. text_eq z proto ≡ false) (sym e) p in
      get-set_own a k v m q ∙ ground (arith, text_eq_iff a k)

  collect-has :
      (k : Text) (x : Json) (es : Elements) (acc cur : Fields)
      → collect config es acc ≡ ok cur
      → text_eq k proto ≡ false
      → InElements x es
      → key_value_of x config.key ≡ ok k
      → (v : Json) × Holds k v x × (get_own k cur ≡ some v)
  collect-has k x no_elements acc cur h p i q = elim i [ ]
  collect-has k x (element y ys) acc cur h p (inl e) q =
      let r = collect-Round y ys acc cur h in
      let own : key_value_of y config.key ≡ ok k =
        subst (λ z. key_value_of z config.key ≡ ok k) e q in
      let same = same_key r.k k (sym r.holds.keyed ∙ own) in
      (
        r.v,
        move-Holds r.k k r.v y x same (sym e) r.holds,
        collect-keeps k r.v ys (set_own r.k r.v acc) cur r.rest (get_set_same r.k k r.v acc same p),
      )
  collect-has k x (element y ys) acc cur h p (inr i) q =
      let r = collect-Round y ys acc cur h in
      collect-has k x ys (set_own r.k r.v acc) cur r.rest p i q

  -- A value that one assignment leaves is the assigned one or was there.
  from_set :
      (a k : Text) (w v : Json) (acc : Fields) (y : Json) (ys : Elements)
      → get_own k (set_own a w acc) ≡ some v
      → text_eq k proto ≡ false
      → Holds a w y
      → (get_own k acc ≡ some v) ⊎ ((x : Json) × InElements x (element y ys) × Holds k v x)
  from_set a k w v acc y ys at p held = elim (Bool-cases (text_eq a k)) [
    | inl same ↦
        let e = (text_eq_iff a k).0 same in
        let val : w ≡ v = cc (sym (get_set_same a k w acc e p) ∙ at) in
        inr (y, inl refl, subst (λ z. Holds k z y) val (move-Holds a k w y y e refl held))
    | inr other ↦ elim (Bool-cases (text_eq a proto)) [
      | inl q ↦ inl (unfold set_own in rw q at at)
      | inr q ↦
          let kept : get_own k acc ≡ some v = rw (get-set_own a k w acc q, other) at at in inl kept
    ]
  ]

  collect-from :
      (k : Text) (v : Json) (es : Elements) (acc cur : Fields)
      → collect config es acc ≡ ok cur
      → text_eq k proto ≡ false
      → get_own k cur ≡ some v
      → (get_own k acc ≡ some v) ⊎ ((x : Json) × InElements x es × Holds k v x)
  unfolding collect
  collect-from k v no_elements acc cur h p g = let same : acc ≡ cur = cc in inl (rw same g)
  collect-from k v (element y ys) acc cur h p g =
      let r = collect-Round y ys acc cur h in
      elim (collect-from k v ys (set_own r.k r.v acc) cur r.rest p g) [
        | inr f ↦ inr (f.0, inr f.1, f.2)
        | inl at ↦ from_set r.k k r.v v acc y ys at p r.holds
      ]

  -- In an object with one key for each element of the list.
  pub collect_iff :
      (es : Elements) (cur : Fields) (k : Text) (v : Json)
      → collect config es no_fields ≡ ok cur
      → text_eq k proto ≡ false
      → (get_own k cur ≡ some v) ↔ ((x : Json) × InElements x es × Holds k v x)
  unfolding get_own
  collect_iff es cur k v h p = (
    λ g. elim (collect-from k v es no_fields cur h p g) [
      | inl nothing ↦ absurd (none_some nothing)
      | inr f ↦ f
    ],
    λ (x, i, held).
        let f = collect-has k x es no_fields cur h p i held.keyed in
        f.2 ∙ same_value f.0 v (sym f.1.normal ∙ held.normal),
  )
    where
      none_some : {A : Type 0} {a : A} → none ≡ some a → ⊥
      none_some e = cc

      same_value : (a b : Json) → ok a ≡ ok b → some a ≡ some b
      same_value a b e = cc

array_of :
    (found : Option Json) (es : Elements) → elements_of found ≡ ok es → found ≡ some (array es)
array_of none es h = ground arith
array_of (some (array xs)) es h = ground arith
array_of (some _) es h = ground arith

module _ (graphemes : Text → List Text) where
  -- A diff that succeeds has found one array at the path, and its snapshot holds a value under a
  -- key, other than `__proto__`, exactly if an element of the array has that key and the value is
  -- what remains of the element without the ignored paths, in normal form.
  pub snapshot_iff :
      (output : Json) (config : KeyedCollectionConfig) (monitor display : Text)
      (previous : Option Fields) {r : KeyedCollectionResult}
      → diff_keyed_collection graphemes output config monitor previous display ≡ ok r
      → (es : Elements) × (resolve_dotted_path output config.path ≡ ok (some (array es)))
        × ((k : Text) (v : Json)
            → text_eq k proto ≡ false
            → (get_own k r.snapshot ≡ some v) ↔ ((x : Json) × InElements x es × Holds config k v x))
  snapshot_iff output config monitor display previous {r} h =
      let p = diff-Parts graphemes output config monitor display previous h in
      (
        p.elements,
        p.resolved ∙ ap ok (array_of p.found p.elements p.selected),
        λ k v q. rw p.result (collect_iff config p.elements p.current k v p.collected q),
      )

  fitting-le :
      (budget : ℕ) (prefix : Text) (gs : List Text)
      → length prefix ≤ budget
      → length (fitting_prefix budget prefix gs) ≤ budget
  unfolding fitting_prefix
  fitting-le budget prefix [] h = h
  fitting-le budget prefix (g ∷ gs) h =
      ground (arith, length-append prefix g, fitting-le budget (prefix ++ g) gs)

  -- A displayed key, with its mark of what is left out, has at most sixty code units.
  pub display-le : (key : Text) → length (display_object_key graphemes key) ≤ max_display_key_length
  unfolding display_object_key
  display-le key = ground (
    arith,
    length-append (fitting_prefix 59 [] (graphemes key)) (8230 ∷ []),
    fitting-le 59 [] (graphemes key),
  )
