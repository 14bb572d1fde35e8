-- ===== src/Json/Sorting.antt =====
-- `sort_keys` forgets the order of the properties, at every depth.
use agent_monitors.Prelude.{
  ◌≡◌, ◌≢◌, refl, ap, ◌∙◌, Text, text_leb_total, text_leb_antisym, text_leb_trans, arith,
}
use agent_monitors.Json.{
  Json, array, object, Elements, no_elements, element, Fields, no_fields, field, insert_field,
  assign_all, sort_keys, sort_elements, sort_fields,
}

-- Values that differ in the order of properties only.
mutual
  pub data SameJson : Json → Json → Type 0 where
    same : (j : Json) → SameJson j j
    arrays : {xs ys : Elements} → SameElements xs ys → SameJson (array xs) (array ys)
    objects : {m n : Fields} → SameFields m n → SameJson (object m) (object n)

  pub data SameElements : Elements → Elements → Type 0 where
    no_more : SameElements no_elements no_elements
    both :
        {x y : Json} {xs ys : Elements}
        → SameJson x y
        → SameElements xs ys
        → SameElements (element x xs) (element y ys)

  pub data SameFields : Fields → Fields → Type 0 where
    done : SameFields no_fields no_fields
    under :
        {k : Text} {x y : Json} {m n : Fields}
        → SameJson x y
        → SameFields m n
        → SameFields (field k x m) (field k y n)
    swapped :
        {j k : Text} {x y : Json} {m : Fields}
        → j ≢ k
        → SameFields (field j x (field k y m)) (field k y (field j x m))
    through : {m n o : Fields} → SameFields m n → SameFields n o → SameFields m o

-- Two different keys may be inserted in either order.
insert_field_comm :
    (j k : Text) (x y : Json) (m : Fields)
    → j ≢ k
    → insert_field j x (insert_field k y m) ≡ insert_field k y (insert_field j x m)
unfolding insert_field
insert_field_comm j k x y no_fields h = ground (arith, text_leb_total j k, text_leb_antisym j k, h)
insert_field_comm j k x y (field i z m) h = ground (
  arith,
  text_leb_total j k,
  text_leb_antisym j k,
  text_leb_trans j k i,
  text_leb_trans k j i,
  text_leb_trans i j k,
  text_leb_trans i k j,
  text_leb_total i j,
  text_leb_total i k,
  insert_field_comm j k x y m h,
)

mutual
  unfolding sort_keys

  sort_json-same : {x y : Json} → SameJson x y → sort_keys x ≡ sort_keys y
  sort_json-same (same j) = refl
  sort_json-same (arrays e) = ap array (sort_elements-same e)
  sort_json-same (objects f) = ap (λ m. object (assign_all m no_fields)) (sort_fields-same f)

  sort_elements-same : {xs ys : Elements} → SameElements xs ys → sort_elements xs ≡ sort_elements ys
  sort_elements-same no_more = refl
  sort_elements-same (both j e) = rw (sort_json-same j, sort_elements-same e) refl

  sort_fields-same : {m n : Fields} → SameFields m n → sort_fields m ≡ sort_fields n
  sort_fields-same done = refl
  sort_fields-same (under j f) = rw (sort_json-same j, sort_fields-same f) refl
  sort_fields-same (swapped {j} {k} {x} {y} {m} h) =
      insert_field_comm j k (sort_keys x) (sort_keys y) (sort_fields m) h
  sort_fields-same (through f g) = sort_fields-same f ∙ sort_fields-same g

-- Two values that differ only in the order of properties, at any depth, have one normal form.
pub sort_keys-SameJson : {x y : Json} → SameJson x y → sort_keys x ≡ sort_keys y
sort_keys-SameJson h = sort_json-same h
