-- ===== src/Json/Tests.antt =====
-- `sort_keys` at an object with its properties in another order.
use agent_monitors.Prelude.{
  ◌≡◌, ◌≢◌, sym, true-false, text_eq_iff, refl, true, [], ◌∷◌, codes, text_eq, text_leb,
}
use agent_monitors.Json.{
  Json, bool, number, object, no_fields, field, index_of, put_own, sort_keys, stringify, set_own,
}
use agent_monitors.Json.Sorting.{objects, swapped, sort_keys-SameJson}

abbrev ab : Json
ab = object (field (97 ∷ []) (bool true) (field (98 ∷ []) (number (49 ∷ [])) no_fields))

abbrev ba : Json
ba = object (field (98 ∷ []) (number (49 ∷ [])) (field (97 ∷ []) (bool true) no_fields))

-- Indices come before other names.
indices_first :
    stringify (
      sort_keys (
        object (
          field (codes "b") (bool true) (
            field
              (codes "10")
              (number (49 ∷ []))
              (field (codes "9") (number (49 ∷ [])) no_fields)))))
    ≡ codes "{\"9\":1,\"10\":1,\"b\":true}"
unfolding sort_keys stringify text_leb text_eq set_own put_own index_of
indices_first = refl

other_name : codes "a" ≢ codes "b"
unfolding text_eq
other_name e = true-false (sym ((text_eq_iff (codes "a") (codes "b")).1 e))

sort_keys-SameJson_example : sort_keys ab ≡ sort_keys ba
sort_keys-SameJson_example = sort_keys-SameJson (objects (swapped other_name))
