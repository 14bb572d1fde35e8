-- ===== src/Collection/Tests.antt =====
-- A diff of a collection of two objects, and the theorems at it.
use agent_monitors.Prelude.{
  ◌≡◌, ◌↔◌, refl, some, List, [], ◌∷◌, Text, codes, text_eq, text_leb, In, false,
}
use agent_monitors.Json.{
  Json, Elements, string, number, array, object, no_elements, element, Fields, no_fields, field,
  get_own, set_own, put_own, index_of, sort_keys, stringify, delete_own,
}
use agent_monitors.Collection.{
  ChangeKind, created, modified, descoped, ok, KeyedCollectionConfig, KeyedObservation,
  KeyedCollectionResult, diff_keyed_collection, observation, resolve_dotted_path,
}
use agent_monitors.Collection.Reports.{kind_between}
use agent_monitors.Collection.Diffing.{diff_reports, diff_settles}
use agent_monitors.Collection.Snapshot.{InElements, Holds, proto, snapshot_iff}

-- A stand-in for `Intl.Segmenter`: one code unit each.
abbrev units : Text → List Text
units [] = []
units (c ∷ cs) = (c ∷ []) ∷ units cs

abbrev item : Text → Text → Json
item id title = object (
    field (codes "id") (number id)
      (field (codes "title") (string title) (field (codes "at") (string title) no_fields)))

abbrev output : Json
output = object (
    field (codes "tasks")
      (array (
        element (item (codes "7") (codes "new"))
          (element (item (codes "3") (codes "b")) no_elements)))
      no_fields)

abbrev config : KeyedCollectionConfig
config = record { path = codes "tasks"; key = codes "id"; ignore_paths = some (codes "$.at" ∷ []) }

abbrev stored : Text → Text → Json
stored id title =
    object (field (codes "id") (number id) (field (codes "title") (string title) no_fields))

abbrev previous : Fields
previous =
    field (codes "3") (stored (codes "3") (codes "a"))
      (field (codes "5") (stored (codes "5") (codes "c")) no_fields)

abbrev scope : Text
scope = codes "u"

abbrev result : KeyedCollectionResult
result = record {
  observations =
      observation units scope scope modified (codes "3")
      ∷ observation units scope scope created (codes "7")
      ∷ observation units scope scope descoped (codes "5")
      ∷ [];
  snapshot =
      field (codes "3") (stored (codes "3") (codes "b"))
        (field (codes "7") (stored (codes "7") (codes "new")) no_fields);
}

diffed : diff_keyed_collection units output config scope (some previous) scope ≡ ok result
unfolding diff_keyed_collection text_eq text_leb get_own set_own put_own index_of sort_keys
    stringify delete_own
diffed = refl

abbrev report : KeyedObservation
report = observation units scope scope modified (codes "3")

diff_reports_example : In report result.observations ↔ (
    (k : Text) × (kind : ChangeKind) × (report ≡ observation units scope scope kind k)
    × (kind_between (get_own k previous) (get_own k result.snapshot) ≡ some kind))
diff_reports_example = diff_reports units output config scope scope previous diffed report

diff_settles_example :
    diff_keyed_collection units output config scope (some result.snapshot) scope
    ≡ ok record { observations = []; snapshot = result.snapshot }
diff_settles_example = diff_settles units output config scope scope (some previous) diffed

snapshot_iff_example :
    (es : Elements) × (resolve_dotted_path output config.path ≡ ok (some (array es)))
    × ((k : Text) (v : Json)
        → text_eq k proto ≡ false
        → (get_own k result.snapshot ≡ some v)
          ↔ ((x : Json) × InElements x es × Holds config k v x))
snapshot_iff_example = snapshot_iff units output config scope scope (some previous) diffed
