-- ===== src/Collection.antt =====
-- libs/core/src/observation/keyed-collection.ts: a parsed output as a collection of keyed objects,
-- its configuration, its dotted paths and the diff of two snapshots. An error is a value; its text
-- is left out. `graphemes` stands for `Intl.Segmenter`. A path or a key that names a member of
-- `Object.prototype` reads as a missing property here.
pub mod Reports
pub mod Diffing
pub mod Snapshot
mod Tests
use agent_monitors.Prelude.{
  ℕ, ◌+◌, Bool, true, false, ◌&&◌, ◌||◌, not, Option, none, some, List, [], ◌∷◌, ◌++◌, Text, codes,
  text_eq, split_on, length, drop, any, leb, ltb, ◌==◌, if◌then◌else◌, is_none, is_some,
}
use agent_monitors.Json.{
  Json, null, bool, number, string, array, object, Elements, no_elements, element, Fields,
  no_fields, field, put_own, set_own, get_own, delete_own, keys, sort_keys, stringify,
}

pub data ChangeKind : Type 0 where
  created modified deleted descoped : ChangeKind

pub data CollectionError : Type 0 where
  invalid_config invalid_root empty_segment unsupported_segment not_an_array : CollectionError
  not_an_object missing_key duplicate_key : CollectionError

pub data Outcome {ℓ} (A : Type ℓ) : Type ℓ where
  ok : A → Outcome A
  err : CollectionError → Outcome A

infixl 5 ◌>>=◌
abbrev pub ◌>>=◌ {ℓ κ} : {A : Type ℓ} {B : Type κ} → Outcome A → (A → Outcome B) → Outcome B
ok a >>= f = f a
err e >>= f = err e

pub record KeyedCollectionConfig : Type 0 where
  pub path : Text
  pub key : Text
  pub ignore_paths : Option (List Text)

abbrev is_nonempty_string : Option Json → Option Text
is_nonempty_string (some (string (c ∷ s))) = some (c ∷ s)
is_nonempty_string _ = none

-- `Array.isArray` and every entry a string.
unfoldable pub strings_of : Elements → Option (List Text)
strings_of no_elements = some []
strings_of (element (string s) xs) = elim (strings_of xs) [ none ↦ none | some ss ↦ some (s ∷ ss) ]
strings_of (element _ xs) = none

abbrev pub parse_ignore_paths : Option Json → Outcome (Option (List Text))
parse_ignore_paths none = ok none
parse_ignore_paths (some (array xs)) = elim (strings_of xs) [
  | none ↦ err invalid_config
  | some ss ↦ ok (some ss)
]
parse_ignore_paths (some _) = err invalid_config

abbrev required_text : Option Text → Outcome Text
required_text none = err invalid_config
required_text (some s) = ok s

unfoldable pub parse_collection : Fields → Outcome KeyedCollectionConfig
unfolding strings_of
parse_collection c = do
  path ← required_text (is_nonempty_string (get_own (codes "path") c))
  key ← required_text (is_nonempty_string (get_own (codes "key") c))
  ignore ← parse_ignore_paths (get_own (codes "ignore-paths") c)
  ok record { path = path; key = key; ignore_paths = ignore }

abbrev parse_block : Option Json → Outcome (Option KeyedCollectionConfig)
parse_block none = ok none
parse_block (some (object c)) = do config ← parse_collection c; ok (some config)
parse_block (some _) = err invalid_config

-- `ok none` is a change detection without a collection block.
unfoldable pub parse_keyed_collection_config : Json → Outcome (Option KeyedCollectionConfig)
unfolding parse_collection
parse_keyed_collection_config (object m) = parse_block (get_own (codes "collection") m)
parse_keyed_collection_config _ = ok none

-- `\s`
abbrev is_space : ℕ → Bool
is_space c =
    (leb 9 c && leb c 13 || (c == 32 || c == 160))
    || ((c == 5760 || leb 8192 c && leb c 8202)
        || ((c == 8232 || c == 8233) || ((c == 8239 || c == 8287) || (c == 12288 || c == 65279))))

-- `/[[\]*?\s]/`
abbrev pub is_unsupported : ℕ → Bool
is_unsupported c = ((c == 91 || c == 93) || (c == 42 || c == 63)) || is_space c

abbrev pub check_segment : Text → Outcome Text
check_segment [] = err empty_segment
check_segment (c ∷ s) = if any is_unsupported (c ∷ s) then err unsupported_segment else ok (c ∷ s)

abbrev root_sign : ℕ
root_sign = 36

unfoldable pub normalize_dotted_path : Text → Outcome Text
normalize_dotted_path [] = ok (root_sign ∷ b'.' ∷ [])
normalize_dotted_path (c ∷ []) =
    if c == root_sign then ok (c ∷ []) else ok (root_sign ∷ b'.' ∷ c ∷ [])
normalize_dotted_path (c ∷ d ∷ cs) =
    if c == root_sign
    then (if d == b'.' then ok (c ∷ d ∷ cs) else err invalid_root)
    else ok (root_sign ∷ b'.' ∷ c ∷ d ∷ cs)

-- `none` is the path `$`; the segments of another follow its first two characters.
abbrev segments : Text → Option (List Text)
segments (c ∷ []) = none
segments p = some (split_on b'.' [] (drop 2 p))

abbrev fields_of : Option Json → Option Fields
fields_of (some (object m)) = some m
fields_of _ = none

-- A value of `none` is `undefined`.
unfoldable pub resolve_segments : List Text → Option Json → Outcome (Option Json)
resolve_segments [] current = ok current
resolve_segments (s ∷ ss) current = do
  checked ← check_segment s
  elim (fields_of current) [ none ↦ ok none | some m ↦ resolve_segments ss (get_own checked m) ]

abbrev resolve_from : Json → Option (List Text) → Outcome (Option Json)
resolve_from root none = ok (some root)
resolve_from root (some ss) = resolve_segments ss (some root)

unfoldable pub resolve_dotted_path : Json → Text → Outcome (Option Json)
unfolding normalize_dotted_path split_on resolve_segments
resolve_dotted_path root path = do p ← normalize_dotted_path path; resolve_from root (segments p)

abbrev set_child : Text → Option Json → Fields → Fields
set_child s none m = m
set_child s (some v) m = put_own s v m

abbrev delete_last : Text → Option Json → Option Json
delete_last s (some (object m)) = some (object (delete_own s m))
delete_last s current = current

-- What becomes of the value at the head of the path.
unfoldable pub remove_segments : List Text → Option Json → Outcome (Option Json)
remove_segments [] current = err empty_segment
remove_segments (s ∷ []) current = do checked ← check_segment s; ok (delete_last checked current)
remove_segments (s ∷ t ∷ ss) current = do
  checked ← check_segment s
  elim (fields_of current) [
    | none ↦ ok current
    | some m ↦ remove_segments (t ∷ ss) (get_own checked m) >>= λ child.
        ok (some (object (set_child checked child m)))
  ]

abbrev kept_value : Json → Option Json → Json
kept_value v none = v
kept_value v (some w) = w

abbrev remove_from : Json → Option (List Text) → Outcome Json
remove_from v none = ok v
remove_from v (some ss) = do removed ← remove_segments ss (some v); ok (kept_value v removed)

unfoldable pub remove_dotted_path : Json → Text → Outcome Json
unfolding normalize_dotted_path split_on remove_segments
remove_dotted_path v path = do p ← normalize_dotted_path path; remove_from v (segments p)

unfoldable pub remove_all : List Text → Json → Outcome Json
unfolding remove_dotted_path
remove_all [] v = ok v
remove_all (p ∷ ps) v = remove_dotted_path v p >>= remove_all ps

abbrev ignored : Option (List Text) → List Text
ignored none = []
ignored (some ps) = ps

unfoldable pub normalize_element : Option (List Text) → Json → Outcome Json
unfolding remove_all
normalize_element ignore_paths e = do
  kept ← remove_all (ignored ignore_paths) e
  ok (sort_keys kept)

abbrev scalar_text : Option Json → Outcome Text
scalar_text (some (string s)) = ok s
scalar_text (some (number n)) = ok n
scalar_text (some (bool true)) = ok (codes "true")
scalar_text (some (bool false)) = ok (codes "false")
scalar_text _ = err missing_key

abbrev pub key_value_of : Json → Text → Outcome Text
key_value_of (object m) key = scalar_text (get_own key m)
key_value_of _ key = err not_an_object

-- The loop that builds the snapshot.
unfoldable pub collect : KeyedCollectionConfig → Elements → Fields → Outcome Fields
unfolding normalize_element
collect config no_elements current = ok current
collect config (element e es) current = key_value_of e config.key >>= λ k.
    if is_some (get_own k current)
    then err duplicate_key
    else normalize_element config.ignore_paths e >>= λ v. collect config es (set_own k v current)

pub record KeyedObservation : Type 0 where
  pub title : Text
  pub object_key : Text
  pub change_kind : ChangeKind
  pub key : Text

abbrev pub title_verb : ChangeKind → Text
title_verb created = codes "Item added"
title_verb modified = codes "Item changed"
title_verb descoped = codes "Item removed"
title_verb deleted = codes "Item deleted"

abbrev pub max_display_key_length : ℕ
max_display_key_length = 60

-- The whole graphemes that fit into the budget.
unfoldable pub fitting_prefix : ℕ → Text → List Text → Text
fitting_prefix budget prefix [] = prefix
fitting_prefix budget prefix (g ∷ gs) =
    let longer = fitting_prefix budget (prefix ++ g) gs in
    if ltb budget (length prefix + length g) then prefix else longer

-- The comparison of a key that both snapshots have.
abbrev pub is_changed : Option Json → Option Json → Bool
is_changed (some a) (some b) = not (text_eq (stringify a) (stringify b))
is_changed _ _ = false

-- What the first loop emits for a key of the current snapshot.
abbrev pub change_of : Fields → Fields → Text → Option ChangeKind
change_of previous current k =
    if is_none (get_own k previous)
    then some created
    else if is_changed (get_own k current) (get_own k previous)
    then some modified
    else none

abbrev pub descoped_of : Fields → Text → Option ChangeKind
descoped_of current k = if is_none (get_own k current) then some descoped else none

pub record KeyedCollectionResult : Type 0 where
  pub observations : List KeyedObservation
  pub snapshot : Fields

abbrev pub elements_of : Option Json → Outcome Elements
elements_of (some (array es)) = ok es
elements_of _ = err not_an_array

module _ (graphemes : Text → List Text) where
  -- `displayObjectKey` of libs/core/src/observation/display.ts.
  unfoldable pub display_object_key : Text → Text
  unfolding fitting_prefix
  display_object_key key =
      if leb (length key) max_display_key_length
      then key
      else fitting_prefix 59 [] (graphemes key) ++ 8230 ∷ []

  -- `emit`; its summary is the title.
  unfoldable pub observation : Text → Text → ChangeKind → Text → KeyedObservation
  observation monitor display kind k = record {
    title = title_verb kind ++ (codes ": " ++ (display_object_key display ++ (b'#' ∷ k)));
    object_key = monitor ++ (b'#' ∷ k);
    change_kind = kind;
    key = k;
  }

  unfoldable pub emit_all :
      Text → Text → (Text → Option ChangeKind) → List Text → List KeyedObservation
  unfolding observation
  emit_all monitor display kind_of [] = []
  emit_all monitor display kind_of (k ∷ ks) =
      let rest = emit_all monitor display kind_of ks in
      elim (kind_of k) [ none ↦ rest | some kind ↦ observation monitor display kind k ∷ rest ]

  -- A baseline run has no previous snapshot and emits nothing.
  unfoldable pub changes : Text → Text → Option Fields → Fields → List KeyedObservation
  unfolding emit_all
  changes monitor display none current = []
  changes monitor display (some previous) current =
      emit_all monitor display (change_of previous current) (keys current)
      ++ emit_all monitor display (descoped_of current) (keys previous)

  unfoldable pub diff_keyed_collection :
      Json → KeyedCollectionConfig → Text → Option Fields → Text → Outcome KeyedCollectionResult
  unfolding resolve_dotted_path collect changes
  diff_keyed_collection output config monitor previous display = do
    resolved ← resolve_dotted_path output config.path
    es ← elements_of resolved
    current ← collect config es no_fields
    ok record { observations = changes monitor display previous current; snapshot = current }
