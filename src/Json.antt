-- ===== src/Json.antt =====
-- Parsed JSON as JavaScript holds it, `sortKeys` of libs/core/src/observation/keyed-collection.ts,
-- and the `JSON.stringify` that it is compared by. A number is what `String(n)` gives for it.
pub mod Sorting
mod Tests
use agent_monitors.Prelude.{
  ℕ, ◌+◌, ◌*◌, ◌-◌, ◌/◌, ◌%◌, Bool, true, false, ◌&&◌, ◌||◌, not, Option, none, some, List, [], ◌∷◌,
  ◌++◌, Text, codes, text_eq, text_leb, leb, ltb, ◌==◌, if◌then◌else◌,
}

mutual
  pub data Json : Type 0 where
    null : Json
    bool : Bool → Json
    number : Text → Json
    string : Text → Json
    array : Elements → Json
    object : Fields → Json

  pub data Elements : Type 0 where
    no_elements : Elements
    element : Json → Elements → Elements

  -- The own properties of an object, in the order of `Object.keys`.
  pub data Fields : Type 0 where
    no_fields : Fields
    field : Text → Json → Fields → Fields

abbrev is_digit : ℕ → Bool
is_digit c = leb b'0' c && leb c b'9'

digits_value : ℕ → Text → Option ℕ
digits_value n [] = some n
digits_value n (c ∷ cs) =
    let rest = digits_value (n * 10 + (c - b'0')) cs in if is_digit c then rest else none

abbrev max_array_index : ℕ
max_array_index = 4_294_967_294

abbrev bounded_index : Option ℕ → Option ℕ
bounded_index none = none
bounded_index (some n) = if leb n max_array_index then some n else none

-- The array index that a property's name spells, if it does.
unfoldable pub index_of : Text → Option ℕ
unfolding digits_value
index_of [] = none
index_of (c ∷ []) = bounded_index (digits_value 0 (c ∷ []))
index_of (c ∷ cs) = if c == b'0' then none else bounded_index (digits_value 0 (c ∷ cs))

abbrev index_before : Option ℕ → Option ℕ → Bool
index_before none b = false
index_before (some a) none = true
index_before (some a) (some b) = ltb a b

-- Indices come first in `Object.keys`, in ascending order; other names in the order of insertion.
unfoldable pub put_own : Text → Json → Fields → Fields
unfolding index_of
put_own k v no_fields = field k v no_fields
put_own k v (field j w m) =
    let rest = put_own k v m in
    if text_eq j k
    then field j v m
    else if index_before (index_of k) (index_of j)
    then field k v (field j w m)
    else field j w rest

-- `o[k] = v`: an assignment to `__proto__` makes no own property.
unfoldable pub set_own : Text → Json → Fields → Fields
unfolding put_own
set_own k v m = if text_eq k (codes "__proto__") then m else put_own k v m

unfoldable pub get_own : Text → Fields → Option Json
get_own k no_fields = none
get_own k (field j v m) = if text_eq j k then some v else get_own k m

unfoldable pub delete_own : Text → Fields → Fields
delete_own k no_fields = no_fields
delete_own k (field j v m) = if text_eq j k then m else field j v (delete_own k m)

abbrev pub keys : Fields → List Text
keys no_fields = []
keys (field k v m) = k ∷ keys m

-- `Object.keys(…).sort()`, with the values.
unfoldable pub insert_field : Text → Json → Fields → Fields
insert_field k v no_fields = field k v no_fields
insert_field k v (field j w m) =
    if text_leb k j then field k v (field j w m) else field j w (insert_field k v m)

-- The assignments of the loop, in order.
unfoldable pub assign_all : Fields → Fields → Fields
unfolding set_own
assign_all no_fields into = into
assign_all (field k v m) into = assign_all m (set_own k v into)

unfoldable mutual
  unfolding insert_field assign_all

  pub sort_keys : Json → Json
  sort_keys (array xs) = array (sort_elements xs)
  sort_keys (object m) = object (assign_all (sort_fields m) no_fields)
  sort_keys null = null
  sort_keys (bool b) = bool b
  sort_keys (number n) = number n
  sort_keys (string s) = string s

  pub sort_elements : Elements → Elements
  sort_elements no_elements = no_elements
  sort_elements (element x xs) = element (sort_keys x) (sort_elements xs)

  pub sort_fields : Fields → Fields
  sort_fields no_fields = no_fields
  sort_fields (field k v m) = insert_field k (sort_keys v) (sort_fields m)

-- A hexadecimal digit, and `\uXXXX`.
abbrev pub hex_digit : ℕ → ℕ
hex_digit n = if ltb n 10 then b'0' + n else b'a' + (n - 10)

abbrev pub unicode_escape : ℕ → Text
unicode_escape c =
    92
    ∷ b'u'
    ∷ hex_digit (c / 4096)
    ∷ hex_digit (c / 256 % 16)
    ∷ hex_digit (c / 16 % 16)
    ∷ hex_digit (c % 16)
    ∷ []

abbrev is_surrogate : ℕ → Bool
is_surrogate c = leb 55296 c && leb c 57343

abbrev pub is_high_surrogate : ℕ → Bool
is_high_surrogate c = leb 55296 c && leb c 56319

abbrev pub is_low_surrogate : ℕ → Bool
is_low_surrogate c = leb 56320 c && leb c 57343

-- One code unit of a string; a surrogate is kept only in a pair.
abbrev quote_unit : Bool → ℕ → Text
quote_unit paired c =
    if c == 34
    then 92 ∷ 34 ∷ []
    else if c == 92
    then 92 ∷ 92 ∷ []
    else if c == 8
    then 92 ∷ b'b' ∷ []
    else if c == 12
    then 92 ∷ b'f' ∷ []
    else if c == 10
    then 92 ∷ b'n' ∷ []
    else if c == 13
    then 92 ∷ b'r' ∷ []
    else if c == 9
    then 92 ∷ b't' ∷ []
    else if ltb c 32 || (is_surrogate c && not paired)
    then unicode_escape c
    else c ∷ []

-- Whether the code unit before was an open high surrogate tells a low one that ends a pair.
unfoldable pub quote_units : Bool → Text → Text
quote_units open_pair [] = []
quote_units open_pair (c ∷ []) = quote_unit (open_pair && is_low_surrogate c) c
quote_units open_pair (c ∷ d ∷ cs) =
    let closes = open_pair && is_low_surrogate c in
    let opens = is_high_surrogate c && is_low_surrogate d in
    quote_unit (closes || opens) c ++ quote_units opens (d ∷ cs)

unfoldable pub quote : Text → Text
unfolding quote_units
quote s = 34 ∷ (quote_units false s ++ 34 ∷ [])

-- `JSON.stringify` of a number: an infinite one, such as `1e999` is read as, becomes `null`.
abbrev pub number_text : Text → Text
number_text n =
    if text_eq n (codes "Infinity") || text_eq n (codes "-Infinity") then codes "null" else n

unfoldable mutual
  unfolding quote

  pub stringify : Json → Text
  stringify null = codes "null"
  stringify (bool true) = codes "true"
  stringify (bool false) = codes "false"
  stringify (number n) = number_text n
  stringify (string s) = quote s
  stringify (array xs) = b'[' ∷ (stringify_elements xs ++ b']' ∷ [])
  stringify (object m) = b'{' ∷ (stringify_fields m ++ b'}' ∷ [])

  pub stringify_elements : Elements → Text
  stringify_elements no_elements = []
  stringify_elements (element x no_elements) = stringify x
  stringify_elements (element x (element y ys)) =
      stringify x ++ (b',' ∷ stringify_elements (element y ys))

  pub stringify_fields : Fields → Text
  stringify_fields no_fields = []
  stringify_fields (field k v no_fields) = quote k ++ (b':' ∷ stringify v)
  stringify_fields (field k v (field j w m)) =
      quote k ++ (b':' ∷ (stringify v ++ (b',' ∷ stringify_fields (field j w m))))
