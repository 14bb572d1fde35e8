-- ===== src/Diff.antt =====
-- libs/core/src/runtime/diff.ts: the line diff of two texts, and the rendering of a structural diff
-- with its bounds. The traversal of two JSON values, which fills the sink, is left out.
pub mod Lines
pub mod Rendering
pub mod Paths
mod Tests
use agent_monitors.Prelude.{
  ℕ, zero, suc, ◌+◌, ◌-◌, Bool, true, false, ◌&&◌, ◌||◌, not, Option, none, some, List, [], ◌∷◌,
  ◌++◌, map, Text, codes, text_eq, option_text_eq, length, take, decimal, leb, ltb, ◌==◌,
  if◌then◌else◌, split_on,
}
use agent_monitors.Event.{is_empty}
use agent_monitors.Render.{join_lines}
use agent_monitors.Json.{Json, stringify, unicode_escape, is_high_surrogate, is_low_surrogate}

-- The lines of both texts by their index; a text that has ended has none.
unfoldable pub pair_lines : List Text → List Text → List (Option Text × Option Text)
pair_lines [] ys = map (λ y. (none, some y)) ys
pair_lines (x ∷ xs) [] = (some x, none) ∷ pair_lines xs []
pair_lines (x ∷ xs) (y ∷ ys) = (some x, some y) ∷ pair_lines xs ys

abbrev line_chunk : ℕ → ℕ → Option Text → List Text
line_chunk sign line none = []
line_chunk sign line (some t) = (sign ∷ b' ' ∷ (decimal line ++ (codes ": " ++ t))) ∷ []

-- What one round adds.
abbrev pub chunks_of : ℕ → Option Text → Option Text → List Text
chunks_of line before after =
    if option_text_eq before after
    then []
    else line_chunk b'-' line before ++ line_chunk b'+' line after

abbrev pub max_chunks : ℕ
max_chunks = 20

-- The loop from a line on, with the number of chunks so far; it stops at twenty.
unfoldable pub diff_lines : ℕ → ℕ → List (Option Text × Option Text) → List Text
diff_lines line count [] = []
diff_lines line count ((before, after) ∷ ps) =
    let cs = chunks_of line before after in
    let rest = diff_lines (line + 1) (count + length cs) ps in
    if is_empty cs then rest else if leb max_chunks (count + length cs) then cs else cs ++ rest

unfoldable pub build_text_diff : Text → Text → Text
unfolding pair_lines diff_lines
build_text_diff previous current =
    if text_eq previous current
    then []
    else join_lines (diff_lines 1 0 (pair_lines (split_on 10 [] previous) (split_on 10 [] current)))

pub data JsonDiffEntry : Type 0 where
  removed : Text → Json → JsonDiffEntry
  added : Text → Json → JsonDiffEntry
  changed : Text → Json → Json → JsonDiffEntry
  reordered : Text → Json → JsonDiffEntry

pub record DiffEntrySink : Type 0 where
  pub stored : List JsonDiffEntry
  pub count : ℕ

abbrev pub fresh_sink : DiffEntrySink
fresh_sink = record { stored = []; count = 0 }

-- At most one entry more than the cap is kept; all are counted.
unfoldable pub push : ℕ → JsonDiffEntry → DiffEntrySink → DiffEntrySink
push cap e sink = record {
  count = sink.count + 1;
  stored = if leb (length sink.stored) cap then sink.stored ++ e ∷ [] else sink.stored;
}

-- The code points of the text, up to a number of them, and whether any are left.
unfoldable pub take_points : ℕ → Text → Text × Bool
take_points n [] = ([], false)
take_points zero (c ∷ cs) = ([], true)
take_points (suc n) (c ∷ []) = (c ∷ [], false)
take_points (suc n) (c ∷ d ∷ cs) =
    let pair = take_points n cs in
    let unit = take_points n (d ∷ cs) in
    if is_high_surrogate c && is_low_surrogate d
    then (c ∷ d ∷ pair.0, pair.1)
    else (c ∷ unit.0, unit.1)

unfoldable pub truncate_at_code_point : Text → ℕ → Text × Bool
unfolding take_points
truncate_at_code_point value max_length =
    if leb (length value) max_length then (value, false) else take_points max_length value

abbrev max_path_segment_length : ℕ
max_path_segment_length = 60

abbrev pub is_path_syntax : ℕ → Bool
is_path_syntax c = ((c == 92 || c == 46) || (c == 91 || c == 93)) || c == 61

-- The control characters, and the two separators of lines and paragraphs.
abbrev pub is_control : ℕ → Bool
is_control c = (ltb c 32 || leb 127 c && leb c 159) || (c == 8232 || c == 8233)

abbrev pub escape_unit : ℕ → Text
escape_unit c =
    if is_path_syntax c then 92 ∷ c ∷ [] else if is_control c then unicode_escape c else c ∷ []

unfoldable pub escape_units : Text → Text
escape_units [] = []
escape_units (c ∷ cs) = escape_unit c ++ escape_units cs

abbrev ellipsis : ℕ
ellipsis = 8230

unfoldable pub escape_path_segment : Text → Text
unfolding truncate_at_code_point escape_units
escape_path_segment value =
    let (text, truncated) = truncate_at_code_point value max_path_segment_length in
    if truncated then escape_units text ++ ellipsis ∷ [] else escape_units text

unfoldable pub field_path : Text → Text → Text
unfolding escape_path_segment
field_path base name =
    if is_empty base then escape_path_segment name else base ++ (b'.' ∷ escape_path_segment name)

unfoldable pub index_path : Text → ℕ → Text
index_path base index = base ++ (b'[' ∷ (decimal index ++ b']' ∷ []))

unfoldable pub keyed_element_path : Text → Text → Text → Text
unfolding escape_path_segment
keyed_element_path base key value =
    base ++ (b'[' ∷ (key ++ (61 ∷ (escape_path_segment value ++ b']' ∷ []))))

-- The fields that can name the elements of an array.
abbrev pub identity_key_candidates : List Text
identity_key_candidates =
    codes "id"
    ∷ codes "key"
    ∷ codes "uuid"
    ∷ codes "_id"
    ∷ codes "slug"
    ∷ codes "sha"
    ∷ codes "number"
    ∷ codes "name"
    ∷ []

abbrev format_path_suffix : Text → Text
format_path_suffix [] = []
format_path_suffix (c ∷ cs) = if c == b'[' then c ∷ cs else b' ' ∷ c ∷ cs

abbrev max_json_diff_value_length : ℕ
max_json_diff_value_length = 300

unfoldable pub render_json_value : Json → Text
unfolding truncate_at_code_point
render_json_value v =
    let serialized = stringify v in
    let (text, truncated) = truncate_at_code_point serialized max_json_diff_value_length in
    if truncated then text ++ (ellipsis ∷ codes "(truncated)") else serialized

unfoldable pub render_json_diff_entry : JsonDiffEntry → Text
unfolding render_json_value
render_json_diff_entry (removed path v) =
    codes "- removed" ++ (format_path_suffix path ++ (codes ": " ++ render_json_value v))
render_json_diff_entry (added path v) =
    codes "+ added" ++ (format_path_suffix path ++ (codes ": " ++ render_json_value v))
render_json_diff_entry (changed path v w) =
    codes "~ changed"
    ++ (format_path_suffix path
        ++ (codes ": " ++ (render_json_value v ++ (codes " -> " ++ render_json_value w))))
render_json_diff_entry (reordered path v) =
    codes "~ reordered" ++ (format_path_suffix path ++ (codes ": " ++ render_json_value v))

abbrev pub max_json_diff_output_length : ℕ
max_json_diff_output_length = 20_000

abbrev pub truncation_marker : Text
truncation_marker = 10 ∷ ellipsis ∷ codes " output truncated at 20000 characters"

unfoldable pub bound_total_output : Text → Text
unfolding truncate_at_code_point
bound_total_output rendered =
    if leb (length rendered) max_json_diff_output_length
    then rendered
    else (truncate_at_code_point rendered
        (max_json_diff_output_length - length truncation_marker)).0
      ++ truncation_marker

abbrev pub max_json_diff_entries : ℕ
max_json_diff_entries = 20

abbrev pub elision : ℕ → List Text
elision total =
    if ltb max_json_diff_entries total
    then (ellipsis
        ∷ b' '
        ∷ (decimal (total - max_json_diff_entries) ++ codes " more changes elided"))
      ∷ []
    else []

unfoldable pub render_json_diff_entries : DiffEntrySink → Text
unfolding render_json_diff_entry bound_total_output
render_json_diff_entries sink = bound_total_output (
    join_lines
      (map render_json_diff_entry (take max_json_diff_entries sink.stored) ++ elision sink.count))
