-- ===== src/Diff/Tests.antt =====
-- A line diff, a rendering past the cap, and the theorems about them.
use agent_monitors.Prelude.{
  ◌≡◌, ◌↔◌, refl, inl, true, not, all, List, [], ◌∷◌, ◌++◌, map, Text, codes, text_eq,
  option_text_eq, split_on, decimal, take, length,
}
use agent_monitors.Json.{null}
use agent_monitors.Render.{join_lines}
use agent_monitors.Diff.{
  JsonDiffEntry, added, removed, fresh_sink, build_text_diff, render_json_diff_entries,
  render_json_diff_entry, bound_total_output, elision, max_json_diff_entries, field_path,
  index_path, keyed_element_path, is_control,
}
use agent_monitors.Diff.Lines.{text_diff_empty}
use agent_monitors.Diff.Rendering.{push_all, rendered-all}
use agent_monitors.Diff.Paths.{root, field_step, index_step, keyed_step, path_shown}

abbrev two_lines : Text
two_lines = codes "a" ++ (10 ∷ codes "b")

line_diff : build_text_diff two_lines (codes "a") ≡ codes "- 2: b"
unfolding build_text_diff text_eq join_lines split_on option_text_eq decimal
line_diff = refl

text_diff_empty_example : (build_text_diff two_lines (codes "a") ≡ []) ↔ (two_lines ≡ codes "a")
text_diff_empty_example = text_diff_empty two_lines (codes "a")

abbrev entries : List JsonDiffEntry
entries = added (codes "x") null ∷ removed [] null ∷ []

rendered-all_example :
    render_json_diff_entries (push_all max_json_diff_entries entries fresh_sink)
    ≡ bound_total_output (
        join_lines (
          map render_json_diff_entry (take max_json_diff_entries entries)
          ++ elision (length entries)))
rendered-all_example = rendered-all entries

abbrev element_path : Text
element_path =
    field_path (keyed_element_path (index_path [] 12) (codes "id") two_lines) (codes "a.b")

path_shown_example : all (λ c. not (is_control c)) element_path ≡ true
path_shown_example =
    path_shown (field_step (codes "a.b") (keyed_step two_lines (inl refl) (index_step 12 root)))
