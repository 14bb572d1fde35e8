-- ===== src/Diff/Rendering.antt =====
-- The bounded sink against the list of all entries.
use agent_monitors.Prelude.{
  ℕ, zero, suc, ◌≡◌, refl, sym, ap, true, List, [], ◌∷◌, ◌++◌, map, append_assoc, append-nil,
  length, length-append, take, arith, leb, if◌then◌else◌,
}
use agent_monitors.Render.{join_lines}
use agent_monitors.Diff.{
  JsonDiffEntry, DiffEntrySink, fresh_sink, push, render_json_diff_entries, render_json_diff_entry,
  bound_total_output, elision, max_json_diff_entries,
}

-- What the traversal pushes, in order.
pub push_all : ℕ → List JsonDiffEntry → DiffEntrySink → DiffEntrySink
push_all cap [] sink = sink
push_all cap (e ∷ es) sink = push_all cap es (push cap e sink)

take_nil : (n : ℕ) → take {A = JsonDiffEntry} n [] ≡ []
take_nil zero = refl
take_nil (suc n) = refl

zero_leb : (n : ℕ) → leb 0 n ≡ true
zero_leb n = ground arith

-- A taken prefix grows by one until it is full.
take-snoc :
    (n : ℕ) (xs : List JsonDiffEntry) (e : JsonDiffEntry)
    → take (suc n) (xs ++ e ∷ [])
      ≡ (if leb (length (take (suc n) xs)) n then take (suc n) xs ++ e ∷ [] else take (suc n) xs)
take-snoc n [] e = rw (take_nil n, zero_leb n) refl
take-snoc zero (x ∷ xs) e = ground arith
take-snoc (suc n) (x ∷ xs) e = ground (arith, take-snoc n xs e)

take-take : (n : ℕ) (xs : List JsonDiffEntry) → take n (take (suc n) xs) ≡ take n xs
take-take zero xs = refl
take-take (suc n) [] = refl
take-take (suc n) (x ∷ xs) = ap (λ ys. x ∷ ys) (take-take n xs)

-- A sink that has been given a list of entries.
record Given (cap : ℕ) (es : List JsonDiffEntry) (sink : DiffEntrySink) : Type 0 where
  stored : sink.stored ≡ take (suc cap) es
  count : sink.count ≡ length es

push-Given :
    (cap : ℕ) (es : List JsonDiffEntry) (e : JsonDiffEntry) (sink : DiffEntrySink)
    → Given cap es sink
    → Given cap (es ++ e ∷ []) (push cap e sink)
unfolding push
push-Given cap es e sink g = record {
  stored = rw g.stored (sym (take-snoc cap es e));
  count = omega (arith, g.count, length-append es (e ∷ []));
}

push_all-Given :
    (cap : ℕ) (before es : List JsonDiffEntry) (sink : DiffEntrySink)
    → Given cap before sink
    → Given cap (before ++ es) (push_all cap es sink)
unfolding push_all
push_all-Given cap before [] sink g = rw (append-nil before) g
push_all-Given cap before (e ∷ es) sink g =
    rw (sym (append_assoc before (e ∷ []) es))
      (push_all-Given cap (before ++ e ∷ []) es (push cap e sink) (push-Given cap before e sink g))

-- The rendering of a sink that was given the entries one by one is that of the whole list: its
-- first twenty entries and, if there are more, the number of the others, cut at the length bound.
pub rendered-all :
    (es : List JsonDiffEntry)
    → render_json_diff_entries (push_all max_json_diff_entries es fresh_sink)
      ≡ bound_total_output (
          join_lines
            (map render_json_diff_entry (take max_json_diff_entries es) ++ elision (length es)))
unfolding render_json_diff_entries
rendered-all es =
    let g =
      push_all-Given max_json_diff_entries [] es fresh_sink
        record { stored = refl; count = refl } in
    rw (g.stored, g.count, take-take max_json_diff_entries es) refl
