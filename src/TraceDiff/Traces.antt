-- ===== src/TraceDiff/Traces.antt =====
-- tools/trace-diff/diff.c: two traces and the report of their summaries.
use retrace.Prelude.{
  ℕ, ◌%◌, ◌^◌, ◌≡◌, refl, sym, ◌∙◌, Bool, true, Option, none, some, List, CStr, All,
}
use retrace.Json.{Json}
use retrace.Normalize.{
  FuncStat, NormalizedLog, call_of, normalize_from_trace, normalize_call_sequence,
}
use retrace.Normalize.Counts.{occurrences, calls_of, FitsCall}
use retrace.Normalize.Runs.{normalize-call_sequence}
use retrace.Normalize.Keys.{normalize_from_trace-Keyed}
use retrace.TraceDiff.{print_all_diffs}
use retrace.TraceDiff.Unchanged.{Same, print_all_diffs-Same}

Same-calls_of : (o o' : Option FuncStat) → Same o o' → calls_of o ≡ calls_of o'
Same-calls_of none none h = refl
Same-calls_of none (some a) h = absurd h
Same-calls_of (some b) none h = absurd h
Same-calls_of (some b) (some a) h = h.0

module _ (realloc_ok malloc_ok : ℕ → Bool) (j : Json)
    (get_object : j.Object → CStr → Option j.Object) where
  open j use {Object}

  -- A trace, its summary and its sequence; the names of its calls fit.
  abbrev pub IsSummary : List (Option Object) → NormalizedLog → ℕ × List CStr → Type 0
  IsSummary trace log seq =
      All (λ e. FitsCall (call_of realloc_ok j get_object e)) trace
      × (normalize_from_trace realloc_ok j get_object trace ≡ some log)
      × (normalize_call_sequence realloc_ok j get_object malloc_ok trace ≡ some seq)

  -- For two traces whose names fit, where the memory is granted: if the report of their summaries
  -- counts nothing without a threshold, then each name is called equally often in both
  -- sequences, modulo 2^64.
  pub print_all_diffs-occurrences :
      (over : ℕ → ℕ → Bool) (trace trace' : List (Option Object)) (before after : NormalizedLog)
      (seq seq' : ℕ × List CStr)
      → IsSummary trace before seq
      → IsSummary trace' after seq'
      → (print_all_diffs true over before after).1 ≡ 0
      → (m : CStr) → occurrences m seq.1 % 2 ^ 64 ≡ occurrences m seq'.1 % 2 ^ 64
  print_all_diffs-occurrences over trace trace' before after (cap, seq) (cap', seq') (f, n, s)
        (f', n', s') h m =
      let keyed = normalize_from_trace-Keyed realloc_ok j get_object trace before f n in
      let keyed' = normalize_from_trace-Keyed realloc_ok j get_object trace' after f' n' in
      let same = (print_all_diffs-Same over before after keyed keyed').0 h m in
      sym (normalize-call_sequence realloc_ok j get_object malloc_ok trace before cap seq f n s m)
      ∙ Same-calls_of _ _ same
      ∙ normalize-call_sequence realloc_ok j get_object malloc_ok trace' after cap' seq' f' n' s' m
