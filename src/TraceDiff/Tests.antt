-- ===== src/TraceDiff/Tests.antt =====
-- Two traces of the same calls, `read` twice and `open` once, in another order.
use retrace.Prelude.{
  ℕ, ◌≡◌, refl, ◌%◌, ◌^◌, ◌↔◌, Bool, true, false, Option, some, List, [], ◌∷◌, arith, CStr, codes,
  str_eq,
}
use retrace.Normalize
use retrace.Normalize.{NormalizedLog, normalize_from_trace, normalize_call_sequence}
use retrace.Normalize.Counts.{occurrences}
use retrace.Normalize.Tests.{calls_json, message_of, there_is, trace, summary}
use retrace.TraceDiff.{print_all_diffs}
use retrace.TraceDiff.Unchanged.{Same, print_all_diffs-Same}
use retrace.TraceDiff.Traces.{print_all_diffs-occurrences}

abbrev never : ℕ → ℕ → Bool
never b a = false

abbrev reordered : List (Option ℕ)
reordered = some 2 ∷ some 1 ∷ some 1 ∷ []

abbrev reordered_summary : NormalizedLog
reordered_summary = record {
  funcs =
      record { name = codes "open"; call_count = 1; total_duration_us = 7 }
      ∷ record { name = codes "read"; call_count = 2; total_duration_us = 12 }
      ∷ [];
  cap = 16;
}

print_all_diffs-Same_example : ((print_all_diffs true never summary reordered_summary).1 ≡ 0) ↔ (
    (m : CStr) → Same (Normalize.find m summary.funcs) (Normalize.find m reordered_summary.funcs))
unfolding Normalize.find str_eq
print_all_diffs-Same_example =
    print_all_diffs-Same never summary reordered_summary (refl, (refl, tt)) (refl, (refl, tt))

print_all_diffs-occurrences_example :
    occurrences (codes "read") (codes "read" ∷ codes "open" ∷ codes "read" ∷ []) % 2 ^ 64
    ≡ occurrences (codes "read") (codes "open" ∷ codes "read" ∷ codes "read" ∷ []) % 2 ^ 64
unfolding normalize_from_trace normalize_call_sequence print_all_diffs str_eq
print_all_diffs-occurrences_example =
    print_all_diffs-occurrences there_is there_is calls_json message_of never trace reordered
      summary reordered_summary (32, codes "read" ∷ codes "open" ∷ codes "read" ∷ [])
      (32, codes "open" ∷ codes "read" ∷ codes "read" ∷ [])
      ((omega arith, (tt, (omega arith, (tt, (omega arith, tt))))), refl, refl)
      ((omega arith, (omega arith, (omega arith, tt))), refl, refl) refl (codes "read")
