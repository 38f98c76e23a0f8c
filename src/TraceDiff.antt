-- ===== src/TraceDiff.antt =====
-- The per-function report of tools/trace-diff/diff.c, and tools/trace-diff/threshold.c.
-- A printed line carries the numbers that it is computed from. `zero_pct` is `threshold_pct <= 0.0`,
-- and `over before after` is the comparison of doubles at the end of `diff_exceeds_threshold`. The
-- count of differing functions is taken to fit its `int`.
use retrace.Prelude.{
  ℕ, ◌+◌, Bool, true, false, ◌&&◌, Option, none, some, List, [], ◌∷◌, ◌++◌, ◌==◌, if◌then◌else◌,
  CStr,
}
use retrace.Normalize.{FuncStat, NormalizedLog}
use retrace.Normalize
pub mod Unchanged
pub mod Thresholds
pub mod Traces
mod Tests

pub data Line : Type 0 where
  function_name : CStr → Line
  absent_before : ℕ → Line
  absent_after : ℕ → Line
  count_line : ℕ → ℕ → Line
  time_line : ℕ → ℕ → Line

unfoldable pub count_of : Option FuncStat → ℕ
count_of none = 0
count_of (some st) = st.call_count

unfoldable pub time_of : Option FuncStat → ℕ
time_of none = 0
time_of (some st) = st.total_duration_us

unfoldable pub both_lines : FuncStat → FuncStat → List Line
both_lines b a =
    (if b.call_count == a.call_count then [] else count_line b.call_count a.call_count ∷ [])
    ++ (if b.total_duration_us == a.total_duration_us
        then []
        else time_line b.total_duration_us a.total_duration_us ∷ [])

unfoldable pub changed_lines : Option FuncStat → Option FuncStat → List Line
unfolding count_of both_lines
changed_lines none after = absent_before (count_of after) ∷ []
changed_lines (some b) none = absent_after b.call_count ∷ []
changed_lines (some b) (some a) = both_lines b a

unfoldable pub print_func_diff : CStr → Option FuncStat → Option FuncStat → List Line
unfolding count_of time_of changed_lines
print_func_diff name before after =
    if (count_of before == count_of after) && (time_of before == time_of after)
    then []
    else function_name name ∷ changed_lines before after

-- What is printed, and what is added to `diffs`.
unfoldable pub and_then : List Line × ℕ → List Line × ℕ → List Line × ℕ
and_then (l, n) (l', n') = (l ++ l', n + n')

-- The loop on `after`, whose functions count where they are not in `before`.
unfoldable pub new_function : FuncStat → Option FuncStat → List Line × ℕ
unfolding print_func_diff
new_function a none = (print_func_diff a.name none (some a), 1)
new_function a (some b) = ([], 0)

unfoldable pub after_loop : List FuncStat → List FuncStat → List Line × ℕ
unfolding and_then new_function Normalize.find
after_loop before [] = ([], 0)
after_loop before (a ∷ after) =
    and_then (new_function a (Normalize.find a.name before)) (after_loop before after)

module _ (zero_pct : Bool) (over : ℕ → ℕ → Bool) where
  unfoldable pub diff_exceeds_threshold : ℕ → ℕ → Bool
  diff_exceeds_threshold before after =
      if before == after
      then false
      else if zero_pct
      then true
      else if before == 0
      then true
      else over before after

  -- The loop on `before`.
  unfoldable pub old_function : FuncStat → Option FuncStat → List Line × ℕ
  unfolding print_func_diff diff_exceeds_threshold
  old_function b none = (print_func_diff b.name (some b) none, 1)
  old_function b (some a) =
      if (a.call_count == b.call_count) && (a.total_duration_us == b.total_duration_us)
      then ([], 0)
      else (
        print_func_diff b.name (some b) (some a),
        if diff_exceeds_threshold b.call_count a.call_count
            then 1
            else if diff_exceeds_threshold b.total_duration_us a.total_duration_us
            then 1
            else 0,
      )

  unfoldable pub before_loop : List FuncStat → List FuncStat → List Line × ℕ
  unfolding and_then old_function Normalize.find
  before_loop [] after = ([], 0)
  before_loop (b ∷ before) after =
      and_then (old_function b (Normalize.find b.name after)) (before_loop before after)

  unfoldable pub print_all_diffs : NormalizedLog → NormalizedLog → List Line × ℕ
  unfolding and_then before_loop after_loop
  print_all_diffs before after =
      and_then (before_loop before.funcs after.funcs) (after_loop before.funcs after.funcs)
