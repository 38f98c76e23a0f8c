-- ===== src/TraceDiff/Thresholds.antt =====
-- tools/trace-diff/diff.c and threshold.c: the report with a threshold and without one.
use retrace.Prelude.{
  ℕ, ◌≤◌, ◌≡◌, refl, ap₂, Bool, true, Option, none, some, List, [], ◌∷◌, ◌++◌, arith,
}
use retrace.Normalize.{FuncStat, NormalizedLog}
use retrace.Normalize
use retrace.TraceDiff.{
  Line, and_then, old_function, before_loop, print_all_diffs, diff_exceeds_threshold,
}

-- The same lines, and no more that is counted.
abbrev Under : List Line × ℕ → List Line × ℕ → Type 0
Under x y = (x.0 ≡ y.0) × (x.1 ≤ y.1)

and_then-Under :
    (x x' y y' : List Line × ℕ) → Under x x' → Under y y' → Under (and_then x y) (and_then x' y')
unfolding and_then
and_then-Under (l, n) (l', n') (k, m) (k', m') h g =
    (ap₂ (λ a b. a ++ b) h.0 g.0, omega (arith, h.1, g.1))

module _ (zero_pct : Bool) (over : ℕ → ℕ → Bool) where
  old_function-Under :
      (b : FuncStat) (o : Option FuncStat)
      → Under (old_function zero_pct over b o) (old_function true over b o)
  unfolding old_function diff_exceeds_threshold
  old_function-Under b none = (refl, omega arith)
  old_function-Under b (some a) = (ground arith, ground arith)

  before_loop-Under :
      (before after : List FuncStat)
      → Under (before_loop zero_pct over before after) (before_loop true over before after)
  unfolding before_loop
  before_loop-Under [] after = (refl, omega arith)
  before_loop-Under (b ∷ before) after =
      and_then-Under _ _ _ _ (old_function-Under b (Normalize.find b.name after))
        (before_loop-Under before after)

  -- With a threshold the same lines are printed as without one, and no more functions counted.
  pub print_all_diffs-threshold :
      (before after : NormalizedLog)
      → ((print_all_diffs zero_pct over before after).0
          ≡ (print_all_diffs true over before after).0)
        × ((print_all_diffs zero_pct over before after).1
            ≤ (print_all_diffs true over before after).1)
  unfolding print_all_diffs
  print_all_diffs-threshold before after =
      and_then-Under _ _ _ _ (before_loop-Under before.funcs after.funcs) (refl, omega arith)
