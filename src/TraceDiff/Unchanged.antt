-- ===== src/TraceDiff/Unchanged.antt =====
-- tools/trace-diff/diff.c: the count of the per-function report, without a threshold.
use retrace.Prelude.{
  ℕ, ◌≡◌, ◌≢◌, refl, sym, ap, ◌∙◌, subst, ◌↔◌, inl, inr, Bool, true, Option, none, some, List, [],
  ◌∷◌, arith, CStr, str_eq, str_eq→≡, str_eq_refl, All, All-imp, Bool-cases, Option-cases,
}
use retrace.Normalize.{FuncStat, NormalizedLog}
use retrace.Normalize
use retrace.Normalize.Keys.{Keyed}
use retrace.TraceDiff.{
  Line, and_then, new_function, after_loop, old_function, before_loop, print_all_diffs,
  diff_exceeds_threshold,
}

-- The function is on both sides with the same counters, or on neither.
abbrev pub Same : Option FuncStat → Option FuncStat → Type 0
Same none none = Unit
Same none (some a) = ⊥
Same (some b) none = ⊥
Same (some b) (some a) = (b.call_count ≡ a.call_count) × (b.total_duration_us ≡ a.total_duration_us)

module _ (P : FuncStat → Type 0) where
  find-All :
      (m : CStr) (funcs : List FuncStat) (st : FuncStat)
      → All P funcs
      → Normalize.find m funcs ≡ some st
      → P st × (st.name ≡ m)
  unfolding Normalize.find
  find-All m [] st h e = ground arith
  find-All m (x ∷ funcs) st h e = elim (Bool-cases (str_eq x.name m)) [
    | inl t ↦
        let same : x ≡ st = ground (arith, t, e) in
        subst (λ y. P y × (y.name ≡ m)) same (h.0, str_eq→≡ x.name m t)
    | inr t ↦ find-All m funcs st h.1 (rw t at e)
  ]

some≢none {ℓ} : {A : Type ℓ} {a : A} → ¬ (some a ≡ none)
some≢none h = cc

Found : List FuncStat → FuncStat → Type 0
Found funcs st = Normalize.find st.name funcs ≡ some st

Found-further :
    (x : FuncStat) (funcs : List FuncStat)
    → Normalize.find x.name funcs ≡ none
    → (st : FuncStat) → Found funcs st
    → Found (x ∷ funcs) st
unfolding Found Normalize.find
Found-further x funcs h st e = elim (Bool-cases (str_eq x.name st.name)) [
  | inl t ↦
      absurd
        (some≢none (sym e ∙ ap (λ n. Normalize.find n funcs) (sym (str_eq→≡ x.name st.name t)) ∙ h))
  | inr t ↦ rw t e
]

Keyed-Found : (funcs : List FuncStat) → Keyed funcs → All (Found funcs) funcs
unfolding Found Normalize.find
Keyed-Found [] k = tt
Keyed-Found (x ∷ funcs) k = (
  rw (str_eq_refl x.name) refl,
  All-imp (Found funcs) (Found (x ∷ funcs)) funcs (Found-further x funcs k.0)
      (Keyed-Found funcs k.1),
)

new_function-counts : (a : FuncStat) (o : Option FuncStat) → ((new_function a o).1 ≡ 0) ↔ (o ≢ none)
unfolding new_function
new_function-counts a none = (λ h. ground arith, λ h. absurd (h refl))
new_function-counts a (some b) = (λ h e. some≢none e, λ h. refl)

and_then-zero : (x y : List Line × ℕ) → ((and_then x y).1 ≡ 0) ↔ ((x.1 ≡ 0) × (y.1 ≡ 0))
unfolding and_then
and_then-zero (l, n) (l', n') = (λ h. (omega arith, omega arith), λ h. omega (arith, h.0, h.1))

after_loop-counts :
    (before after : List FuncStat)
    → ((after_loop before after).1 ≡ 0) ↔ All (λ a. Normalize.find a.name before ≢ none) after
unfolding after_loop
after_loop-counts before [] = (λ h. tt, λ h. refl)
after_loop-counts before (a ∷ after) =
    let first = new_function-counts a (Normalize.find a.name before) in
    let rest = after_loop-counts before after in
    let sum =
      and_then-zero (new_function a (Normalize.find a.name before)) (after_loop before after) in
    (λ h. (first.0 (sum.0 h).0, rest.0 (sum.0 h).1), λ h. sum.1 (first.1 h.0, rest.1 h.1))

unchanged :
    (m : CStr) (before after : List FuncStat)
    → All (λ b. Same (some b) (Normalize.find b.name after)) before
    → All (λ a. Normalize.find a.name before ≢ none) after
    → Same (Normalize.find m before) (Normalize.find m after)
unchanged m before after h k = elim (Option-cases (Normalize.find m before)) [
  | inr (b, e) ↦
      let (s, n) = find-All (λ x. Same (some x) (Normalize.find x.name after)) m before b h e in
      subst (λ o. Same o (Normalize.find m after)) (sym e)
        (subst (λ x. Same (some b) (Normalize.find x after)) n s)
  | inl e ↦ elim (Option-cases (Normalize.find m after)) [
    | inl e' ↦ rw (e, e') tt
    | inr (a, e') ↦
        let (s, n) = find-All (λ x. Normalize.find x.name before ≢ none) m after a k e' in
        absurd (s (ap (λ x. Normalize.find x before) n ∙ e))
  ]
]

module _ (over : ℕ → ℕ → Bool) where
  old_function-counts :
      (b : FuncStat) (o : Option FuncStat) → ((old_function true over b o).1 ≡ 0) ↔ Same (some b) o
  unfolding old_function diff_exceeds_threshold
  old_function-counts b none = (λ h. ground arith, λ h. absurd h)
  old_function-counts b (some a) = (λ h. ground arith, λ h. ground arith)

  before_loop-counts :
      (before after : List FuncStat)
      → ((before_loop true over before after).1 ≡ 0)
        ↔ All (λ b. Same (some b) (Normalize.find b.name after)) before
  unfolding before_loop
  before_loop-counts [] after = (λ h. tt, λ h. refl)
  before_loop-counts (b ∷ before) after =
      let first = old_function-counts b (Normalize.find b.name after) in
      let rest = before_loop-counts before after in
      let sum =
        and_then-zero (old_function true over b (Normalize.find b.name after))
          (before_loop true over before after) in
      (λ h. (first.0 (sum.0 h).0, rest.0 (sum.0 h).1), λ h. sum.1 (first.1 h.0, rest.1 h.1))

  -- Each function of `before` is the same in `after`, and each of `after` is in `before`.
  counted_none :
      (before after : NormalizedLog)
      → ((print_all_diffs true over before after).1 ≡ 0) ↔ (
          All (λ b. Same (some b) (Normalize.find b.name after.funcs)) before.funcs
          × All (λ a. Normalize.find a.name before.funcs ≢ none) after.funcs)
  unfolding print_all_diffs
  counted_none before after =
      let old = before_loop-counts before.funcs after.funcs in
      let new = after_loop-counts before.funcs after.funcs in
      let sum =
        and_then-zero (before_loop true over before.funcs after.funcs)
          (after_loop before.funcs after.funcs) in
      (λ h. (old.0 (sum.0 h).0, new.0 (sum.0 h).1), λ h. sum.1 (old.1 h.0, new.1 h.1))

  -- Without a threshold, the report of two summaries in which no name stands twice counts no
  -- function if and only if each name has the same counters on both sides or is on neither.
  pub print_all_diffs-Same :
      (before after : NormalizedLog)
      → Keyed before.funcs
      → Keyed after.funcs
      → ((print_all_diffs true over before after).1 ≡ 0)
        ↔ ((m : CStr) → Same (Normalize.find m before.funcs) (Normalize.find m after.funcs))
  unfolding Found
  print_all_diffs-Same before after k k' =
      let counted = counted_none before after in
      (
        λ h m. unchanged m before.funcs after.funcs (counted.0 h).0 (counted.0 h).1,
        λ h. counted.1 (
          All-imp (Found before.funcs) _ before.funcs
              (λ b e. subst (λ o. Same o (Normalize.find b.name after.funcs)) e (h b.name))
              (Keyed-Found before.funcs k),
          All-imp (Found after.funcs) _ after.funcs
              (λ a e n.
                subst (Same none) e
                  (subst (λ o. Same o (Normalize.find a.name after.funcs)) n (h a.name)))
              (Keyed-Found after.funcs k'),
        ),
      )
