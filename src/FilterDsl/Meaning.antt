-- ===== src/FilterDsl/Meaning.antt =====
-- What a filter expression means in a domain of values, and that the evaluation answers it.
use mathlib.Core.Bool.{false≢true}
use retrace.Prelude.{
  ℕ, ◌≡◌, ◌≢◌, refl, sym, ap, subst, ◌↔◌, ◌⊎◌, inl, inr, Bool, true, false, not, Option, none, some,
  arith, CStr, All, if◌then◌else◌, str_eq→≡, str_eq_refl,
}
use retrace.Prelude.Int.{ℤ, ◌≤ℤ◌, eq_of_parts}
use retrace.Glob.{asterisk}
use retrace.Glob.Matching.{Matches}
use retrace.Glob.Deciding.{Answers, Answers-iff, Answers-or}
use retrace.FilterDsl.GlobStep.{glob_match}
use retrace.FilterDsl.Element.{Eats}
use retrace.FilterDsl.GlobMatch.{glob_match-Matches}
use retrace.FilterDsl.Ast.{
  Op, eq, ne, lt, le, gt, ge, glob, nglob, Operand, Node, or, and, negation, cmp,
}
use retrace.FilterDsl.Eval.{
  Resolver, lookup_str, lookup_num, operand_text, same_text, compare_num, numeric, equality, not?,
  eval_glob, eval_cmp, eval_node,
}

some-inj {ℓ} : {A : Type ℓ} {a b : A} → some a ≡ some b → a ≡ b
some-inj h = cc

none≢some {ℓ} : {A : Type ℓ} {a : A} → ¬ (none ≡ some a)
none≢some h = cc

-- Answers of connectives.
Answers-not : (V : Type 0) (r : Option Bool) → Answers V r → Answers (¬ V) (not? r)
Answers-not V r (true, e, (f, g)) =
    rw e (false, refl, (λ h. absurd (false≢true h), λ h. absurd (h (f refl))))
Answers-not V r (false, e, (f, g)) = rw e (true, refl, (λ _ v. false≢true (g v), λ _. refl))

numeric-Answers :
    (op : Op) (R : ℤ → ℤ → Type 0) (l r : Option ℤ)
    → ((a b : ℤ) → (compare_num op a b ≡ true) ↔ R a b)
    → (numeric op l r ≡ true) ↔ ((a b : ℤ) × (l ≡ some a) × (r ≡ some b) × R a b)
unfolding numeric
numeric-Answers op R none r h =
    (λ e. absurd (false≢true e), λ (a, b, e, f, g). absurd (none≢some e))
numeric-Answers op R (some a) none h =
    (λ e. absurd (false≢true e), λ (b, c, e, f, g). absurd (none≢some f))
numeric-Answers op R (some a) (some b) h = (
  λ e. (a, b, refl, refl, (h a b).0 e),
  λ (c, d, e, f, g).
      (h a b).1 (subst (λ x. R x b) (sym (some-inj e)) (subst (λ x. R c x) (sym (some-inj f)) g)),
)

same_text_iff : (x y : Option CStr) → (same_text x y ≡ true) ↔ (x ≡ y)
unfolding same_text
same_text_iff none none = ground arith
same_text_iff none (some t) = ground arith
same_text_iff (some s) none = ground arith
same_text_iff (some s) (some t) =
    (λ e. ap some (str_eq→≡ s t e), λ e. rw (some-inj e) (str_eq_refl t))

eq_num : (a b : ℤ) → (compare_num eq a b ≡ true) ↔ (a ≡ b)
unfolding compare_num
eq_num a b = ground (arith, eq_of_parts a b)

ne_num : (a b : ℤ) → (compare_num ne a b ≡ true) ↔ (a ≢ b)
unfolding compare_num
ne_num a b = ground (arith, eq_of_parts a b)

lt_num : (a b : ℤ) → (compare_num lt a b ≡ true) ↔ ¬ (b ≤ℤ a)
unfolding compare_num
lt_num a b = ground arith

le_num : (a b : ℤ) → (compare_num le a b ≡ true) ↔ (a ≤ℤ b)
unfolding compare_num
le_num a b = ground arith

gt_num : (a b : ℤ) → (compare_num gt a b ≡ true) ↔ ¬ (a ≤ℤ b)
unfolding compare_num
gt_num a b = ground arith

ge_num : (a b : ℤ) → (compare_num ge a b ≡ true) ↔ (b ≤ℤ a)
unfolding compare_num
ge_num a b = ground arith

module _ (char_le : ℕ → ℕ → Bool) (res : Resolver) where
  -- Both sides have a number, and the numbers are in the relation.
  abbrev pub Numbers : (ℤ → ℤ → Type 0) → Operand → Operand → Type 0
  Numbers R l r = (a b : ℤ) × (lookup_num res l ≡ some a) × (lookup_num res r ≡ some b) × R a b

  -- Both sides resolve as texts, in the relation; a missing text is a value of its own.
  abbrev pub Texts : (Option CStr → Option CStr → Type 0) → Operand → Operand → Type 0
  Texts R l r =
      (x y : Option CStr) × (lookup_str res l ≡ some x) × (lookup_str res r ≡ some y) × R x y

  -- One side at least does not resolve as a text.
  abbrev pub NoTexts : Operand → Operand → Type 0
  NoTexts l r = (lookup_str res l ≡ none) ⊎ (lookup_str res r ≡ none)

  abbrev pub Globs : CStr → Operand → Type 0
  Globs s r = (p : CStr) × (operand_text r ≡ some p) × Matches (Eats char_le) p s

  abbrev pub HoldsCmp : Op → Operand → Operand → Type 0
  HoldsCmp eq l r = Texts (λ x y. x ≡ y) l r ⊎ (NoTexts l r × Numbers (λ a b. a ≡ b) l r)
  HoldsCmp ne l r = Texts (λ x y. x ≢ y) l r ⊎ (NoTexts l r × Numbers (λ a b. a ≢ b) l r)
  HoldsCmp lt l r = Numbers (λ a b. ¬ (b ≤ℤ a)) l r
  HoldsCmp le l r = Numbers (λ a b. a ≤ℤ b) l r
  HoldsCmp gt l r = Numbers (λ a b. ¬ (a ≤ℤ b)) l r
  HoldsCmp ge l r = Numbers (λ a b. b ≤ℤ a) l r
  HoldsCmp glob l r = (s : CStr) × (lookup_str res l ≡ some (some s)) × Globs s r
  HoldsCmp nglob l r = (s : CStr) × (lookup_str res l ≡ some (some s)) × ¬ Globs s r

  abbrev pub Holds : Node → Type 0
  Holds (or l r) = Holds l ⊎ Holds r
  Holds (and l r) = Holds l × Holds r
  Holds (negation n) = ¬ Holds n
  Holds (cmp op l r) = HoldsCmp op l r

  -- The texts that a pattern is tried on hold no `*`.
  abbrev PlainText : Operand → Type 0
  PlainText l = (s : CStr) → lookup_str res l ≡ some (some s) → All (λ c. c ≢ asterisk) s

  abbrev pub PlainTexts : Node → Type 0
  PlainTexts (or l r) = PlainTexts l × PlainTexts r
  PlainTexts (and l r) = PlainTexts l × PlainTexts r
  PlainTexts (negation n) = PlainTexts n
  PlainTexts (cmp op l r) = PlainText l

  abbrev Equality :
      (Option CStr → Option CStr → Type 0)
      → Type 0
      → Option (Option CStr)
      → Option (Option CStr)
      → Type 0
  Equality R N l r =
      ((x y : Option CStr) × (l ≡ some x) × (r ≡ some y) × R x y) ⊎ (((l ≡ none) ⊎ (r ≡ none)) × N)

  equality_iff :
      (wanted : Bool) (R : Option CStr → Option CStr → Type 0) (N : Type 0)
      (l r : Option (Option CStr)) (number : Bool)
      → ((x y : Option CStr) → (equality wanted (some x) (some y) number ≡ true) ↔ R x y)
      → (number ≡ true) ↔ N
      → (equality wanted l r number ≡ true) ↔ Equality R N l r
  unfolding equality
  equality_iff wanted R N none r number h g = (
    λ e. inr (inl refl, g.0 e),
    λ v. elim v [ inl (x, y, e, f, _) ↦ absurd (none≢some e) | inr (_, n) ↦ g.1 n ],
  )
  equality_iff wanted R N (some x) none number h g = (
    λ e. inr (inr refl, g.0 e),
    λ v. elim v [ inl (z, y, e, f, _) ↦ absurd (none≢some f) | inr (_, n) ↦ g.1 n ],
  )
  equality_iff wanted R N (some x) (some y) number h g = (
    λ e. inl (x, y, refl, refl, (h x y).0 e),
    λ v. elim v [
      | inl (z, w, e, f, q) ↦
          (h x y).1
            (subst (λ k. R k y) (sym (some-inj e)) (subst (λ k. R z k) (sym (some-inj f)) q))
      | inr (e, _) ↦ elim e [
        | inl n ↦ absurd (none≢some (sym n))
        | inr n ↦ absurd (none≢some (sym n))
      ]
    ],
  )

  pattern-Answers :
      (o : Option CStr) (s : CStr)
      → All (λ c. c ≢ asterisk) s
      → Answers
          ((p : CStr) × (o ≡ some p) × Matches (Eats char_le) p s)
          (glob_match char_le o (some s))
  unfolding glob_match
  pattern-Answers none s h =
      (false, refl, (λ e. absurd (false≢true e), λ (p, e, _). absurd (none≢some e)))
  pattern-Answers (some p) s h =
      Answers-iff (Matches (Eats char_le) p s) _ _ (λ m. (p, refl, m))
        (λ (q, e, m). subst (λ x. Matches (Eats char_le) x s) (sym (some-inj e)) m)
        (glob_match-Matches char_le p s h)

  glob-Answers :
      (l : Option (Option CStr)) (r : Operand) (wanted : Bool)
      → ((s : CStr) → l ≡ some (some s) → All (λ c. c ≢ asterisk) s)
      → Answers
          ((s : CStr) × (l ≡ some (some s)) × (if wanted then Globs s r else ¬ Globs s r))
          (eval_glob char_le res l r wanted)
  unfolding eval_glob
  glob-Answers none r wanted h =
      (false, refl, (λ e. absurd (false≢true e), λ (s, e, _). absurd (none≢some e)))
  glob-Answers (some none) r wanted h =
      (false, refl, (λ e. absurd (false≢true e), λ (s, e, _). absurd (none≢some (some-inj e))))
  glob-Answers (some (some s)) r true h =
      Answers-iff (Globs s r) _ _ (λ m. (s, refl, m))
        (λ (t, e, m). subst (λ x. Globs x r) (sym (some-inj (some-inj e))) m)
        (pattern-Answers (operand_text r) s (h s refl))
  glob-Answers (some (some s)) r false h =
      Answers-iff (¬ Globs s r) _ _ (λ m. (s, refl, m))
        (λ (t, e, m) g. m (subst (λ x. Globs x r) (some-inj (some-inj e)) g))
        (Answers-not (Globs s r) (glob_match char_le (operand_text r) (some s))
          (pattern-Answers (operand_text r) s (h s refl)))

  not_iff : (b : Bool) (V : Type 0) → (b ≡ true) ↔ V → (not b ≡ true) ↔ ¬ V
  not_iff true V (f, g) = (λ e. absurd (false≢true e), λ n. absurd (n (f refl)))
  not_iff false V (f, g) = (λ e v. false≢true (g v), λ n. refl)

  eq_texts : (x y : Option CStr) → (same_text x y ≡ true) ↔ (x ≡ y)
  eq_texts = same_text_iff

  ne_texts : (x y : Option CStr) → (not (same_text x y) ≡ true) ↔ (x ≢ y)
  ne_texts x y = not_iff (same_text x y) (x ≡ y) (same_text_iff x y)

  some-Answers : (V : Type 0) (b : Bool) → (b ≡ true) ↔ V → Answers V (some b)
  some-Answers V b h = (b, refl, h)

  pub cmp-Answers :
      (op : Op) (l r : Operand)
      → PlainText l
      → Answers (HoldsCmp op l r) (eval_cmp char_le res op l r)
  unfolding eval_cmp
  cmp-Answers eq l r h = some-Answers _ _ (
      equality_iff true (λ x y. x ≡ y) _ (lookup_str res l) (lookup_str res r) _ eq_texts
        (numeric-Answers eq (λ a b. a ≡ b) (lookup_num res l) (lookup_num res r) eq_num))
  cmp-Answers ne l r h = some-Answers _ _ (
      equality_iff false (λ x y. x ≢ y) _ (lookup_str res l) (lookup_str res r) _ ne_texts
        (numeric-Answers ne (λ a b. a ≢ b) (lookup_num res l) (lookup_num res r) ne_num))
  cmp-Answers lt l r h = some-Answers _ _ (numeric-Answers lt (λ a b. ¬ (b ≤ℤ a)) _ _ lt_num)
  cmp-Answers le l r h = some-Answers _ _ (numeric-Answers le (λ a b. a ≤ℤ b) _ _ le_num)
  cmp-Answers gt l r h = some-Answers _ _ (numeric-Answers gt (λ a b. ¬ (a ≤ℤ b)) _ _ gt_num)
  cmp-Answers ge l r h = some-Answers _ _ (numeric-Answers ge (λ a b. b ≤ℤ a) _ _ ge_num)
  cmp-Answers glob l r h = glob-Answers (lookup_str res l) r true h
  cmp-Answers nglob l r h = glob-Answers (lookup_str res l) r false h

  and-Answers :
      (V W : Type 0) (a b : Option Bool)
      → Answers V a
      → Answers W b
      → Answers (V × W) (elim a [ none ↦ none | some x ↦ if x then b else some false ])
  and-Answers V W a b (true, e, (f, _)) k =
      rw e (Answers-iff W (V × W) b (λ w. (f refl, w)) (λ v. v.1) k)
  and-Answers V W a b (false, e, (_, g)) k =
      rw e (false, refl, (λ h. absurd (false≢true h), λ v. absurd (false≢true (g v.0))))

  -- In every domain of values in which the texts that a comparison has on its left hold no star,
  -- the evaluation of a tree ends with 1 exactly when the tree holds: connectives as in logic,
  -- order between two numbers, equality of two texts or else of two numbers, and a glob by its
  -- pattern.
  pub eval_node-Holds :
      (n : Node)
      → PlainTexts n
      → (b : Bool) × (eval_node char_le res n ≡ some b) × ((b ≡ true) ↔ Holds n)
  unfolding eval_node
  eval_node-Holds (or l r) (h, k) =
      Answers-or (Holds l) (Holds r) (eval_node char_le res l) (eval_node char_le res r)
        (eval_node-Holds l h) (eval_node-Holds r k)
  eval_node-Holds (and l r) (h, k) =
      and-Answers (Holds l) (Holds r) (eval_node char_le res l) (eval_node char_le res r)
        (eval_node-Holds l h) (eval_node-Holds r k)
  eval_node-Holds (negation n) h =
      Answers-not (Holds n) (eval_node char_le res n) (eval_node-Holds n h)
  eval_node-Holds (cmp op l r) h = cmp-Answers op l r h
