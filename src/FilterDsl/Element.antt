-- ===== src/FilterDsl/Element.antt =====
-- The elements of a pattern of the filter language, apart from the star, and that the step of
-- `retrace_filter_glob_match` is right about them.
use mathlib.Core.Bool.{false≢true}
use retrace.Prelude.{
  ℕ, ◌<◌, ◌≡◌, ◌≢◌, refl, sym, ap, ◌∙◌, subst, inl, inr, Bool, true, false, ◌&&◌, Option, none,
  some, List, [], ◌∷◌, ◌==◌, if◌then◌else◌, arith, CStr, length, Bool-cases, ==_iff,
}
use retrace.Glob.{Move, eat, star, miss, asterisk}
use retrace.FilterDsl.GlobStep.{goes_on, escaped, after_class, class_at, move}
use retrace.FilterDsl.Classes.{
  Item, Member, member, member_iff, verdict, class_of, class_at-class_of, class_of-shorter,
}

-- A byte that stands for itself: no `?`, `[` or `*`, and a backslash only at the end.
abbrev pub Ordinary : ℕ → CStr → Type 0
Ordinary c p = (c ≢ b'?') × (c ≢ b'[') × (c ≢ asterisk) × ((c ≡ b'\\') → p ≡ [])

module _ (char_le : ℕ → ℕ → Bool) where
  pub data Eats : CStr → ℕ → CStr → Type 0 where
    any : {c : ℕ} {p : CStr} → Eats (b'?' ∷ p) c p
    quoted : {c : ℕ} {p : CStr} → Eats (b'\\' ∷ c ∷ p) c p
    listed :
        {c : ℕ} {p q : CStr} {l : List Item}
        → class_of p ≡ some (false, l, q)
        → Member char_le c l
        → Eats (b'[' ∷ p) c q
    unlisted :
        {c : ℕ} {p q : CStr} {l : List Item}
        → class_of p ≡ some (true, l, q)
        → ¬ Member char_le c l
        → Eats (b'[' ∷ p) c q
    bracket : {p : CStr} → class_of p ≡ none → Eats (b'[' ∷ p) b'[' p
    same : {c : ℕ} {p : CStr} → Ordinary c p → Eats (c ∷ p) c p

  -- What follows the first element, which does not depend on the text.
  class_rest : Option (Bool × List Item × CStr) → CStr → CStr
  class_rest none p = p
  class_rest (some (neg, l, q)) p = q

  tail : CStr → CStr
  tail [] = []
  tail (x ∷ p) = p

  pub rest : CStr → CStr
  unfolding class_rest tail
  rest [] = []
  rest (x ∷ p) =
      if x == b'[' then class_rest (class_of p) p else if x == b'\\' && goes_on p then tail p else p

  unquoted : (c x : ℕ) (p : CStr) → ((c ≡ b'\\') → x ∷ p ≡ []) → (c == b'\\') ≡ false
  unquoted c x p h = let n : c ≢ b'\\' = λ e. let z : x ∷ p ≡ [] = h e in cc in ground arith

  pub Eats-rest : (p : CStr) (c : ℕ) (q : CStr) → Eats p c q → q ≡ rest p
  unfolding rest goes_on
  Eats-rest p c q any = refl
  Eats-rest p c q quoted = refl
  Eats-rest p c q (listed {p = p'} e m) = rw e refl
  Eats-rest p c q (unlisted {p = p'} e m) = rw e refl
  Eats-rest p c q (bracket {p = p'} e) = rw e refl
  Eats-rest p c q (same {p = []} (a, b, d, e)) = ground arith
  Eats-rest p c q (same {p = x ∷ p'} (a, b, d, e)) =
      let not_bracket : (c == b'[') ≡ false = ground arith in
      let not_quote : (c == b'\\') ≡ false = unquoted c x p' e in rw (not_bracket, not_quote) refl

  pub Eats-shorter : (p : CStr) (c : ℕ) (q : CStr) → Eats p c q → length q < length p
  Eats-shorter p c q any = omega arith
  Eats-shorter p c q quoted = omega arith
  Eats-shorter p c q (listed {p = p'} {l} e m) = omega (arith, class_of-shorter p' false l q e)
  Eats-shorter p c q (unlisted {p = p'} {l} e m) = omega (arith, class_of-shorter p' true l q e)
  Eats-shorter p c q (bracket e) = omega arith
  Eats-shorter p c q (same o) = omega arith

  ne_test : (a b : ℕ) → a ≢ b → (a == b) ≡ false
  ne_test a b h = ground arith

  eq_test : (a : ℕ) → (a == a) ≡ true
  eq_test a = ground arith

  outside_test : (c : ℕ) (l : List Item) → ¬ Member char_le c l → member char_le c l ≡ false
  outside_test c l h = elim (Bool-cases (member char_le c l)) [
    | inl e ↦ absurd (h ((member_iff char_le c l).0 e))
    | inr e ↦ e
  ]

  pub move-eat : (p : CStr) (c : ℕ) (q : CStr) → Eats p c q → move char_le p c ≡ eat q
  unfolding move escaped goes_on after_class
  move-eat p c q any = refl
  move-eat p c q quoted = ground arith
  move-eat p c q (listed {p = p'} {l} e m) =
      let inside : member char_le c l ≡ true = (member_iff char_le c l).1 m in
      rw (class_at-class_of char_le c p', e, inside) refl
  move-eat p c q (unlisted {p = p'} {l} e m) =
      let outside : member char_le c l ≡ false = outside_test c l m in
      rw (class_at-class_of char_le c p', e, outside) refl
  move-eat p c q (bracket {p = p'} e) = rw (class_at-class_of char_le b'[' p', e) refl
  move-eat p c q (same {p = []} (a, b, d, e)) =
      rw (ne_test c b'?' a, ne_test c b'[' b, eq_test c) (ground arith)
  move-eat p c q (same {p = x ∷ p'} (a, b, d, e)) =
      rw (ne_test c b'?' a, ne_test c b'[' b, unquoted c x p' e, eq_test c) refl

  -- What a step says of the pattern.
  abbrev pub Right : CStr → ℕ → Move → Type 0
  Right p c (eat q) = Eats p c q
  Right p c (star q) = p ≡ asterisk ∷ q
  Right p c miss = Unit {0}

  Right-if :
      (p : CStr) (c : ℕ) (b : Bool) (x y : Move)
      → ((b ≡ true) → Right p c x)
      → ((b ≡ false) → Right p c y)
      → Right p c (if b then x else y)
  Right-if p c true x y f g = f refl
  Right-if p c false x y f g = g refl

  escaped-Right : (p : CStr) (c : ℕ) → Right (b'\\' ∷ p) c (escaped p c)
  unfolding escaped
  escaped-Right [] c = tt
  escaped-Right (e ∷ p) c =
      Right-if (b'\\' ∷ e ∷ p) c (c == e) (eat p) miss
        (λ h. subst (λ y. Eats (b'\\' ∷ y ∷ p) c p) ((==_iff c e).0 h) quoted) (λ _. tt)

  after-Right :
      (p : CStr) (c : ℕ) (r : Option (Bool × List Item × CStr))
      → class_of p ≡ r
      → Right (b'[' ∷ p) c (after_class (verdict char_le c r) p c)
  unfolding after_class
  after-Right p c none e =
      Right-if (b'[' ∷ p) c (c == b'[') (eat p) miss
        (λ h. subst (λ y. Eats (b'[' ∷ p) y p) (sym ((==_iff c b'[').0 h)) (bracket e)) (λ _. tt)
  after-Right p c (some (true, l, q)) e = elim (Bool-cases (member char_le c l)) [
    | inl m ↦ rw m tt
    | inr m ↦ rw m (unlisted e (λ i. false≢true (sym m ∙ (member_iff char_le c l).1 i)))
  ]
  after-Right p c (some (false, l, q)) e = elim (Bool-cases (member char_le c l)) [
    | inl m ↦ rw m (listed e ((member_iff char_le c l).0 m))
    | inr m ↦ rw m tt
  ]

  -- With the first byte known.
  Right-head :
      (x y : ℕ) (p : CStr) (c : ℕ) (m : Move)
      → (x == y) ≡ true
      → Right (y ∷ p) c m
      → Right (x ∷ p) c m
  Right-head x y p c m e = subst (λ z. Right (z ∷ p) c m) (sym ((==_iff x y).0 e))

  only_at_end : (x : ℕ) (p : CStr) → (x == b'\\' && goes_on p) ≡ false → (x ≡ b'\\') → p ≡ []
  unfolding goes_on
  only_at_end x [] h e = refl
  only_at_end x (y ∷ p) h e = absurd (ground arith)

  and_left : (a b : Bool) → (a && b) ≡ true → a ≡ true
  and_left true b h = refl
  and_left false b h = h

  pub move-Right : (p : CStr) (c : ℕ) → c ≢ asterisk → Right p c (move char_le p c)
  unfolding move
  move-Right [] c plain = tt
  move-Right (x ∷ p) c plain =
      Right-if (x ∷ p) c (x == b'?') (eat p) _ (λ e. Right-head x b'?' p c (eat p) e any)
        λ mark.
          Right-if (x ∷ p) c (x == b'\\' && goes_on p) (escaped p c) _
            (λ e. Right-head x b'\\' p c (escaped p c) (and_left _ _ e) (escaped-Right p c))
            λ quote.
              Right-if (x ∷ p) c (x == b'[') (after_class (class_at char_le c p) p c) _
                (λ e. Right-head x b'[' p c _ e (
                  subst (λ r. Right (b'[' ∷ p) c (after_class r p c))
                    (sym (class_at-class_of char_le c p)) (after-Right p c (class_of p) refl)))
                λ open_class.
                  Right-if (x ∷ p) c (x == c) (eat p) _
                    (λ e.
                      let x_is : x ≡ c = (==_iff x c).0 e in
                      subst (λ z. Eats (z ∷ p) c p) (sym x_is)
                        (same (
                          subst (λ z. Ordinary z p) x_is
                            (
                              ground arith,
                              ground arith,
                              subst (λ z. z ≢ asterisk) (sym x_is) plain,
                              only_at_end x p quote,
                            ))))
                    λ differs.
                      Right-if (x ∷ p) c (x == asterisk) (star p) miss
                        (λ e. ap (λ z. z ∷ p) ((==_iff x asterisk).0 e)) (λ _. tt)

  pub move-star : (q : CStr) (c : ℕ) → c ≢ asterisk → move char_le (asterisk ∷ q) c ≡ star q
  unfolding move
  move-star q c h = ground arith
