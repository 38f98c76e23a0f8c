-- ===== src/FilterDsl/GlobMatch.antt =====
-- `retrace_filter_glob_match` ends, and answers whether the text matches the pattern.
use retrace.Prelude.{
  ℕ, suc, ◌+◌, ◌*◌, ◌≡◌, ◌≢◌, refl, sym, ◌∙◌, subst, ◌↔◌, inl, inr, Bool, true, false, not, ◌&&◌,
  Option, none, some, List, [], ◌∷◌, ◌==◌, if◌then◌else◌, arith, CStr, length, All, Bool-cases,
}
use retrace.Glob.{eat, star, miss, asterisk, loop, turn, retry, glob}
use retrace.Glob.Matching.{Matches, end, skip, take}
use retrace.Glob.Deciding.{glob-Matches}
use retrace.Glob.Law.{Law}
use retrace.Glob.Ending.{Shrinks, Shrinks-if, glob-ends}
use retrace.FilterDsl.GlobStep.{goes_on, escaped, after_class, class_at, move, glob_match}
use retrace.FilterDsl.Classes.{Item, member, verdict, class_of, class_at-class_of, class_of-shorter}
use retrace.FilterDsl.Element.{
  Eats, Right, move-Right, move-eat, move-star, Eats-rest, Eats-shorter,
}

module _ (char_le : ℕ → ℕ → Bool) where
  pub filter_law : Law (move char_le) (Eats char_le) (λ c. c ≢ asterisk)
  filter_law = record {
    eat_sound = λ p c q plain e. subst (Right char_le p c) e (move-Right char_le p c plain);
    eat_complete = move-eat char_le;
    star_shape = λ p c q plain e. subst (Right char_le p c) e (move-Right char_le p c plain);
    star_seen = move-star char_le;
    shorter = Eats-shorter char_le;
    same_rest = λ p c d q r e f. Eats-rest char_le p c q e ∙ sym (Eats-rest char_le p d r f);
  }

  -- On a text without a star, the glob matcher ends, and answers 1 exactly when the text matches
  -- the pattern.
  pub glob_match-Matches :
      (p t : CStr)
      → All (λ c. c ≢ asterisk) t
      → (b : Bool) × (glob_match char_le (some p) (some t) ≡ some b)
        × ((b ≡ true) ↔ Matches (Eats char_le) p t)
  unfolding glob_match
  glob_match-Matches p t h =
      glob-Matches (move char_le) (Eats char_le) (λ c. c ≢ asterisk) (filter_law) p t h

  escaped-Shrinks : (x : ℕ) (p : CStr) (c : ℕ) → Shrinks (x ∷ p) (escaped p c)
  unfolding escaped
  escaped-Shrinks x [] c = tt
  escaped-Shrinks x (e ∷ p) c = Shrinks-if (x ∷ e ∷ p) (c == e) (eat p) miss (omega arith) tt

  after-Shrinks :
      (x : ℕ) (p : CStr) (c : ℕ) (r : Option (Bool × List Item × CStr))
      → class_of p ≡ r
      → Shrinks (x ∷ p) (after_class (verdict char_le c r) p c)
  unfolding after_class
  after-Shrinks x p c none e = Shrinks-if (x ∷ p) (c == b'[') (eat p) miss (omega arith) tt
  after-Shrinks x p c (some (neg, l, q)) e =
      elim (Bool-cases (if neg then not (member char_le c l) else member char_le c l)) [
        | inl m ↦ rw m (omega (arith, class_of-shorter p neg l q e))
        | inr m ↦ rw m tt
      ]

  pub move-Shrinks : (p : CStr) (c : ℕ) → Shrinks p (move char_le p c)
  unfolding move
  move-Shrinks [] c = tt
  move-Shrinks (x ∷ p) c = Shrinks-if (x ∷ p) (x == b'?') (eat p) _ (omega arith) (
      Shrinks-if (x ∷ p) (x == b'\\' && goes_on p) _ _ (escaped-Shrinks x p c) (
        Shrinks-if (x ∷ p) (x == b'[') (after_class (class_at char_le c p) p c) _
          (subst (λ r. Shrinks (x ∷ p) (after_class r p c)) (sym (class_at-class_of char_le c p))
            (after-Shrinks x p c (class_of p) refl))
          (Shrinks-if (x ∷ p) (x == c) (eat p) _ (omega arith)
            (Shrinks-if (x ∷ p) (x == asterisk) (star p) miss (omega arith) tt))))

  -- The glob matcher ends on every pattern and every text.
  pub glob_match-ends : (p t : CStr) → (b : Bool) × (glob_match char_le (some p) (some t) ≡ some b)
  unfolding glob_match
  glob_match-ends p t = glob-ends (move char_le) move-Shrinks p t

  star-Matches : (t : CStr) → Matches (Eats char_le) (asterisk ∷ []) t
  star-Matches [] = skip end
  star-Matches (c ∷ t) = take (star-Matches t)

  -- The first byte of the text is taken for the star, and nothing of the pattern is left.
  two_rounds :
      (f x : ℕ) (t : CStr)
      → loop (move char_le) (suc (suc f)) (asterisk ∷ []) (asterisk ∷ x ∷ t) none ≡ some false
  unfolding loop move turn retry goes_on
  two_rounds f x t = refl

  -- The pattern `*` is refused for every text of two bytes or more that starts with a star,
  -- although every text matches it.
  pub glob_match-star :
      (x : ℕ) (t : CStr)
      → (glob_match char_le (some (asterisk ∷ [])) (some (asterisk ∷ x ∷ t)) ≡ some false)
        × Matches (Eats char_le) (asterisk ∷ []) (asterisk ∷ x ∷ t)
  unfolding glob_match glob
  glob_match-star x t =
      let fuel : (suc (suc (length t)) + 1) * (1 + 1) ≡ suc (suc (length t * 2 + 4)) =
        omega arith in
      (rw fuel (two_rounds (length t * 2 + 4) x t), star-Matches (asterisk ∷ x ∷ t))
