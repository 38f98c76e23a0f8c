-- ===== src/Redact/Tokens.antt =====
-- What `retrace_redact_apply` leaves of a text: it ends, the text does not grow, and unless the budget
-- is used up no token that matches a pattern is left.
use mathlib.Core.Bool.{false≢true}
use retrace.Prelude.{
  ℕ, zero, suc, ◌+◌, ◌-◌, ◌≤◌, ◌<◌, ◌≡◌, refl, sym, ap, ◌∙◌, subst, ◌↔◌, inl, inr, Bool, true,
  false, not, Option, none, some, List, [], ◌∷◌, ◌++◌, ltb, ◌==◌, if◌then◌else◌, arith, CStr,
  length, length-append, replicate, length-replicate, All, Bool-cases,
}
use retrace.Redact.{
  is_token_char, token, after_token, stars, behind, replace, apply_loop, active, apply,
  replacements_max,
}
use retrace.Redact.Wildcards.{Hit, is_hit-Hit}

abbrev IsToken : CStr → Type 0
IsToken = All (λ c. is_token_char c ≡ true)

-- The text does not go on with a token.
abbrev pub Stops : CStr → Type 0
Stops [] = Unit {0}
Stops (c ∷ s) = is_token_char c ≡ false

-- No token of the text matches a pattern.
module _ (pats : List CStr) where
  pub data Clean : CStr → Type 0 where
    end : Clean []
    other : {c : ℕ} {s : CStr} → is_token_char c ≡ false → Clean s → Clean (c ∷ s)
    word : (tok s : CStr) → IsToken tok → Stops s → ¬ Hit pats tok → Clean s → Clean (tok ++ s)

  token-split : (s : CStr) → s ≡ token s ++ after_token s
  unfolding token after_token
  token-split [] = refl
  token-split (c ∷ s) = elim (Bool-cases (is_token_char c)) [
    | inl e ↦ rw e (ap (λ t. c ∷ t) (token-split s))
    | inr e ↦ rw e refl
  ]

  token-IsToken : (s : CStr) → IsToken (token s)
  unfolding token
  token-IsToken [] = tt
  token-IsToken (c ∷ s) = elim (Bool-cases (is_token_char c)) [
    | inl e ↦ rw e (e, token-IsToken s)
    | inr e ↦ rw e tt
  ]

  after_token-Stops : (s : CStr) → Stops (after_token s)
  unfolding after_token
  after_token-Stops [] = tt
  after_token-Stops (c ∷ s) = elim (Bool-cases (is_token_char c)) [
    | inl e ↦ rw e (after_token-Stops s)
    | inr e ↦ rw e e
  ]

  token_pos : (c : ℕ) (s : CStr) → is_token_char c ≡ true → 1 ≤ length (token (c ∷ s))
  unfolding token
  token_pos c s e = rw e (omega arith)

  stars-Clean : (n : ℕ) (s : CStr) → Clean s → Clean (replicate n b'*' ++ s)
  unfolding is_token_char
  stars-Clean zero s h = h
  stars-Clean (suc n) s h = other refl (stars-Clean n s h)

  starred : (tok s : CStr) → Clean s → Clean (stars tok ++ s)
  unfolding stars
  starred tok s h = stars-Clean _ s h

  stars-le : (tok : CStr) → length (stars tok) ≤ length tok
  unfolding stars
  stars-le tok = elim (Bool-cases (ltb (length tok) 3)) [
    | inl e ↦ rw (e, length-replicate {A = ℕ} (length tok) b'*') (omega arith)
    | inr e ↦ rw e (ground arith)
  ]

  -- The outcome on the text `s`.
  abbrev Done : CStr → Option (CStr × ℕ) → Type 0
  Done s none = ⊥
  Done s (some (t, left)) = (length t ≤ length s) × (Stops s → Stops t) × ((0 < left) → Clean t)

  passed-Done :
      (c : ℕ) (s : CStr) (r : Option (CStr × ℕ))
      → is_token_char c ≡ false
      → Done s r
      → Done (c ∷ s) (behind (c ∷ []) r)
  passed-Done c s none e h = h
  passed-Done c s (some (t, left)) e (a, b, d) = (omega arith, λ _. e, λ p. other e (d p))

  lengths :
      (c : ℕ) (s tok rest : CStr) → c ∷ s ≡ tok ++ rest → length tok + length rest ≡ length s + 1
  lengths c s tok rest e = omega (arith, ap length e, length-append tok rest)

  hit-Done :
      (c : ℕ) (s tok rest : CStr) (r : Option (CStr × ℕ))
      → is_token_char c ≡ true
      → c ∷ s ≡ tok ++ rest
      → Done rest r
      → Done (c ∷ s) (behind (stars tok) r)
  hit-Done c s tok rest none k e h = h
  hit-Done c s tok rest (some (t, left)) k e (a, b, d) = (
    omega (arith, stars-le tok, lengths c s tok rest e, length-append (stars tok) t),
    λ z. absurd (false≢true (sym z ∙ k)),
    λ p. starred tok t (d p),
  )

  kept-Done :
      (c : ℕ) (s tok rest : CStr) (r : Option (CStr × ℕ))
      → is_token_char c ≡ true
      → c ∷ s ≡ tok ++ rest
      → IsToken tok
      → Stops rest
      → ¬ Hit pats tok
      → Done rest r
      → Done (c ∷ s) (behind tok r)
  kept-Done c s tok rest none k e i st n h = h
  kept-Done c s tok rest (some (t, left)) k e i st n (a, b, d) = (
    omega (arith, lengths c s tok rest e, length-append tok t),
    λ z. absurd (false≢true (sym z ∙ k)),
    λ p. word tok t i (b st) n (d p),
  )

  replace-Done :
      (c budget : ℕ) (s : CStr) (next : ℕ → Option (CStr × ℕ)) (b : Bool)
      → is_token_char c ≡ true
      → ((b ≡ true) ↔ Hit pats (token (c ∷ s)))
      → ((n : ℕ) → Done (after_token (c ∷ s)) (next n))
      → Done (c ∷ s) (replace pats (some b) (token (c ∷ s)) next budget)
  unfolding replace
  replace-Done c budget s next true k iff h =
      hit-Done c s (token (c ∷ s)) (after_token (c ∷ s)) (next (budget - 1)) k (token-split (c ∷ s))
        (h (budget - 1))
  replace-Done c budget s next false k iff h =
      kept-Done c s (token (c ∷ s)) (after_token (c ∷ s)) (next budget) k (token-split (c ∷ s))
        (token-IsToken (c ∷ s)) (after_token-Stops (c ∷ s)) (λ t. false≢true (iff.1 t)) (h budget)

  Done-if :
      (s : CStr) (b : Bool) (x y : Option (CStr × ℕ))
      → ((b ≡ true) → Done s x)
      → ((b ≡ false) → Done s y)
      → Done s (if b then x else y)
  Done-if s true x y f g = f refl
  Done-if s false x y f g = g refl

  zero_left : (n : ℕ) → (n == 0) ≡ true → ¬ (0 < n)
  zero_left n e h = ground arith

  not-false : (b : Bool) → not b ≡ true → b ≡ false
  not-false true e = sym e
  not-false false e = refl

  not-true : (b : Bool) → not b ≡ false → b ≡ true
  not-true true e = refl
  not-true false e = sym e

  after_token-lt :
      (c : ℕ) (s : CStr) → is_token_char c ≡ true → length (after_token (c ∷ s)) ≤ length s
  after_token-lt c s k = omega (
    arith,
    lengths c s (token (c ∷ s)) (after_token (c ∷ s)) (token-split (c ∷ s)),
    token_pos c s k,
  )

  apply_loop-Done : (f budget : ℕ) (s : CStr) → length s < f → Done s (apply_loop pats f budget s)
  unfolding apply_loop
  apply_loop-Done zero budget s h = absurd (omega arith)
  apply_loop-Done (suc f) budget [] h = (omega arith, λ z. tt, λ p. end)
  apply_loop-Done (suc f) budget (c ∷ s) h =
      Done-if (c ∷ s) (budget == 0) (some (c ∷ s, budget)) _
        (λ z. (omega arith, λ q. q, λ p. absurd (zero_left budget z p)))
        λ _.
          Done-if (c ∷ s) (not (is_token_char c)) (behind (c ∷ []) (apply_loop pats f budget s)) _
            (λ k. passed-Done c s _ (not-false _ k) (apply_loop-Done f budget s (omega arith)))
            λ k.
              let word_at = not-true (is_token_char c) k in
              let (b, e, iff) = is_hit-Hit pats (token (c ∷ s)) in
              subst
                (λ r. Done (c ∷ s) (
                  replace pats r (token (c ∷ s)) (λ n. apply_loop pats f n (after_token (c ∷ s)))
                    budget))
                (sym e)
                (replace-Done c budget s (λ n. apply_loop pats f n (after_token (c ∷ s))) b word_at
                  iff
                  (λ n.
                    apply_loop-Done f n (after_token (c ∷ s))
                      (omega (arith, after_token-lt c s word_at))))

  -- Where nothing is a hit, every text is clean.
  nothing-Hit : ((tok : CStr) → ¬ Hit pats tok) → (n : ℕ) (s : CStr) → length s < n → Clean s
  nothing-Hit h zero s l = absurd (omega arith)
  nothing-Hit h (suc n) [] l = end
  nothing-Hit h (suc n) (c ∷ s) l = elim (Bool-cases (is_token_char c)) [
    | inl k ↦ subst Clean (sym (token-split (c ∷ s))) (
        word (token (c ∷ s)) (after_token (c ∷ s)) (token-IsToken (c ∷ s))
          (after_token-Stops (c ∷ s)) (h (token (c ∷ s)))
          (nothing-Hit h n (after_token (c ∷ s)) (omega (arith, after_token-lt c s k))))
    | inr k ↦ other k (nothing-Hit h n s (omega arith))
  ]

  abbrev Redacted : CStr → Option (CStr × ℕ) → Type 0
  Redacted s r =
      (t : CStr) × (left : ℕ) × (r ≡ some (t, left))
      × (length t ≤ length s)
      × ((0 < left) → Clean t)

  Done-Redacted : (s : CStr) (r : Option (CStr × ℕ)) → Done s r → Redacted s r
  Done-Redacted s none d = absurd d
  Done-Redacted s (some (t, left)) (a, b, d) = (t, left, refl, a, d)

-- The redaction of a text ends and leaves no longer text, and unless all 64 replacements are used
-- up, no token of the text that it leaves matches a pattern.
pub apply-Clean :
    (pats : List CStr) (s : CStr)
    → (t : CStr) × (left : ℕ) × (apply pats s ≡ some (t, left))
      × (length t ≤ length s)
      × ((0 < left) → Clean pats t)
unfolding apply active
apply-Clean [] s = (
  s,
  replacements_max,
  refl,
  omega arith,
  λ _. nothing-Hit [] (λ tok h. h) (length s + 1) s (omega arith),
)
apply-Clean (p ∷ pats) s =
    Done-Redacted (p ∷ pats) s (apply_loop (p ∷ pats) (length s + 1) replacements_max s)
      (apply_loop-Done (p ∷ pats) (length s + 1) replacements_max s (omega arith))
