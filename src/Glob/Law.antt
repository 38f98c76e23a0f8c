-- ===== src/Glob/Law.antt =====
-- What the step of a glob loop has to satisfy, and what follows of the texts that match.
use retrace.Prelude.{ℕ, ◌<◌, ◌≡◌, subst, ◌⊎◌, inl, inr, [], ◌∷◌, arith, CStr, length, All}
use retrace.Glob.{asterisk, Move, eat, star}
use retrace.Glob.Matching.{Matches, end, skip, take, one, Matches-Start}

-- What the step of a glob loop has to satisfy; `Plain` says which text bytes it is right for.
pub record Law (move : CStr → ℕ → Move) (Eats : CStr → ℕ → CStr → Type 0) (Plain : ℕ → Type 0)
    : Type 0 where
  pub eat_sound : (p : CStr) (c : ℕ) (q : CStr) → Plain c → move p c ≡ eat q → Eats p c q
  pub eat_complete : (p : CStr) (c : ℕ) (q : CStr) → Eats p c q → move p c ≡ eat q
  pub star_shape : (p : CStr) (c : ℕ) (q : CStr) → Plain c → move p c ≡ star q → p ≡ asterisk ∷ q
  pub star_seen : (q : CStr) (c : ℕ) → Plain c → move (asterisk ∷ q) c ≡ star q
  pub shorter : (p : CStr) (c : ℕ) (q : CStr) → Eats p c q → length q < length p
  pub same_rest : (p : CStr) (c d : ℕ) (q r : CStr) → Eats p c q → Eats p d r → q ≡ r

module _ (move : CStr → ℕ → Move) (Eats : CStr → ℕ → CStr → Type 0) (Plain : ℕ → Type 0)
    (law : Law move Eats Plain) where
  open law use {eat_sound, eat_complete, star_shape, star_seen, shorter, same_rest}

  pub no_eats : (q : CStr) (c : ℕ) (r : CStr) → Plain c → ¬ Eats (asterisk ∷ q) c r
  no_eats q c r h e = let s = star_seen q c h in let t = eat_complete (asterisk ∷ q) c r e in cc

  pub one_star :
      (q t : CStr)
      → All Plain t
      → Matches Eats (asterisk ∷ asterisk ∷ q) t
      → Matches Eats (asterisk ∷ q) t
  one_star q t h (skip m) = m
  one_star q (c ∷ t) h (take m) = take (one_star q t h.1 m)
  one_star q (c ∷ t) h (one e m) = absurd (no_eats (asterisk ∷ q) c _ h.0 e)

  -- A star at `c ∷ t` either is over, or has taken `c`.
  pub star_starts :
      (q : CStr) (c : ℕ) (t : CStr)
      → Plain c
      → Matches Eats (asterisk ∷ q) (c ∷ t)
      → Matches Eats q (c ∷ t) ⊎ Matches Eats (asterisk ∷ q) t
  star_starts q c t h (skip m) = inl m
  star_starts q c t h (take m) = inr m
  star_starts q c t h (one e m) = absurd (no_eats q c _ h e)

  pub star_at_end : (q : CStr) → Matches Eats (asterisk ∷ q) [] → Matches Eats q []
  star_at_end q (skip m) = m

  eaten_not_end : (p : CStr) (c : ℕ) (q : CStr) → Plain c → Eats p c q → ¬ Matches Eats p []
  eaten_not_end p c q hc e end = omega (arith, shorter [] c q e)
  eaten_not_end p c q hc e (skip {p = r} m) = no_eats r c q hc e

  -- What is left of `p` after a byte is found after the byte too.
  pub drop_one :
      (p : CStr) (c : ℕ) (q : CStr) (d : ℕ) (t : CStr)
      → Plain c
      → Eats p c q
      → Plain d
      → All Plain t
      → Matches Eats (asterisk ∷ p) (d ∷ t)
      → Matches Eats (asterisk ∷ q) t
  drop_one p c q d t hc e hd ht (skip m) = elim (Matches-Start Eats m) [
    | inl (r, e', m') ↦
        subst (λ x. Matches Eats (asterisk ∷ x) t) (same_rest p d c r q e' e) (skip m')
    | inr (r, s, _) ↦ absurd (no_eats r c q hc (subst (λ x. Eats x c q) s e))
  ]
  drop_one p c q d [] hc e hd ht (take m) = absurd (eaten_not_end p c q hc e (star_at_end p m))
  drop_one p c q d (x ∷ t) hc e hd ht (take m) = take (drop_one p c q x t hc e ht.0 ht.1 m)
  drop_one p c q d t hc e hd ht (one e' m) = absurd (no_eats p d _ hd e')
