-- ===== src/Glob/Matching.antt =====
-- When a text matches a glob pattern: a star takes any run, and every other element one byte.
use mathlib.Core.Bool.{false≢true}
use retrace.Prelude.{ℕ, ◌≡◌, refl, ◌⊎◌, inl, inr, true, [], ◌∷◌, ◌==◌, arith, CStr, Bool-cases}
use retrace.Glob.{asterisk, only_stars}

-- `Eats p c q`: the first element of `p` accepts the byte `c` and leaves the pattern `q`.
module _ (Eats : CStr → ℕ → CStr → Type 0) where
  pub data Matches : CStr → CStr → Type 0 where
    end : Matches [] []
    skip : {p t : CStr} → Matches p t → Matches (asterisk ∷ p) t
    take : {p t : CStr} {c : ℕ} → Matches (asterisk ∷ p) t → Matches (asterisk ∷ p) (c ∷ t)
    one : {p q t : CStr} {c : ℕ} → Eats p c q → Matches q t → Matches p (c ∷ t)

  -- What a match of `p` at `c ∷ t` begins with.
  abbrev Start : CStr → ℕ → CStr → Type 0
  Start p c t =
      ((q : CStr) × Eats p c q × Matches q t)
      ⊎ ((q : CStr) × (p ≡ asterisk ∷ q) × (Matches q (c ∷ t) ⊎ Matches p t))

  pub Matches-Start : {p t : CStr} {c : ℕ} → Matches p (c ∷ t) → Start p c t
  Matches-Start (skip {p} m) = inr (p, refl, inl m)
  Matches-Start (take {p} m) = inr (p, refl, inr m)
  Matches-Start (one {q} e m) = inl (q, e, m)

  pub only_stars-Matches : (p : CStr) → only_stars p ≡ true → Matches p []
  unfolding only_stars
  only_stars-Matches [] h = end
  only_stars-Matches (c ∷ p) h = elim (Bool-cases (c == asterisk)) [
    | inl e ↦
        let is_star : c ≡ asterisk = ground arith in
        rw is_star (skip (only_stars-Matches p (rw e at h)))
    | inr e ↦ absurd (false≢true (rw e at h))
  ]

  pub Matches-only_stars : {p : CStr} → Matches p [] → only_stars p ≡ true
  unfolding only_stars
  Matches-only_stars end = refl
  Matches-only_stars (skip m) = Matches-only_stars m
