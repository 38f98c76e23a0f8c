-- ===== src/Glob/Ending.antt =====
-- The glob loop ends on every pattern and text, because a step shortens the pattern or the text that
-- the saved star has left.
use retrace.Prelude.{
  ℕ, zero, suc, ◌+◌, ◌*◌, ◌≤◌, ◌<◌, ◌≡◌, refl, Bool, true, false, Option, none, some, [], ◌∷◌,
  arith, CStr, length, if◌then◌else◌,
}
use retrace.Glob.{Move, eat, star, miss, Saved, Round, retry, only_stars, turn, loop, glob}

-- What a step leaves of the pattern is shorter.
abbrev pub Shrinks : CStr → Move → Type 0
Shrinks p (eat q) = length q < length p
Shrinks p (star q) = length q < length p
Shrinks p miss = Unit {0}

pub Shrinks-if :
    (p : CStr) (b : Bool) (x y : Move) → Shrinks p x → Shrinks p y → Shrinks p (if b then x else y)
Shrinks-if p true x y h g = h
Shrinks-if p false x y h g = g

abbrev Ends : Option Bool → Type 0
Ends r = (b : Bool) × (r ≡ some b)

-- The saved star has no less text than is left, and a pattern below the bound.
abbrev Fits : ℕ → ℕ → CStr → Saved → Type 0
Fits k m t none = Unit {0}
Fits k m t (some (bp, bt)) = (length t ≤ length bt) × (length bt ≤ m) × (length bp < k)

Fits-tail : (k m c : ℕ) (t : CStr) (saved : Saved) → Fits k m (c ∷ t) saved → Fits k m t saved
Fits-tail k m c t none h = tt
Fits-tail k m c t (some (bp, bt)) (a, b, d) = (omega arith, b, d)

module _ (move : CStr → ℕ → Move) (shrinks : (p : CStr) (c : ℕ) → Shrinks p (move p c))
    (k : ℕ) where
  abbrev Ready : ℕ → ℕ → CStr → CStr → Saved → Type 0
  Ready f m p t saved = Fits k m t saved × (length t ≤ m) × (length p < k) × (m * k + length p < f)

  module _ (f : ℕ) (next : Round)
      (ih : (m : ℕ) (p t : CStr) (saved : Saved)
        → Ready f m p t saved
        → Ends (next p t saved)) where
    retry-Ends :
        (m : ℕ) (p : CStr) (c : ℕ) (t : CStr) (saved : Saved)
        → Ready (suc f) m p (c ∷ t) saved
        → Ends (retry saved next)
    unfolding retry
    retry-Ends m p c t none r = (false, refl)
    retry-Ends m p c t (some (bp, [])) ((a, _, _), _, _, _) = absurd (omega arith)
    retry-Ends zero p c t (some (bp, x ∷ bt)) ((a, b, d), e, g, fuel) = absurd (omega arith)
    retry-Ends (suc m) p c t (some (bp, x ∷ bt)) ((a, b, d), e, g, fuel) =
        ih m bp bt (some (bp, bt)) ((omega arith, omega arith, d), omega arith, d, omega arith)

    turn-Ends :
        (m : ℕ) (p : CStr) (c : ℕ) (t : CStr) (saved : Saved) (s : Move)
        → Shrinks p s
        → Ready (suc f) m p (c ∷ t) saved
        → Ends (turn s (c ∷ t) t saved next)
    unfolding turn
    turn-Ends m p c t saved (eat q) h (a, b, d, e) =
        ih m q t saved (Fits-tail k m c t saved a, omega arith, omega arith, omega arith)
    turn-Ends m p c t saved (star q) h (a, b, d, e) =
        ih m q (c ∷ t) (some (q, c ∷ t))
          ((omega arith, b, omega arith), b, omega arith, omega arith)
    turn-Ends m p c t saved miss h r = retry-Ends m p c t saved r

  loop-Ends :
      (f m : ℕ) (p t : CStr) (saved : Saved) → Ready f m p t saved → Ends (loop move f p t saved)
  unfolding loop
  loop-Ends zero m p t saved (a, b, d, e) = absurd (omega arith)
  loop-Ends (suc f) m p [] saved r = (only_stars p, refl)
  loop-Ends (suc f) m p (c ∷ t) saved r =
      turn-Ends f (loop move f) (loop-Ends f) m p c t saved (move p c) (shrinks p c) r

pub glob-ends :
    (move : CStr → ℕ → Move)
    → ((p : CStr) (c : ℕ) → Shrinks p (move p c))
    → (p t : CStr) → (b : Bool) × (glob move p t ≡ some b)
unfolding glob
glob-ends move shrinks p t =
    loop-Ends move shrinks (length p + 1) _ (length t) p t none
      (tt, omega arith, omega arith, omega arith)
