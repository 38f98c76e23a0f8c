-- ===== src/Prelude/Cyclic.antt =====
-- The items of a circular array, from an index on.
use Prim.Native.Nat.{ℕ, zero, suc, ◌+◌, ◌-◌, ◌%◌, ◌≤◌, ◌<◌}
use mathlib.Core.Path.{◌≡◌, refl, sym, ap, ap₂, ◌∙◌}
use mathlib.Core.Logic.{◌≢◌}
use mathlib.Core.List.{List, [], ◌∷◌, ◌++◌}
use native.Mathlib.Nat.{mod-add-mod, mod-eq_of_lt, mod-eq-sub-mod}
use native.Mathlib.Decide.{dec_lt}
use native.Mathlib.Omega.{arith}
use retrace.Prelude.Lists.{length, get_or, set, get_or-set_self, get_or-set_ne}

-- Fewer than `n` steps round an array of `n` cells do not come back to the start.
pub around-ne : (n h m : ℕ) → h < n → 0 < m → m < n → (h + m) % n ≢ h
around-ne n h m hh pos hm = elim (dec_lt (h + m) n) [
  | yes p ↦ omega (arith, mod-eq_of_lt p)
  | no p ↦ omega (
    arith,
    mod-eq-sub-mod {n = h + m} {m = n} (omega arith),
    mod-eq_of_lt {n = h + m - n} {m = n} (omega arith),
  )
]

pub around-lt : (n h m : ℕ) → h < n → (h + m) % n < n
around-lt n h m hh = grind arith

pub around-suc : (n h m : ℕ) → ((h + 1) % n + m) % n ≡ (h + suc m) % n
around-suc n h m = rw mod-add-mod (ap (λ k. k % n) (omega arith))

module _ {ℓ} {A : Type ℓ} (d : A) (cap : ℕ) where
  -- The `n` items from index `h` on, going round at `cap`.
  abbrev pub window : List A → ℕ → ℕ → List A
  window buf h zero = []
  window buf h (suc n) = get_or buf h d ∷ window buf ((h + 1) % cap) n

  pub length-window : (buf : List A) (h n : ℕ) → length (window buf h n) ≡ n
  length-window buf h zero = refl
  length-window buf h (suc n) = ap suc (length-window buf ((h + 1) % cap) n)

  pub window_snoc :
      (buf : List A) (h n : ℕ)
      → h < cap
      → window buf h (suc n) ≡ window buf h n ++ get_or buf ((h + n) % cap) d ∷ []
  window_snoc buf h zero hh =
      ap (λ k. get_or buf k d ∷ []) (sym (ap (λ k. k % cap) (omega arith) ∙ mod-eq_of_lt hh))
  window_snoc buf h (suc n) hh =
      ap (λ l. get_or buf h d ∷ l)
        (window_snoc buf ((h + 1) % cap) n (around-lt cap h 1 hh)
          ∙ ap (λ k. window buf ((h + 1) % cap) n ++ get_or buf k d ∷ []) (around-suc cap h n))

  -- A write to a cell that the window has not reached.
  pub window-set_outside :
      (buf : List A) (x : A) (n h m i : ℕ)
      → h < cap
      → n ≤ m
      → m < cap
      → i ≡ (h + m) % cap
      → window (set buf i x) h n ≡ window buf h n
  window-set_outside buf x zero h m i hh nm hm e = refl
  window-set_outside buf x (suc n) h zero i hh nm hm e = absurd (omega arith)
  window-set_outside buf x (suc n) h (suc m) i hh nm hm e =
      ap₂ ◌∷◌ (get_or-set_ne buf i h x d (rw e (around-ne cap h (suc m) hh (omega arith) hm))) (
        window-set_outside buf x n ((h + 1) % cap) m i (around-lt cap h 1 hh) (omega arith)
          (omega arith) (e ∙ sym (around-suc cap h m)))

  -- Writing the cell behind the window extends the window by that item.
  pub window-set_next :
      (buf : List A) (x : A) (n h i : ℕ)
      → cap ≤ length buf
      → h < cap
      → n < cap
      → i ≡ (h + n) % cap
      → window (set buf i x) h (suc n) ≡ window buf h n ++ x ∷ []
  window-set_next buf x n h i hs hh hn e =
      window_snoc (set buf i x) h n hh
      ∙ ap₂ (λ l y. l ++ y ∷ []) (window-set_outside buf x n h n i hh (omega arith) hn e)
          (rw (← e) (get_or-set_self buf i x d (omega (arith, around-lt cap h n hh))))

  pub window_cons :
      (buf : List A) (h n : ℕ)
      → n ≢ 0
      → window buf h n ≡ get_or buf h d ∷ window buf ((h + 1) % cap) (n - 1)
  window_cons buf h zero p = absurd (p refl)
  window_cons buf h (suc n) p = ap (λ k. window buf h (suc k)) (omega arith)
