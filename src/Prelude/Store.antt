-- ===== src/Prelude/Store.antt =====
-- Writes of several bytes into a buffer, as `memcpy` and a run of stores make them.
use Prim.Native.Nat.{ℕ, zero, suc, ◌+◌, ◌≤◌, ◌<◌}
use mathlib.Core.Path.{◌≡◌, refl, ◌∙◌}
use mathlib.Core.List.{List, [], ◌∷◌}
use native.Mathlib.Omega.{arith}
use retrace.Prelude.Lists.{length, get_or, set, length-set, get_or-set_self, get_or-set_ne}

module _ {ℓ} {A : Type ℓ} where
  -- `memcpy(buf + i, src, n)`, `src` being the `n` items.
  unfoldable pub write_at : List A → ℕ → List A → List A
  write_at buf i [] = buf
  write_at buf i (x ∷ xs) = write_at (set buf i x) (i + 1) xs

  pub length-write_at :
      (buf : List A) (i : ℕ) (src : List A) → length (write_at buf i src) ≡ length buf
  unfolding write_at
  length-write_at buf i [] = refl
  length-write_at buf i (x ∷ xs) = length-write_at (set buf i x) (i + 1) xs ∙ length-set buf i x

  pub get_or-write_at_below :
      (buf : List A) (i : ℕ) (src : List A) (j : ℕ) (d : A)
      → j < i
      → get_or (write_at buf i src) j d ≡ get_or buf j d
  unfolding write_at
  get_or-write_at_below buf i [] j d h = refl
  get_or-write_at_below buf i (x ∷ xs) j d h =
      get_or-write_at_below (set buf i x) (i + 1) xs j d (omega arith)
      ∙ get_or-set_ne buf i j x d (omega arith)

  -- The bytes stored are read back, where they fit the buffer.
  pub get_or-write_at :
      (buf : List A) (i : ℕ) (src : List A) (j : ℕ) (d : A)
      → j < length src
      → i + length src ≤ length buf
      → get_or (write_at buf i src) (i + j) d ≡ get_or src j d
  unfolding write_at
  get_or-write_at buf i [] j d h fits = absurd (omega arith)
  get_or-write_at buf i (x ∷ xs) zero d h fits =
      ground (arith, get_or-write_at_below (set buf i x) (i + 1) xs i d, get_or-set_self buf i x d)
  get_or-write_at buf i (x ∷ xs) (suc j) d h fits =
      ground (arith, get_or-write_at (set buf i x) (i + 1) xs j d, length-set buf i x)
