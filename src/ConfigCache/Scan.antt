-- ===== src/ConfigCache/Scan.antt =====
-- The scan of the script list as its entries are appended, and the empty cells of a table.
use retrace.Prelude.{
  ℕ, zero, suc, ◌+◌, ◌<◌, ◌≡◌, refl, ap, false, Option, none, some, List, [], ◌∷◌, ◌++◌, arith,
  length, get_or, set, replicate, CStr, str_eq, Bool-cases, inl, inr, if◌then◌else◌,
}
use retrace.ConfigCache.{start, find_empty, name_of, script_of, scan, fill}

pub zeros : List ℕ → ℕ
zeros [] = 0
zeros (zero ∷ t) = suc (zeros t)
zeros (suc _ ∷ t) = zeros t

pub zeros-replicate : (n : ℕ) → zeros (replicate n 0) ≡ n
unfolding zeros
zeros-replicate zero = refl
zeros-replicate (suc n) = ap suc (zeros-replicate n)

pub zeros-set :
    (t : List ℕ) (p v : ℕ) → p < length t → get_or t p 0 ≡ 0 → zeros (set t p (suc v)) + 1 ≡ zeros t
unfolding zeros
zeros-set [] p v h e = absurd (omega arith)
zeros-set (zero ∷ t) zero v h e = omega arith
zeros-set (suc c ∷ t) zero v h e = absurd (omega arith)
zeros-set (zero ∷ t) (suc p) v h e = omega (arith, zeros-set t p v (omega arith) e)
zeros-set (suc c ∷ t) (suc p) v h e = zeros-set t p v (omega arith) e

pub empty_cell : (t : List ℕ) → 0 < zeros t → (j : ℕ) × (j < length t) × (get_or t j 0 ≡ 0)
unfolding zeros
empty_cell [] h = absurd (omega arith)
empty_cell (zero ∷ t) h = (0, omega arith, refl)
empty_cell (suc c ∷ t) h = let (j, p, e) = empty_cell t h in (suc j, omega arith, e)

module _ {ℓ} {A : Type ℓ} where
  pub name_of-append :
      (pre suf : List (CStr × A)) (y : CStr) (s : A)
      → name_of (pre ++ (y, s) ∷ suf) (length pre) ≡ y
  name_of-append [] suf y s = refl
  name_of-append ((z, r) ∷ pre) suf y s = name_of-append pre suf y s

  pub script_of-append :
      (pre suf : List (CStr × A)) (y : CStr) (s : A)
      → script_of (pre ++ (y, s) ∷ suf) (length pre) ≡ some s
  script_of-append [] suf y s = refl
  script_of-append ((z, r) ∷ pre) suf y s = script_of-append pre suf y s

  abbrev pub or_else : Option A → Option A → Option A
  or_else none b = b
  or_else (some a) b = some a

  pub scan-snoc :
      (pre : List (CStr × A)) (y : CStr) (s : A) (x : CStr)
      → scan (pre ++ (y, s) ∷ []) x ≡ or_else (scan pre x) (if str_eq y x then some s else none)
  unfolding scan
  scan-snoc [] y s x = refl
  scan-snoc ((z, r) ∷ pre) y s x = elim (Bool-cases (str_eq z x)) [
    | inl e ↦ rw e refl
    | inr e ↦ rw e (scan-snoc pre y s x)
  ]

  pub scan-none :
      (pre suf : List (CStr × A)) (x : CStr) (j : ℕ)
      → scan pre x ≡ none
      → j < length pre
      → str_eq (name_of (pre ++ suf) j) x ≡ false
  unfolding scan
  scan-none [] suf x j h p = absurd (omega arith)
  scan-none ((z, r) ∷ pre) suf x zero h p = elim (Bool-cases (str_eq z x)) [
    | inl e ↦ ground arith
    | inr e ↦ e
  ]
  scan-none ((z, r) ∷ pre) suf x (suc j) h p = elim (Bool-cases (str_eq z x)) [
    | inl e ↦ ground arith
    | inr e ↦ scan-none pre suf x j (ground arith) (omega arith)
  ]

  pub fill_cons :
      (y : CStr) (s : A) (suf : List (CStr × A)) (nb i : ℕ) (t : List ℕ) (p : ℕ)
      → find_empty nb t nb (start nb y) ≡ some p
      → fill ((y, s) ∷ suf) nb i t ≡ fill suf nb (i + 1) (set t p (i + 1))
  unfolding fill
  fill_cons y s suf nb i t p e = rw (e, fill) refl
