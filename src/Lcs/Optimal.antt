-- ===== src/Lcs/Optimal.antt =====
-- The length of a longest common subsequence by recursion, and that none is longer.
use retrace.Prelude.{
  ℕ, zero, suc, ◌+◌, ◌≤◌, ◌≡◌, refl, subst, ◌⊎◌, inl, inr, Bool, true, List, [], arith,
  if◌then◌else◌, CStr, str_eq, str_eq→≡, str_eq_refl, get_or, Bool-cases, max,
}

module _ (a b : List CStr) where
  -- Whether the items at `i` and `j` are the same name.
  abbrev pub same : ℕ → ℕ → Bool
  same i j = str_eq (get_or a i []) (get_or b j [])

  -- Of the first `i` names of `a` and the first `j` of `b`.
  unfoldable pub lcs : ℕ → ℕ → ℕ
  lcs zero j = 0
  lcs (suc i) zero = 0
  lcs (suc i) (suc j) =
      let both = lcs i j + 1 in
      let one = max (lcs i (suc j)) (lcs (suc i) j) in if same i j then both else one

  pub lcs_nil : (i : ℕ) → lcs i 0 ≡ 0
  unfolding lcs
  lcs_nil zero = refl
  lcs_nil (suc i) = refl

  -- A common subsequence of `n` names of the two prefixes.
  pub data Common : ℕ → ℕ → ℕ → Type 0 where
    empty : Common zero zero 0
    left : {i j n : ℕ} → Common i j n → Common (suc i) j n
    right : {i j n : ℕ} → Common i j n → Common i (suc j) n
    both :
        {i j n : ℕ} → get_or a i [] ≡ get_or b j [] → Common i j n → Common (suc i) (suc j) (suc n)

  -- A name more on one side adds at most one, and loses nothing.
  left_steps : (i j : ℕ) → (lcs (suc i) j ≤ lcs i j + 1) × (lcs i j ≤ lcs i (suc j))
  unfolding lcs
  left_steps zero zero = (omega arith, omega arith)
  left_steps zero (suc j) = let (a1, a2) = left_steps zero j in (ground arith, omega arith)
  left_steps (suc i) zero = let (b1, b2) = left_steps i zero in (omega arith, omega arith)
  left_steps (suc i) (suc j) =
      let (a1, a2) = left_steps (suc i) j in
      let (b1, b2) = left_steps i (suc j) in (ground arith, ground arith)

  right_steps : (i j : ℕ) → (lcs i (suc j) ≤ lcs i j + 1) × (lcs i j ≤ lcs (suc i) j)
  unfolding lcs
  right_steps zero zero = (omega arith, omega arith)
  right_steps (suc i) zero = let (a1, a2) = right_steps i zero in (ground arith, omega arith)
  right_steps zero (suc j) = (omega arith, omega arith)
  right_steps (suc i) (suc j) =
      let (a1, a2) = right_steps i (suc j) in
      let (b1, b2) = right_steps (suc i) j in (ground arith, ground arith)

  -- No common subsequence is longer.
  pub Common-le : {i j n : ℕ} → Common i j n → n ≤ lcs i j
  unfolding lcs
  Common-le empty = omega arith
  Common-le (left {i} {j} c) = omega (arith, Common-le c, right_steps i j)
  Common-le (right {i} {j} c) = omega (arith, Common-le c, left_steps i j)
  Common-le (both {i} {j} e c) =
      let names : same i j ≡ true = rw e (str_eq_refl (get_or b j [])) in
      rw names (omega (arith, Common-le c))

  only_right : (j : ℕ) → Common zero j 0
  only_right zero = empty
  only_right (suc j) = right (only_right j)

  only_left : (i : ℕ) → Common i zero 0
  only_left zero = empty
  only_left (suc i) = left (only_left i)

  max-cases : (m n : ℕ) → (max m n ≡ m) ⊎ (max m n ≡ n)
  max-cases m n = ground arith

  -- There is one of this length.
  pub Common-lcs : (i j : ℕ) → Common i j (lcs i j)
  unfolding lcs
  Common-lcs zero j = only_right j
  Common-lcs (suc i) zero = only_left (suc i)
  Common-lcs (suc i) (suc j) = elim (Bool-cases (same i j)) [
    | inl e ↦
        rw e (subst (Common (suc i) (suc j)) (omega arith) (both (str_eq→≡ _ _ e) (Common-lcs i j)))
    | inr e ↦ elim (max-cases (lcs i (suc j)) (lcs (suc i) j)) [
      | inl m ↦ rw (e, m) (left (Common-lcs i (suc j)))
      | inr m ↦ rw (e, m) (right (Common-lcs (suc i) j))
    ]
  ]
