-- ===== src/Lcs/Table.antt =====
-- The table of tools/trace-diff/lcs.c holds the length of a longest common subsequence in each cell.
use retrace.Prelude.{
  ℕ, zero, suc, ◌+◌, ◌*◌, ◌≤◌, ◌<◌, ◌≡◌, ◌≢◌, refl, sym, ap, ◌∙◌, subst, ◌⊎◌, inl, inr, Bool, true,
  none, some, List, arith, ◌==◌, ◌||◌, CStr, length, length-set, length-replicate, get_or,
  get_or-set_self, get_or-set_ne, set, replicate, Bool-cases,
}
use retrace.Lcs.{cols, entry, cell, row_loop, table_loop, lcs_build_table, diff_lcs_len}
use retrace.Lcs.Optimal.{lcs, lcs_nil, Common, Common-le, Common-lcs}

-- Two places of a table of `c` columns are the same only if their rows and columns are.
place_row : (c i j x y : ℕ) → j < c → y < c → i * c + j ≡ x * c + y → i ≡ x
place_row c zero j zero y h k e = refl
place_row c zero j (suc x) y h k e = absurd (omega arith)
place_row c (suc i) j zero y h k e = absurd (omega arith)
place_row c (suc i) j (suc x) y h k e = ap suc (place_row c i j x y h k (omega arith))

place_column : (c i j x y : ℕ) → j < c → y < c → i * c + j ≡ x * c + y → j ≡ y
place_column c i j x y h k e =
    let rows = place_row c i j x y h k e in
    let e' : x * c + j ≡ x * c + y = subst (λ r. r * c + j ≡ x * c + y) rows e in omega arith

place-lt : (c r i j : ℕ) → i < r → j < c → i * c + j < r * c
place-lt c r i j h k = grind arith

get_or-replicate : (n k : ℕ) → get_or {A = ℕ} (replicate n 0) k 0 ≡ 0
get_or-replicate zero k = refl
get_or-replicate (suc n) zero = refl
get_or-replicate (suc n) (suc k) = get_or-replicate n k

some-inj {ℓ} : {A : Type ℓ} {x y : A} → some x ≡ some y → x ≡ y
some-inj h = cc

none≢some {ℓ} : {A : Type ℓ} {x : A} → ¬ (none ≡ some x)
none≢some h = cc

zero_only : (n : ℕ) → n ≤ 0 → n ≡ 0
zero_only n h = omega arith

module _ (a b : List CStr) where
  -- The cell holds its length.
  abbrev Right : List ℕ → ℕ → ℕ → Type 0
  Right dp i j = entry a b dp i j ≡ lcs a b i j

  -- The rows up to `i` are done, and row `i + 1` up to column `j`.
  record Filled (dp : List ℕ) (i j : ℕ) : Type 0 where
    size : length dp ≡ (length a + 1) * (length b + 1)
    above : (x y : ℕ) → x ≤ i → y ≤ length b → Right dp x y
    row : (y : ℕ) → y ≤ j → suc i ≤ length a → Right dp (suc i) y
    margin : (x : ℕ) → x ≤ length a → entry a b dp x 0 ≡ 0

  cell-Right :
      (dp : List ℕ) (i j : ℕ)
      → j < length b
      → suc i ≤ length a
      → Filled dp i j
      → cell a b dp i j ≡ lcs a b (suc i) (suc j)
  unfolding cell lcs
  cell-Right dp i j h g f =
      let x = f.above i j (omega arith) (omega arith) in
      let y = f.above i (suc j) (omega arith) (omega arith) in
      let z = f.row j (omega arith) g in ground (arith, x, y, z)

  module _ (dp : List ℕ) (i j v : ℕ) (in_row : j < length b) where
    abbrev written : List ℕ
    written = set dp (suc i * cols a b + suc j) v

    entry_other :
        (x y : ℕ)
        → y ≤ length b
        → (x ≢ suc i) ⊎ (y ≢ suc j)
        → entry a b written x y ≡ entry a b dp x y
    entry_other x y h d = get_or-set_ne dp (suc i * cols a b + suc j) (x * cols a b + y) v 0 (λ e.
        let r = place_row (cols a b) (suc i) (suc j) x y (omega arith) (omega arith) e in
        let c = place_column (cols a b) (suc i) (suc j) x y (omega arith) (omega arith) e in
        elim d [ inl n ↦ n (sym r) | inr n ↦ n (sym c) ])

    entry_here : suc (suc i * cols a b + suc j) ≤ length dp → entry a b written (suc i) (suc j) ≡ v
    entry_here h = get_or-set_self dp (suc i * cols a b + suc j) v 0 h

  le-cases : (m n : ℕ) → m ≤ suc n → (m ≤ n) ⊎ (m ≡ suc n)
  le-cases m n h = ground arith

  Filled-cell :
      (dp : List ℕ) (i j : ℕ)
      → j < length b
      → suc i ≤ length a
      → Filled dp i j
      → Filled (set dp (suc i * cols a b + suc j) (cell a b dp i j)) i (suc j)
  Filled-cell dp i j h g f =
      let v = cell a b dp i j in
      record {
        size = length-set dp _ v ∙ f.size;
        above = λ x y k l. entry_other dp i j v h x y l (inl (omega arith)) ∙ f.above x y k l;
        row = λ y k _. elim (le-cases y j k) [
          | inl l ↦ entry_other dp i j v h (suc i) y (omega arith) (inr (omega arith)) ∙ f.row y l g
          | inr e ↦ subst (Right (written dp i j v h) (suc i)) (sym e) (
              entry_here dp i j v h (
                subst (λ n. suc (suc i * cols a b + suc j) ≤ n) (sym f.size)
                  (place-lt (cols a b) (length a + 1) (suc i) (suc j) (omega arith) (omega arith)))
              ∙ cell-Right dp i j h g f)
        ];
        margin = λ x k. entry_other dp i j v h x 0 (omega arith) (inr (omega arith)) ∙ f.margin x k;
      }

  row_loop-Filled :
      (n i j : ℕ) (dp : List ℕ)
      → n + j ≡ length b
      → suc i ≤ length a
      → Filled dp i j
      → Filled (row_loop a b n i j dp) i (length b)
  unfolding row_loop
  row_loop-Filled zero i j dp e g f = subst (Filled dp i) (omega arith) f
  row_loop-Filled (suc n) i j dp e g f =
      row_loop-Filled n i (suc j) _ (omega arith) g (Filled-cell dp i j (omega arith) g f)

  Filled-row :
      (dp : List ℕ) (i : ℕ) → suc i ≤ length a → Filled dp i (length b) → Filled dp (suc i) 0
  unfolding lcs
  Filled-row dp i g f = record {
    size = f.size;
    above = λ x y k l. elim (le-cases x i k) [
      | inl m ↦ f.above x y m l
      | inr e ↦ subst (λ z. Right dp z y) (sym e) (f.row y l g)
    ];
    row = λ y k m. subst (Right dp (suc (suc i))) (sym (zero_only y k)) (f.margin (suc (suc i)) m);
    margin = f.margin;
  }

  table_loop-Right :
      (n i : ℕ) (dp : List ℕ)
      → n + i ≡ length a
      → Filled dp i 0
      → (x y : ℕ) → x ≤ length a
      → y ≤ length b
      → Right (table_loop a b n i dp) x y
  unfolding table_loop
  table_loop-Right zero i dp e f x y h k = f.above x y (omega arith) k
  table_loop-Right (suc n) i dp e f x y h k =
      table_loop-Right n (suc i) _ (omega arith)
        (Filled-row _ i (omega arith)
          (row_loop-Filled (length b) i 0 dp (omega arith) (omega arith) f))
        x y h k

  start-Filled : Filled (replicate ((length a + 1) * cols a b) 0) 0 0
  unfolding lcs
  start-Filled =
      let blank = λ (x y : ℕ). get_or-replicate ((length a + 1) * cols a b) (x * cols a b + y) in
      record {
        size = length-replicate {A = ℕ} ((length a + 1) * cols a b) 0;
        above = λ x y k l.
            subst (λ z. Right (replicate ((length a + 1) * cols a b) 0) z y) (sym (zero_only x k))
              (blank 0 y);
        row = λ y k m.
            subst (Right (replicate ((length a + 1) * cols a b) 0) 1) (sym (zero_only y k))
              (blank 1 0);
        margin = λ x k. blank x 0;
      }

  pub build_table-lcs :
      (calloc_ok : ℕ → Bool) (dp : List ℕ)
      → lcs_build_table a b calloc_ok ≡ some dp
      → (i j : ℕ) → i ≤ length a
      → j ≤ length b
      → entry a b dp i j ≡ lcs a b i j
  unfolding lcs_build_table
  build_table-lcs calloc_ok dp e i j h k =
      elim (Bool-cases (calloc_ok ((length a + 1) * cols a b))) [
        | inl c ↦
            subst (λ t. entry a b t i j ≡ lcs a b i j) (some-inj (rw c at e))
              (table_loop-Right (length a) 0 _ (omega arith) start-Filled i j h k)
        | inr c ↦ absurd (none≢some (rw c at e))
      ]

  none_of : (x y : ℕ) → (x == 0 || y == 0) ≡ true → (x ≡ 0) ⊎ (y ≡ 0)
  none_of x y h = ground arith

  pub diff_lcs_len-lcs :
      (calloc_ok : ℕ → Bool)
      → calloc_ok ((length a + 1) * (length b + 1)) ≡ true
      → diff_lcs_len a b calloc_ok ≡ lcs a b (length a) (length b)
  unfolding diff_lcs_len lcs_build_table lcs
  diff_lcs_len-lcs calloc_ok c = elim (Bool-cases (length a == 0 || length b == 0)) [
    | inl z ↦ rw z (elim (none_of (length a) (length b) z) [
      | inl e ↦ rw e refl
      | inr e ↦ rw e (sym (lcs_nil a b (length a)))
    ])
    | inr z ↦
        rw (z, c)
          (table_loop-Right (length a) 0 _ (omega arith) start-Filled (length a) (length b)
            (omega arith) (omega arith))
  ]

  -- With memory, the computed length is that of a common subsequence of the two lists, and no
  -- common subsequence is longer.
  pub diff_lcs_len-Common :
      (calloc_ok : ℕ → Bool)
      → calloc_ok ((length a + 1) * (length b + 1)) ≡ true
      → Common a b (length a) (length b) (diff_lcs_len a b calloc_ok)
        × ((n : ℕ) → Common a b (length a) (length b) n → n ≤ diff_lcs_len a b calloc_ok)
  diff_lcs_len-Common calloc_ok c =
      let e = diff_lcs_len-lcs calloc_ok c in
      (
        subst (Common a b (length a) (length b)) (sym e) (Common-lcs a b (length a) (length b)),
        λ n m. omega (arith, Common-le a b m),
      )
