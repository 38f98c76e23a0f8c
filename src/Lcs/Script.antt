-- ===== src/Lcs/Script.antt =====
-- What `diff_lcs_walk` reports: both lists from the end, with as many matches as the longest common
-- subsequence has names.
use mathlib.Core.List.{append_assoc, append-nil}
use retrace.Prelude.{
  ℕ, zero, suc, ◌+◌, ◌*◌, ◌≤◌, ◌≡◌, refl, sym, ap, ap₂, ◌∙◌, inl, inr, Bool, true, false, some,
  List, [], ◌∷◌, ◌++◌, arith, leb, ◌==◌, ◌&&◌, if◌then◌else◌, CStr, str_eq→≡, length, replicate,
  get_or, max, Bool-cases,
}
use retrace.Lcs.{
  Item, matched, delete, insert, entry, walk, table_loop, diff_lcs_walk, lcs_build_table,
}
use retrace.Lcs.Optimal.{same, lcs, lcs_nil}
use retrace.Lcs.Table.{build_table-lcs}

-- The names of the first list, of the second, and the matches, in the order of the reports.
abbrev pub sources : List Item → List CStr
sources [] = []
sources (matched s ∷ l) = s ∷ sources l
sources (delete s ∷ l) = s ∷ sources l
sources (insert s ∷ l) = sources l

abbrev pub targets : List Item → List CStr
targets [] = []
targets (matched s ∷ l) = s ∷ targets l
targets (delete s ∷ l) = targets l
targets (insert s ∷ l) = s ∷ targets l

abbrev pub matches : List Item → ℕ
matches [] = 0
matches (matched s ∷ l) = suc (matches l)
matches (delete s ∷ l) = matches l
matches (insert s ∷ l) = matches l

-- The first `n` names, the last of them first.
abbrev pub backwards : List CStr → ℕ → List CStr
backwards a zero = []
backwards a (suc n) = get_or a n [] ∷ backwards a n

-- The reports `l` turn the first `i` names of `a` into the first `j` of `b`, with `n` matches.
abbrev IsScript : List CStr → List CStr → ℕ → ℕ → ℕ → List Item → Type 0
IsScript a b i j n l = (sources l ≡ backwards a i) × (targets l ≡ backwards b j) × (matches l ≡ n)

module _ (a b : List CStr) (stop : List Item → Bool) (goes : (l : List Item) → stop l ≡ false)
    (dp : List ℕ) where
  -- What comes after the reports that were given.
  abbrev GoesOn : ℕ → ℕ → List Item → List Item → Type 0
  GoesOn i j given r = (l : List Item) × (r ≡ given ++ l) × IsScript a b i j (lcs a b i j) l

  -- The reports of the walk after one more of them.
  after_delete :
      (i j : ℕ) (given r : List Item)
      → lcs a b i j ≡ lcs a b (suc i) j
      → GoesOn i j (given ++ delete (get_or a i []) ∷ []) r
      → GoesOn
          (suc i)
          j
          given
          (let g = given ++ delete (get_or a i []) ∷ [] in if stop g then g else r)
  after_delete i j given r n (l, e, (s, t, m)) = rw (goes (given ++ delete (get_or a i []) ∷ [])) (
    delete (get_or a i []) ∷ l,
    e ∙ append_assoc given (delete (get_or a i []) ∷ []) l,
    (ap (λ x. get_or a i [] ∷ x) s, t, m ∙ n),
  )

  after_insert :
      (i j : ℕ) (given r : List Item)
      → lcs a b i j ≡ lcs a b i (suc j)
      → GoesOn i j (given ++ insert (get_or b j []) ∷ []) r
      → GoesOn i
          (suc j)
          given
          (let g = given ++ insert (get_or b j []) ∷ [] in if stop g then g else r)
  after_insert i j given r n (l, e, (s, t, m)) = rw (goes (given ++ insert (get_or b j []) ∷ [])) (
    insert (get_or b j []) ∷ l,
    e ∙ append_assoc given (insert (get_or b j []) ∷ []) l,
    (s, ap (λ x. get_or b j [] ∷ x) t, m ∙ n),
  )

  after_match :
      (i j : ℕ) (given r : List Item)
      → get_or a i [] ≡ get_or b j []
      → suc (lcs a b i j) ≡ lcs a b (suc i) (suc j)
      → GoesOn i j (given ++ matched (get_or a i []) ∷ []) r
      → GoesOn
          (suc i)
          (suc j)
          given
          (let g = given ++ matched (get_or a i []) ∷ [] in if stop g then g else r)
  after_match i j given r q n (l, e, (s, t, m)) =
      rw (goes (given ++ matched (get_or a i []) ∷ [])) (
        matched (get_or a i []) ∷ l,
        e ∙ append_assoc given (matched (get_or a i []) ∷ []) l,
        (ap (λ x. get_or a i [] ∷ x) s, ap₂ ◌∷◌ q t, ap suc m ∙ n),
      )

  lcs-same : (i j : ℕ) → same a b i j ≡ true → suc (lcs a b i j) ≡ lcs a b (suc i) (suc j)
  unfolding lcs
  lcs-same i j e = rw e (omega arith)

  lcs-differs :
      (i j : ℕ)
      → same a b i j ≡ false
      → lcs a b (suc i) (suc j) ≡ max (lcs a b i (suc j)) (lcs a b (suc i) j)
  unfolding lcs
  lcs-differs i j e = rw e refl

  lcs_base : (j : ℕ) → lcs a b 0 j ≡ 0
  unfolding lcs
  lcs_base j = refl

  module _ (table : (i j : ℕ) → i ≤ length a → j ≤ length b → entry a b dp i j ≡ lcs a b i j) where
    walk-GoesOn :
        (i j : ℕ) (given : List Item)
        → i ≤ length a
        → j ≤ length b
        → GoesOn i j given (walk a b stop dp i j given)
    unfolding walk
    walk-GoesOn zero zero given h k = ([], sym (append-nil given), (refl, refl, sym (lcs_base 0)))
    walk-GoesOn (suc i) zero given h k =
        after_delete i zero given _ (lcs_nil a b i ∙ sym (lcs_nil a b (suc i)))
          (walk-GoesOn i zero (given ++ delete (get_or a i []) ∷ []) (omega arith) k)
    walk-GoesOn zero (suc j) given h k =
        after_insert zero j given _ (lcs_base j ∙ sym (lcs_base (suc j)))
          (walk-GoesOn zero j (given ++ insert (get_or b j []) ∷ []) h (omega arith))
    walk-GoesOn (suc i) (suc j) given h k =
        let on_left =
          walk-GoesOn i (suc j) (given ++ delete (get_or a i []) ∷ []) (omega arith) k in
        let on_right =
          walk-GoesOn (suc i) j (given ++ insert (get_or b j []) ∷ []) h (omega arith) in
        let up = table i (suc j) (omega arith) k in
        let back = table (suc i) j h (omega arith) in
        elim (Bool-cases (same a b i j)) [
          | inl e ↦ rw e (
              after_match i j given _ (str_eq→≡ _ _ e) (lcs-same i j e) (
                walk-GoesOn i j (given ++ matched (get_or a i []) ∷ []) (omega arith)
                  (omega arith)))
          | inr e ↦ elim (Bool-cases (leb (entry a b dp (suc i) j) (entry a b dp i (suc j)))) [
            | inl l ↦
                rw (e, l)
                  (after_delete i (suc j) given _ (ground (arith, lcs-differs i j e)) on_left)
            | inr l ↦
                rw (e, l)
                  (after_insert (suc i) j given _ (ground (arith, lcs-differs i j e)) on_right)
          ]
        ]

both_empty : (x y : ℕ) → (x == 0 && y == 0) ≡ true → (x ≡ 0) × (y ≡ 0)
both_empty x y h = ground arith

-- With memory and a callback that never stops it, the walk reports, from the end, every name of
-- the first list as matched or deleted and every name of the second as matched or inserted, each
-- in its order, and as many matches as the longest common subsequence has names.
pub diff_lcs_walk-IsScript :
    (a b : List CStr) (calloc_ok : ℕ → Bool) (stop : List Item → Bool)
    → calloc_ok ((length a + 1) * (length b + 1)) ≡ true
    → ((l : List Item) → stop l ≡ false)
    → (l : List Item) × (diff_lcs_walk a b calloc_ok stop ≡ some l)
      × (sources l ≡ backwards a (length a))
      × (targets l ≡ backwards b (length b))
      × (matches l ≡ lcs a b (length a) (length b))
unfolding diff_lcs_walk lcs_build_table
diff_lcs_walk-IsScript a b calloc_ok stop c goes =
    elim (Bool-cases (length a == 0 && length b == 0)) [
      | inl z ↦
          let (x, y) = both_empty (length a) (length b) z in
          rw z ([], refl, rw x refl, rw y refl, rw (x, y) (sym (lcs_nil a b 0)))
      | inr z ↦
          let dp = table_loop a b (length a) 0 (replicate ((length a + 1) * (length b + 1)) 0) in
          let (l, e, (s, t, m)) =
            walk-GoesOn a b stop goes dp (build_table-lcs a b calloc_ok dp (rw c refl)) (length a)
              (length b) [] (omega arith) (omega arith) in
          rw (z, c) (l, ap some e, s, t, m)
    ]
