-- ===== src/Lcs.antt =====
-- tools/trace-diff/lcs.c: the table of longest common subsequences of two lists of function names, and
-- the walk back through it that reports matches, deletions and insertions to a callback.
use retrace.Prelude.{
  ℕ, zero, suc, ◌+◌, ◌-◌, ◌*◌, Bool, true, false, Option, none, some, List, [], ◌∷◌, ◌++◌, ltb, leb,
  ◌==◌, ◌||◌, ◌&&◌, if◌then◌else◌, CStr, str_eq, length, get_or, set, replicate,
}
pub mod Table
pub mod Optimal
pub mod Script
pub mod Edits
mod Tests

-- `struct diff_lcs_item`
pub data Item : Type 0 where
  matched : CStr → Item
  delete : CStr → Item
  insert : CStr → Item

module _ (a b : List CStr) where
  abbrev pub cols : ℕ
  cols = length b + 1

  -- `dp[i * cols + j]`
  abbrev pub entry : List ℕ → ℕ → ℕ → ℕ
  entry dp i j = get_or dp (i * cols + j) 0

  -- The value for `i + 1` and `j + 1`.
  unfoldable pub cell : List ℕ → ℕ → ℕ → ℕ
  cell dp i j =
      if str_eq (get_or a i []) (get_or b j [])
      then entry dp i j + 1
      else if ltb (entry dp (suc i) j) (entry dp i (suc j))
      then entry dp i (suc j)
      else entry dp (suc i) j

  -- The inner loop, `n` columns from `j + 1` on.
  unfoldable pub row_loop : ℕ → ℕ → ℕ → List ℕ → List ℕ
  unfolding cell
  row_loop zero i j dp = dp
  row_loop (suc n) i j dp = row_loop n i (suc j) (set dp (suc i * cols + suc j) (cell dp i j))

  -- The outer loop, `n` rows from `i + 1` on.
  unfoldable pub table_loop : ℕ → ℕ → List ℕ → List ℕ
  unfolding row_loop
  table_loop zero i dp = dp
  table_loop (suc n) i dp = table_loop n (suc i) (row_loop (length b) i 0 dp)

  -- `lcs_build_table`; `calloc_ok` says whether the platform grants that many cells.
  unfoldable pub lcs_build_table : (ℕ → Bool) → Option (List ℕ)
  unfolding table_loop
  lcs_build_table calloc_ok =
      let cells = (length a + 1) * cols in
      if calloc_ok cells then some (table_loop (length a) 0 (replicate cells 0)) else none

  -- `diff_lcs_len`
  unfoldable pub diff_lcs_len : (ℕ → Bool) → ℕ
  unfolding lcs_build_table
  diff_lcs_len calloc_ok =
      if length a == 0 || length b == 0
      then 0
      else elim (lcs_build_table calloc_ok) [ none ↦ 0 | some dp ↦ entry dp (length a) (length b) ]

  -- The three loops from `i` and `j`; `stop` is the callback's answer to what it was given so far.
  module _ (stop : List Item → Bool) (dp : List ℕ) where
    unfoldable pub walk : ℕ → ℕ → List Item → List Item
    walk zero zero given = given
    walk (suc i) zero given =
        let given' = given ++ delete (get_or a i []) ∷ [] in
        let on = walk i zero given' in if stop given' then given' else on
    walk zero (suc j) given =
        let given' = given ++ insert (get_or b j []) ∷ [] in
        let on = walk zero j given' in if stop given' then given' else on
    walk (suc i) (suc j) given =
        let both = given ++ matched (get_or a i []) ∷ [] in
        let left = given ++ delete (get_or a i []) ∷ [] in
        let right = given ++ insert (get_or b j []) ∷ [] in
        let on_both = walk i j both in
        let on_left = walk i (suc j) left in
        let on_right = walk (suc i) j right in
        if str_eq (get_or a i []) (get_or b j [])
        then (if stop both then both else on_both)
        else if leb (entry dp (suc i) j) (entry dp i (suc j))
        then (if stop left then left else on_left)
        else (if stop right then right else on_right)

  -- `diff_lcs_walk`: the items that the callback was given, of which it returns the number; a table
  -- that is not granted is `none`, for -1.
  unfoldable pub diff_lcs_walk : (ℕ → Bool) → (List Item → Bool) → Option (List Item)
  unfolding lcs_build_table walk
  diff_lcs_walk calloc_ok stop =
      if length a == 0 && length b == 0 then some [] else elim (lcs_build_table calloc_ok) [
        | none ↦ none
        | some dp ↦ some (walk stop dp (length a) (length b) [])
      ]
