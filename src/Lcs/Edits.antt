-- ===== src/Lcs/Edits.antt =====
-- tools/trace-diff/diff.c: `print_order_diff`, which counts the deletions and insertions of the walk. The
-- lines that it prints are the items of the walk, in their order.
use retrace.Prelude.{
  ℕ, zero, suc, ◌+◌, ◌*◌, ◌≡◌, refl, ap, ◌∙◌, inl, inr, Bool, true, false, none, some, List, [],
  ◌∷◌, arith, ◌==◌, ◌&&◌, if◌then◌else◌, CStr, length, Bool-cases,
}
use retrace.Prelude.Int.{ℤ, pos, negsuc}
use retrace.Lcs.{Item, matched, delete, insert, diff_lcs_walk}
use retrace.Lcs.Optimal.{lcs, lcs_nil}
use retrace.Lcs.Script.{sources, targets, matches, backwards, diff_lcs_walk-IsScript}

-- What `print_item` adds up in `ctx->edits`.
unfoldable pub edits : List Item → ℕ
edits [] = 0
edits (matched s ∷ l) = edits l
edits (delete s ∷ l) = suc (edits l)
edits (insert s ∷ l) = suc (edits l)

-- `print_item` returns 0.
unfoldable pub print_item : List Item → Bool
print_item l = false

unfoldable pub print_order_diff : List CStr → List CStr → (ℕ → Bool) → ℤ
unfolding edits print_item
print_order_diff a b calloc_ok =
    if length a == 0 && length b == 0
    then pos 0
    else elim (diff_lcs_walk a b calloc_ok print_item) [ none ↦ negsuc 0 | some l ↦ pos (edits l) ]

edits-names : (l : List Item) → edits l + 2 * matches l ≡ length (sources l) + length (targets l)
unfolding edits
edits-names [] = omega arith
edits-names (matched s ∷ l) = omega (arith, edits-names l)
edits-names (delete s ∷ l) = omega (arith, edits-names l)
edits-names (insert s ∷ l) = omega (arith, edits-names l)

length-backwards : (a : List CStr) (n : ℕ) → length (backwards a n) ≡ n
length-backwards a zero = refl
length-backwards a (suc n) = ap suc (length-backwards a n)

both_empty : (x y : ℕ) → (x == 0 && y == 0) ≡ true → (x ≡ 0) × (y ≡ 0)
both_empty x y h = ground arith

-- With memory, the order diff returns the length of both lists less twice that of their longest
-- common subsequence.
pub print_order_diff-lcs :
    (a b : List CStr) (calloc_ok : ℕ → Bool)
    → calloc_ok ((length a + 1) * (length b + 1)) ≡ true
    → (n : ℕ) × (print_order_diff a b calloc_ok ≡ pos n)
      × (n + 2 * lcs a b (length a) (length b) ≡ length a + length b)
unfolding print_order_diff print_item
print_order_diff-lcs a b calloc_ok c = elim (Bool-cases (length a == 0 && length b == 0)) [
  | inl z ↦
      let (x, y) = both_empty (length a) (length b) z in
      rw z (0, refl, rw (x, y) (rw (lcs_nil a b 0) refl))
  | inr z ↦
      let (l, e, s, t, m) = diff_lcs_walk-IsScript a b calloc_ok print_item c (λ l. refl) in
      let la : length (sources l) ≡ length a = ap length s ∙ length-backwards a (length a) in
      let lb : length (targets l) ≡ length b = ap length t ∙ length-backwards b (length b) in
      rw (z, e) (edits l, refl, omega (arith, edits-names l, la, lb, m))
]
