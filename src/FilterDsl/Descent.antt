-- ===== src/FilterDsl/Descent.antt =====
-- What one comparison of the filter parser leaves: a place within the text, one node more, and a tree
-- that obeys the type rule.
use retrace.Prelude.{
  ℕ, ◌+◌, ◌≤◌, ◌≡◌, refl, subst, inl, inr, Bool, true, false, not, ◌&&◌, ◌||◌, Option, none, some,
  [], ◌∷◌, arith, ◌==◌, if◌then◌else◌, CStr, codes, length, get_or, Option-cases,
}
use retrace.FilterDsl.Ast.{
  Op, eq, ne, lt, le, gt, ge, glob, nglob, Operand, Node, or, and, negation, cmp, Parser, Outcome,
  ok, error, undefined, no_fuel,
}
use retrace.FilterDsl.Lexing.{skip_ws, has_prefix, at_keyword, perr}
use retrace.FilterDsl.Parsing.{
  operator_at, is_string, is_literal, is_relational, is_glob, type_rule, parse_rest, parse_cmp,
  close,
}
use retrace.FilterDsl.Operands.{
  Post, Post-bind, Post-if, At, At-le, advance-At_le, skip_ws-At, node_new-Post, parse_operand-Post,
  head_there,
}

-- How many nodes a tree has.
abbrev pub size : Node → ℕ
size (or l r) = size l + size r + 1
size (and l r) = size l + size r + 1
size (negation n) = size n + 1
size (cmp op l r) = 1

-- No text is compared by order, and a glob has a literal pattern.
abbrev pub Typed : Node → Type 0
Typed (or l r) = Typed l × Typed r
Typed (and l r) = Typed l × Typed r
Typed (negation n) = Typed n
Typed (cmp op l r) =
    ((is_relational op ≡ true) → (is_string l ≡ false) × (is_string r ≡ false))
    × ((is_glob op ≡ true) → is_literal r ≡ true)

-- A tree that was read when there were `nodes` nodes.
abbrev pub NodePost : ℕ → ℕ → ℕ → Node × Parser → Type 0
NodePost total left nodes np = Typed np.0 × At total left (nodes + size np.0) np.1

prefix-le : (kw s : CStr) → has_prefix kw s ≡ true → length kw ≤ length s
unfolding has_prefix
prefix-le [] s h = omega arith
prefix-le (k ∷ kw) [] h = ground arith
prefix-le (k ∷ kw) (c ∷ s) h = ground (arith, prefix-le kw s)

pub keyword-le : (kw s : CStr) → at_keyword kw s ≡ true → length kw ≤ length s
unfolding at_keyword
keyword-le kw s h = ground (arith, prefix-le kw s)

-- An operator does not reach past the end of the text.
abbrev Fits : CStr → Option (Op × ℕ) → Type 0
Fits s none = Unit {0}
Fits s (some (op, n)) = n ≤ length s

Fits-if :
    (s : CStr) (b : Bool) (x y : Option (Op × ℕ))
    → ((b ≡ true) → Fits s x)
    → Fits s y
    → Fits s (if b then x else y)
Fits-if s true x y f h = f refl
Fits-if s false x y f h = h

operator_at-Fits : (s : CStr) → Fits s (operator_at s)
unfolding operator_at
operator_at-Fits s =
    Fits-if s (has_prefix (codes "==") s) (some (eq, 2)) _ (prefix-le (codes "==") s) (
      Fits-if s (has_prefix (codes "!=") s) (some (ne, 2)) _ (prefix-le (codes "!=") s) (
        Fits-if s (has_prefix (codes "<=") s) (some (le, 2)) _ (prefix-le (codes "<=") s) (
          Fits-if s (has_prefix (codes ">=") s) (some (ge, 2)) _ (prefix-le (codes ">=") s) (
            Fits-if s (get_or s 0 0 == b'<') (some (lt, 1)) _ (head_there s 59) (
              Fits-if s (get_or s 0 0 == b'>') (some (gt, 1)) _ (head_there s 61) (
                Fits-if s (has_prefix (codes "!~") s) (some (nglob, 2)) _ (prefix-le (codes "!~") s)
                  (Fits-if s (get_or s 0 0 == b'~') (some (glob, 1)) none (head_there s 125)
                    tt)))))))

pub Post-mono :
    {A : Type 0} (n : ℕ) (Q R : A → Type 0) (r : Outcome A)
    → ((a : A) → Q a → R a)
    → Post n Q r
    → Post n R r
Post-mono n Q R (ok a) f q = f a q
Post-mono n Q R (error place msg) f q = q
Post-mono n Q R undefined f q = tt
Post-mono n Q R no_fuel f q = q

or_false : (a b : Bool) → (a || b) ≡ false → (a ≡ false) × (b ≡ false)
or_false a b h = ground arith

relational_typed : (a b c : Bool) → (a && (b || c)) ≡ false → (a ≡ true) → (b ≡ false) × (c ≡ false)
relational_typed a b c h k = ground arith

glob_typed : (a b : Bool) → (a && not b) ≡ false → (a ≡ true) → b ≡ true
glob_typed a b h k = ground arith

-- A text of no more than its own length is left.
pub At-self :
    (total left nodes : ℕ) (p : Parser) → At total left nodes p → At total (length p.text) nodes p
At-self total left nodes p (a, b, c, d) = (omega arith, b, c, d)

pub NodePost-le :
    (total m n nodes : ℕ)
    → m ≤ n
    → (np : Node × Parser) → NodePost total m nodes np
    → NodePost total n nodes np
NodePost-le total m n nodes h np (t, a) = (t, At-le total m n (nodes + size np.0) np.1 h a)

pub At-nodes : (total left m n : ℕ) (p : Parser) → m ≡ n → At total left m p → At total left n p
At-nodes total left m n p e a = subst (λ k. At total left k p) e a

module _ (malloc_ok : ℕ → Bool) (total : ℕ) where
  type_rule-Post :
      (left nodes : ℕ) (op : Op) (l r : Operand) (p : Parser)
      → At total left (nodes + 1) p
      → Post total (NodePost total left nodes) (type_rule op l r p)
  unfolding type_rule perr
  type_rule-Post left nodes op l r p (a, b, c, d) =
      Post-if total (NodePost total left nodes) (is_relational op && (is_string l || is_string r)) _
        _ (λ _. omega arith)
        λ e.
          Post-if total (NodePost total left nodes) (is_glob op && not (is_literal r)) _ _
            (λ _. omega arith) (λ g. ((relational_typed _ _ _ e, glob_typed _ _ g), (a, b, c, d)))

  parse_rest-Post :
      (left nodes : ℕ) (l : Operand) (p : Parser)
      → At total left (nodes + 1) p
      → Post total (NodePost total left nodes) (parse_rest malloc_ok l p)
  unfolding parse_rest perr
  parse_rest-Post left nodes l p (a, b, c, d) = elim (Option-cases (operator_at p.text)) [
    | inl e ↦ rw (e, parse_rest) (omega arith)
    | inr (on, e) ↦
        let fits : on.1 ≤ length p.text = subst (Fits p.text) e (operator_at-Fits p.text) in
        rw (e, parse_rest)
          (Post-bind total (λ op. At total left (nodes + 1) op.1) (NodePost total left nodes) _ _
            (parse_operand-Post malloc_ok total left (nodes + 1) _
              (advance-At_le total left (nodes + 1) on.1 p fits (a, b, c, d)))
            (λ op h. type_rule-Post left nodes on.0 l op.0 op.1 h))
  ]

  pub parse_cmp-Post :
      (left nodes : ℕ) (p : Parser)
      → At total left nodes p
      → Post total (NodePost total left nodes) (parse_cmp malloc_ok p)
  unfolding parse_cmp
  parse_cmp-Post left nodes p h =
      Post-bind total (λ op. At total left (nodes + 1) op.1) (NodePost total left nodes) _ _
        (Post-bind total (At total left (nodes + 1)) (λ op. At total left (nodes + 1) op.1) _ _
          (node_new-Post malloc_ok total left nodes p h)
          (λ q a. parse_operand-Post malloc_ok total left (nodes + 1) q a))
        (λ op a. parse_rest-Post left nodes op.0 _ (skip_ws-At total left (nodes + 1) op.1 a))

  pub close-Post :
      (left nodes : ℕ) (np : Node × Parser)
      → NodePost total left nodes np
      → Post total (NodePost total left nodes) (close malloc_ok np)
  unfolding close perr
  close-Post left nodes (n, p) (t, a) =
      let q = skip_ws p in
      let here = skip_ws-At total left (nodes + size n) p a in
      Post-if total (NodePost total left nodes) (get_or q.text 0 0 == b')') _ _
        (λ e. (t, advance-At_le total left (nodes + size n) 1 q (head_there q.text 40 e) here))
        (λ _. omega (arith, here.1))
