-- ===== src/FilterDsl/Compiled.antt =====
-- The recursive descent of the filter parser: it ends within its fuel, it makes one node for each
-- comparison and connective, and the trees that it accepts obey the type rule.
use retrace.Prelude.{
  ℕ, zero, suc, ◌+◌, ◌-◌, ◌*◌, ◌≤◌, ◌<◌, ◌≡◌, refl, subst, Bool, true, not, ◌&&◌, some, [], ◌∷◌,
  arith, ◌==◌, CStr, codes, length, get_or,
}
use retrace.FilterDsl.Ast.{Node, or, and, Parser, Ast, Outcome, ok, error, no_fuel, ◌>>=◌}
use retrace.FilterDsl.Lexing.{advance, skip_ws, at_keyword, perr, node_new, node_cap, node_size}
use retrace.FilterDsl.Parsing.{
  close, parse_primary, parse_not, and_loop, parse_and, or_loop, parse_or_step, parse_or, ast_size,
  finish, compile,
}
use retrace.FilterDsl.Operands.{
  Post, Post-bind, Post-if, At, At-le, advance-At, skip_ws-At, node_new-Post, head_there,
}
use retrace.FilterDsl.Descent.{
  size, Typed, NodePost, Post-mono, keyword-le, At-self, NodePost-le, At-nodes, parse_cmp-Post,
  close-Post,
}

module _ (malloc_ok : ℕ → Bool) (total depth : ℕ) (inner : Parser → Outcome (Node × Parser))
    (inner-Post : (left nodes : ℕ) (p : Parser)
      → left < depth
      → At total left nodes p
      → Post total (NodePost total left nodes) (inner p)) where
  parse_primary-Post :
      (left nodes : ℕ) (p : Parser)
      → left ≤ depth
      → At total left nodes p
      → Post total (NodePost total left nodes) (parse_primary malloc_ok inner p)
  unfolding parse_primary
  parse_primary-Post left nodes p h a =
      let q = skip_ws p in
      let here = skip_ws-At total left nodes p a in
      Post-if total (NodePost total left nodes) (get_or q.text 0 0 == b'(')
        (inner (advance 1 q) >>= close malloc_ok) _
        (λ e.
          let one : 1 ≤ length q.text = head_there q.text 39 e in
          Post-bind total (NodePost total left nodes) (NodePost total left nodes) _ _
            (Post-mono total (NodePost total (left - 1) nodes) (NodePost total left nodes) _
              (NodePost-le total (left - 1) left nodes (omega arith))
              (inner-Post (left - 1) nodes _ (omega (arith, here.0))
                (advance-At total left nodes 1 q one here)))
            (close-Post malloc_ok total left nodes))
        (λ _. parse_cmp-Post malloc_ok total left nodes q here)

  -- After a keyword of `n` bytes.
  after_keyword :
      (left nodes n : ℕ) (kw : CStr) (p : Parser)
      → length kw ≡ n
      → at_keyword kw (skip_ws p).text ≡ true
      → At total left nodes p
      → (n ≤ left) × At total (left - n) nodes (advance n (skip_ws p))
  after_keyword left nodes n kw p l e a =
      let here = skip_ws-At total left nodes p a in
      let fits : n ≤ length (skip_ws p).text = omega (arith, keyword-le kw (skip_ws p).text e) in
      (omega (arith, here.0), advance-At total left nodes n (skip_ws p) fits here)

  parse_not-Post :
      (f left nodes : ℕ) (p : Parser)
      → left < f
      → left ≤ depth
      → At total left nodes p
      → Post total (NodePost total left nodes) (parse_not malloc_ok inner f p)
  unfolding parse_not
  parse_not-Post zero left nodes p lf h a = absurd (omega arith)
  parse_not-Post (suc f) left nodes p lf h a =
      let q = skip_ws p in
      Post-if total (NodePost total left nodes) (at_keyword (codes "not") q.text) _ _
        (λ e.
          let (three, after) = after_keyword left nodes 3 (codes "not") p refl e a in
          Post-bind total (NodePost total (left - 3) (nodes + 1)) (NodePost total left nodes) _ _
            (Post-bind total (At total (left - 3) (nodes + 1))
              (NodePost total (left - 3) (nodes + 1)) _ _
              (node_new-Post malloc_ok total (left - 3) nodes _ after)
              (λ p1 b. parse_not-Post f (left - 3) (nodes + 1) p1 (omega arith) (omega arith) b))
            (λ cp (t, b). (
              t,
              At-le total (left - 3) left _ cp.1 (omega arith)
                  (At-nodes total (left - 3) (nodes + 1 + size cp.0) _ cp.1 (omega arith) b),
            )))
        (λ _. parse_primary-Post left nodes q h (skip_ws-At total left nodes p a))

  -- The node above two trees that were read.
  new_parent :
      (left nodes : ℕ) (l : Node) (rp : Node × Parser)
      → At total left (nodes + size l + size rp.0) rp.1
      → Post total (At total left (nodes + (size l + size rp.0 + 1))) (node_new malloc_ok rp.1)
  new_parent left nodes l rp b =
      Post-mono total (At total left (nodes + size l + size rp.0 + 1)) _ _
        (λ q. At-nodes total left _ _ q (omega arith))
        (node_new-Post malloc_ok total left (nodes + size l + size rp.0) rp.1 b)

  and_loop-Post :
      (f left nodes : ℕ) (l : Node) (p : Parser)
      → left < f
      → left ≤ depth
      → NodePost total left nodes (l, p)
      → Post total (NodePost total left nodes) (and_loop malloc_ok inner f (l, p))
  unfolding and_loop
  and_loop-Post zero left nodes l p lf h a = absurd (omega arith)
  and_loop-Post (suc f) left nodes l p lf h (t, a) =
      let q = skip_ws p in
      Post-if total (NodePost total left nodes) (at_keyword (codes "and") q.text) _ _
        (λ e.
          let here = skip_ws-At total left (nodes + size l) p a in
          let three : 3 ≤ length q.text = keyword-le (codes "and") q.text e in
          let left' = length q.text - 3 in
          Post-mono total (NodePost total left' nodes) (NodePost total left nodes) _
            (NodePost-le total left' left nodes (omega (arith, here.0)))
            (Post-bind total (NodePost total left' (nodes + size l)) (NodePost total left' nodes) _
              _
              (parse_not-Post (length q.text) left' (nodes + size l) _ (omega arith)
                (omega (arith, here.0))
                (advance-At total (length q.text) (nodes + size l) 3 q three
                  (At-self total left (nodes + size l) q here)))
              (λ rp (u, b).
                Post-bind total (At total left' (nodes + size (and l rp.0)))
                  (NodePost total left' nodes) _ _ (new_parent left' nodes l rp b)
                  (λ p2 c.
                    and_loop-Post f left' nodes (and l rp.0) p2 (omega (arith, here.0))
                      (omega (arith, here.0)) ((t, u), c)))))
        (λ _. (t, skip_ws-At total left (nodes + size l) p a))

  parse_and-Post :
      (left nodes : ℕ) (p : Parser)
      → left ≤ depth
      → At total left nodes p
      → Post total (NodePost total left nodes) (parse_and malloc_ok inner p)
  unfolding parse_and
  parse_and-Post left nodes p h a =
      let self = At-self total left nodes p a in
      Post-mono total (NodePost total (length p.text) nodes) (NodePost total left nodes) _
        (NodePost-le total (length p.text) left nodes (a.0))
        (Post-bind total (NodePost total (length p.text) nodes)
          (NodePost total (length p.text) nodes) _ _
          (parse_not-Post (length p.text + 1) (length p.text) nodes p (omega arith)
            (omega (arith, a.0)) self)
          (λ lp b.
            and_loop-Post (length p.text + 1) (length p.text) nodes lp.0 lp.1 (omega arith)
              (omega (arith, a.0)) b))

  or_loop-Post :
      (f left nodes : ℕ) (l : Node) (p : Parser)
      → left < f
      → left ≤ depth
      → NodePost total left nodes (l, p)
      → Post total (NodePost total left nodes) (or_loop malloc_ok inner f (l, p))
  unfolding or_loop
  or_loop-Post zero left nodes l p lf h a = absurd (omega arith)
  or_loop-Post (suc f) left nodes l p lf h (t, a) =
      let q = skip_ws p in
      Post-if total (NodePost total left nodes) (at_keyword (codes "or") q.text) _ _
        (λ e.
          let (two, after) = after_keyword left (nodes + size l) 2 (codes "or") p refl e a in
          Post-mono total (NodePost total (left - 2) nodes) (NodePost total left nodes) _
            (NodePost-le total (left - 2) left nodes (omega arith))
            (Post-bind total (NodePost total (left - 2) (nodes + size l))
              (NodePost total (left - 2) nodes) _ _
              (parse_and-Post (left - 2) (nodes + size l) _ (omega arith) after)
              (λ rp (u, b).
                Post-bind total (At total (left - 2) (nodes + size (or l rp.0)))
                  (NodePost total (left - 2) nodes) _ _ (new_parent (left - 2) nodes l rp b)
                  (λ p2 c.
                    or_loop-Post f (left - 2) nodes (or l rp.0) p2 (omega arith) (omega arith)
                      ((t, u), c)))))
        (λ _. (t, skip_ws-At total left (nodes + size l) p a))

  parse_or_step-Post :
      (left nodes : ℕ) (p : Parser)
      → left ≤ depth
      → At total left nodes p
      → Post total (NodePost total left nodes) (parse_or_step malloc_ok inner p)
  unfolding parse_or_step
  parse_or_step-Post left nodes p h a =
      let self = At-self total left nodes p a in
      Post-mono total (NodePost total (length p.text) nodes) (NodePost total left nodes) _
        (NodePost-le total (length p.text) left nodes (a.0))
        (Post-bind total (NodePost total (length p.text) nodes)
          (NodePost total (length p.text) nodes) _ _
          (parse_and-Post (length p.text) nodes p (omega (arith, a.0)) self)
          (λ lp b.
            or_loop-Post (length p.text + 1) (length p.text) nodes lp.0 lp.1 (omega arith)
              (omega (arith, a.0)) b))

-- A compiled tree: its nodes are counted, and fit the first array.
abbrev pub AstPost : Ast → Type 0
AstPost ast = Typed ast.root × (ast.node_cnt ≡ size ast.root) × (size ast.root ≤ node_cap)

module _ (malloc_ok : ℕ → Bool) (total : ℕ) where
  parse_or-Post :
      (depth left nodes : ℕ) (p : Parser)
      → left < depth
      → At total left nodes p
      → Post total (NodePost total left nodes) (parse_or malloc_ok depth p)
  unfolding parse_or
  parse_or-Post zero left nodes p h a = absurd (omega arith)
  parse_or-Post (suc d) left nodes p h a =
      parse_or_step-Post malloc_ok total d (parse_or malloc_ok d) (parse_or-Post d) left nodes p
        (omega arith) a

  finish-Post :
      (left : ℕ) (np : Node × Parser)
      → NodePost total left 0 np
      → Post total AstPost (finish malloc_ok np)
  unfolding finish perr
  finish-Post left (n, p) (t, a) =
      let q = skip_ws p in
      let here = skip_ws-At total left (0 + size n) p a in
      Post-if total AstPost (not (length q.text == 0)) _ _ (λ _. omega (arith, here.1))
        λ _.
          Post-if total AstPost
            (not (malloc_ok ast_size && malloc_ok (q.arena_len + q.node_cnt * node_size))) _ _
            (λ _. omega arith) (λ _. (t, omega (arith, here.2), omega (arith, here.3)))

compile-Post :
    (malloc_ok : ℕ → Bool) (expr : CStr)
    → Post (length expr) AstPost (compile malloc_ok (some expr))
unfolding compile
compile-Post malloc_ok [] = omega arith
compile-Post malloc_ok (c ∷ s) =
    let n = length (c ∷ s) in
    Post-if n AstPost (not (malloc_ok 128 && malloc_ok (16 * node_size))) _ _ (λ _. omega arith)
      (λ _.
        Post-bind n (NodePost n n 0) AstPost _ _
          (parse_or-Post malloc_ok n (n + 1) n 0 _ (omega arith)
            (omega arith, omega arith, refl, omega arith))
          (finish-Post malloc_ok n n))

-- A tree that compiles obeys the type rule at each comparison, and its number of nodes is the one
-- that is reported, and no more than 16.
pub compile-Typed :
    (malloc_ok : ℕ → Bool) (expr : CStr) (ast : Ast)
    → compile malloc_ok (some expr) ≡ ok ast
    → Typed ast.root × (ast.node_cnt ≡ size ast.root) × (size ast.root ≤ 16)
compile-Typed malloc_ok expr ast e =
    subst (Post (length expr) AstPost) e (compile-Post malloc_ok expr)

-- The place of a compile error is at most the length of the expression.
pub compile-error :
    (malloc_ok : ℕ → Bool) (expr : CStr) (place : ℕ) (msg : CStr)
    → compile malloc_ok (some expr) ≡ error place msg
    → place ≤ length expr
compile-error malloc_ok expr place msg e =
    subst (Post (length expr) AstPost) e (compile-Post malloc_ok expr)

-- The recursive descent ends on every expression within the fuel that `compile` gives it.
pub compile-ends :
    (malloc_ok : ℕ → Bool) (expr : CStr) → ¬ (compile malloc_ok (some expr) ≡ no_fuel)
compile-ends malloc_ok expr e = subst (Post (length expr) AstPost) e (compile-Post malloc_ok expr)
