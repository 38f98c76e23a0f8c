-- ===== src/FilterDsl/Parsing.antt =====
-- core/filter_dsl.c: `parse_primary` to `parse_or`, and `retrace_filter_compile`. The descent is on
-- fuel: one unit for each open parenthesis, and one for each keyword of a loop.
use retrace.Prelude.{
  ℕ, zero, suc, ◌+◌, ◌*◌, Bool, true, false, not, ◌&&◌, ◌||◌, Option, none, some, [], ◌∷◌, ◌==◌,
  if◌then◌else◌, CStr, codes, length, get_or,
}
use retrace.FilterDsl.Ast.{
  Op, eq, ne, lt, le, gt, ge, glob, nglob, Operand, num, str, param, func, ret, caller, Node, or,
  and, negation, cmp, Parser, Ast, Outcome, ok, error, no_fuel, ◌>>=◌,
}
use retrace.FilterDsl.Lexing.{
  advance, skip_ws, has_prefix, at_keyword, perr, node_new, node_size, parse_operand,
}

-- The operator at the head of the text, and `oplen`.
unfoldable pub operator_at : CStr → Option (Op × ℕ)
unfolding has_prefix
operator_at s =
    if has_prefix (codes "==") s
    then some (eq, 2)
    else if has_prefix (codes "!=") s
    then some (ne, 2)
    else if has_prefix (codes "<=") s
    then some (le, 2)
    else if has_prefix (codes ">=") s
    then some (ge, 2)
    else if get_or s 0 0 == b'<'
    then some (lt, 1)
    else if get_or s 0 0 == b'>'
    then some (gt, 1)
    else if has_prefix (codes "!~") s
    then some (nglob, 2)
    else if get_or s 0 0 == b'~'
    then some (glob, 1)
    else none

-- `str_lhs`, `str_rhs`
unfoldable pub is_string : Operand → Bool
is_string (num n) = false
is_string (str s) = true
is_string (param s) = false
is_string (func s) = true
is_string (ret s) = false
is_string (caller s) = true

unfoldable pub is_literal : Operand → Bool
is_literal (num n) = false
is_literal (str s) = true
is_literal (param s) = false
is_literal (func s) = false
is_literal (ret s) = false
is_literal (caller s) = false

unfoldable pub is_relational : Op → Bool
is_relational lt = true
is_relational le = true
is_relational gt = true
is_relational ge = true
is_relational eq = false
is_relational ne = false
is_relational glob = false
is_relational nglob = false

unfoldable pub is_glob : Op → Bool
is_glob glob = true
is_glob nglob = true
is_glob eq = false
is_glob ne = false
is_glob lt = false
is_glob le = false
is_glob gt = false
is_glob ge = false

-- The type rule of a comparison that has been read.
unfoldable pub type_rule : Op → Operand → Operand → Parser → Outcome (Node × Parser)
unfolding is_string is_literal is_relational is_glob perr
type_rule op lhs rhs p =
    if is_relational op && (is_string lhs || is_string rhs)
    then perr p (codes "relational operators need numeric operands")
    else if is_glob op && not (is_literal rhs)
    then perr p (codes "glob pattern must be a string literal")
    else ok (cmp op lhs rhs, p)

abbrev pub seeded : CStr → Parser
seeded expr = record { text = expr; pos = 0; arena_cap = 128; arena_len = 0; node_cnt = 0 }

-- `sizeof(struct retrace_filter_ast)` with 64-bit pointers.
abbrev pub ast_size : ℕ
ast_size = 32

module _ (malloc_ok : ℕ → Bool) where
  -- After the left operand.
  unfoldable pub parse_rest : Operand → Parser → Outcome (Node × Parser)
  unfolding operator_at advance parse_operand type_rule perr
  parse_rest lhs p = elim (operator_at p.text) [
    | none ↦ perr p (codes "expected operator (== != < <= > >= ~ !~)")
    | some (op, oplen) ↦
        parse_operand malloc_ok (advance oplen p) >>= λ (rhs, p'). type_rule op lhs rhs p'
  ]

  unfoldable pub parse_cmp : Parser → Outcome (Node × Parser)
  unfolding parse_operand parse_rest skip_ws node_new
  parse_cmp p = node_new malloc_ok p >>= (λ p1. parse_operand malloc_ok p1) >>= λ (lhs, p2).
      parse_rest lhs (skip_ws p2)

  -- After the expression in parentheses.
  unfoldable pub close : Node × Parser → Outcome (Node × Parser)
  unfolding skip_ws advance perr
  close (n, p) =
      let q = skip_ws p in
      if get_or q.text 0 0 == b')' then ok (n, advance 1 q) else perr q (codes "expected ')'")

  -- `parse_or` of a smaller depth is an argument.
  module _ (inner : Parser → Outcome (Node × Parser)) where
    unfoldable pub parse_primary : Parser → Outcome (Node × Parser)
    unfolding skip_ws advance close parse_cmp
    parse_primary p =
        let q = skip_ws p in
        if get_or q.text 0 0 == b'(' then inner (advance 1 q) >>= close else parse_cmp q

    unfoldable pub parse_not : ℕ → Parser → Outcome (Node × Parser)
    unfolding skip_ws at_keyword advance node_new parse_primary
    parse_not zero p = no_fuel
    parse_not (suc f) p =
        let q = skip_ws p in
        let negated = node_new malloc_ok (advance 3 q) >>= (λ p1. parse_not f p1) >>= λ (child, p2).
        ok (negation child, p2) in
        if at_keyword (codes "not") q.text then negated else parse_primary q

    unfoldable pub and_loop : ℕ → Node × Parser → Outcome (Node × Parser)
    unfolding skip_ws at_keyword advance node_new parse_not
    and_loop zero lp = no_fuel
    and_loop (suc f) (lhs, p) =
        let q = skip_ws p in
        let next =
          parse_not (length q.text) (advance 3 q)
          >>= (λ (rhs, p1). node_new malloc_ok p1 >>= λ p2. and_loop f (and lhs rhs, p2)) in
        if at_keyword (codes "and") q.text then next else ok (lhs, q)

    unfoldable pub parse_and : Parser → Outcome (Node × Parser)
    unfolding parse_not and_loop
    parse_and p = parse_not (length p.text + 1) p >>= λ lp. and_loop (length p.text + 1) lp

    unfoldable pub or_loop : ℕ → Node × Parser → Outcome (Node × Parser)
    unfolding skip_ws at_keyword advance node_new parse_and
    or_loop zero lp = no_fuel
    or_loop (suc f) (lhs, p) =
        let q = skip_ws p in
        let next =
          parse_and (advance 2 q)
          >>= (λ (rhs, p1). node_new malloc_ok p1 >>= λ p2. or_loop f (or lhs rhs, p2)) in
        if at_keyword (codes "or") q.text then next else ok (lhs, q)

    unfoldable pub parse_or_step : Parser → Outcome (Node × Parser)
    unfolding parse_and or_loop
    parse_or_step p = parse_and p >>= λ lp. or_loop (length p.text + 1) lp

  unfoldable pub parse_or : ℕ → Parser → Outcome (Node × Parser)
  unfolding parse_or_step
  parse_or zero p = no_fuel
  parse_or (suc d) p = parse_or_step (parse_or d) p

  -- The end of the text is reached, and the nodes are copied behind the strings.
  unfoldable pub finish : Node × Parser → Outcome Ast
  unfolding skip_ws perr
  finish (n, p) =
      let q = skip_ws p in
      let all = q.arena_len + q.node_cnt * node_size in
      if not (length q.text == 0)
      then perr q (codes "unexpected trailing input")
      else if not (malloc_ok ast_size && malloc_ok all)
      then error 0 (codes "out of memory")
      else ok (record { root = n; node_cnt = q.node_cnt; arena_len = all })

  -- `retrace_filter_compile`
  unfoldable pub compile : Option CStr → Outcome Ast
  unfolding parse_or finish
  compile none = error 0 (codes "empty expression")
  compile (some []) = error 0 (codes "empty expression")
  compile (some (c ∷ s)) =
      if not (malloc_ok 128 && malloc_ok (16 * node_size))
      then error 0 (codes "out of memory")
      else parse_or (length (c ∷ s) + 1) (seeded (c ∷ s)) >>= finish
