-- ===== src/FilterDsl/Eval.antt =====
-- core/filter_dsl.c: the evaluation of a tree, and the resolver of a thread's call. The texts that
-- `char *` parameters of the call point to are the argument `text_at`.
use retrace.Prelude.{
  ℕ, ◌%◌, Bool, true, false, not, ◌&&◌, Option, none, some, List, [], ◌∷◌, ◌==◌, if◌then◌else◌,
  CStr, codes, str_eq,
}
use retrace.Prelude.Int.{ℤ, pos, ltb_ℤ, leb_ℤ, eqb_ℤ}
use retrace.CallerCache
use retrace.CallerCache.{Cache}
use retrace.CallerMatch.{DlInfo}
use retrace.FilterDsl.GlobStep.{glob_match}
use retrace.FilterDsl.Ast.{
  Op, eq, ne, lt, le, gt, ge, glob, nglob, Operand, num, str, param, func, ret, caller, Node, or,
  and, negation, cmp, Ast,
}

-- `struct retrace_filter_resolver`: the outer `none` is the result 0, and `some none` is a name that
-- is no text.
pub record Resolver : Type 0 where
  pub num_of : CStr → Option ℤ
  pub str_of : CStr → Option (Option CStr)

-- `operand_lookup` as a text.
unfoldable pub lookup_str : Resolver → Operand → Option (Option CStr)
lookup_str r (str s) = some (some s)
lookup_str r (num n) = none
lookup_str r (param name) = r.str_of name
lookup_str r (func name) = r.str_of name
lookup_str r (ret name) = r.str_of name
lookup_str r (caller name) = r.str_of name

-- `operand_lookup` as a number.
unfoldable pub lookup_num : Resolver → Operand → Option ℤ
lookup_num r (str s) = none
lookup_num r (num n) = some n
lookup_num r (param name) = r.num_of name
lookup_num r (func name) = r.num_of name
lookup_num r (ret name) = r.num_of name
lookup_num r (caller name) = r.num_of name

-- `rhs->str`
unfoldable pub operand_text : Operand → Option CStr
operand_text (num n) = none
operand_text (str s) = some s
operand_text (param s) = some s
operand_text (func s) = some s
operand_text (ret s) = some s
operand_text (caller s) = some s

abbrev pub not? : Option Bool → Option Bool
not? none = none
not? (some b) = some (not b)

-- Two texts, one of which may be NULL.
unfoldable pub same_text : Option CStr → Option CStr → Bool
same_text none none = true
same_text none (some _) = false
same_text (some _) none = false
same_text (some s) (some t) = str_eq s t

-- The numeric comparison at the end.
unfoldable pub compare_num : Op → ℤ → ℤ → Bool
compare_num eq l r = eqb_ℤ l r
compare_num ne l r = not (eqb_ℤ l r)
compare_num lt l r = ltb_ℤ l r
compare_num le l r = leb_ℤ l r
compare_num gt l r = ltb_ℤ r l
compare_num ge l r = leb_ℤ r l
compare_num glob l r = false
compare_num nglob l r = false

unfoldable pub numeric : Op → Option ℤ → Option ℤ → Bool
numeric op (some l) (some r) = compare_num op l r
numeric op (some l) none = false
numeric op none r = false

-- `==` when `wanted`, and `!=` otherwise: texts where both sides resolve as one, or numbers.
unfoldable pub equality : Bool → Option (Option CStr) → Option (Option CStr) → Bool → Bool
equality wanted (some l) (some r) number = if wanted then same_text l r else not (same_text l r)
equality wanted (some l) none number = number
equality wanted none r number = number

module _ (char_le : ℕ → ℕ → Bool) (res : Resolver) where
  unfoldable pub eval_glob : Option (Option CStr) → Operand → Bool → Option Bool
  eval_glob none rhs wanted = some false
  eval_glob (some none) rhs wanted = some false
  eval_glob (some (some s)) rhs wanted =
      let m = glob_match char_le (operand_text rhs) (some s) in if wanted then m else not? m

  unfoldable pub eval_cmp : Op → Operand → Operand → Option Bool
  unfolding eval_glob lookup_str operand_text lookup_num numeric equality compare_num same_text
  eval_cmp glob l r = eval_glob (lookup_str res l) r true
  eval_cmp nglob l r = eval_glob (lookup_str res l) r false
  eval_cmp eq l r = some (
      equality true (lookup_str res l) (lookup_str res r)
        (numeric eq (lookup_num res l) (lookup_num res r)))
  eval_cmp ne l r = some (
      equality false (lookup_str res l) (lookup_str res r)
        (numeric ne (lookup_num res l) (lookup_num res r)))
  eval_cmp lt l r = some (numeric lt (lookup_num res l) (lookup_num res r))
  eval_cmp le l r = some (numeric le (lookup_num res l) (lookup_num res r))
  eval_cmp gt l r = some (numeric gt (lookup_num res l) (lookup_num res r))
  eval_cmp ge l r = some (numeric ge (lookup_num res l) (lookup_num res r))

  -- `||` and `&&` evaluate the right side on demand; `none` is a glob that does not end.
  unfoldable pub eval_node : Node → Option Bool
  unfolding eval_cmp
  eval_node (or l r) = elim (eval_node l) [
    | none ↦ none
    | some b ↦ if b then some true else eval_node r
  ]
  eval_node (and l r) = elim (eval_node l) [
    | none ↦ none
    | some b ↦ if b then eval_node r else some false
  ]
  eval_node (negation n) = not? (eval_node n)
  eval_node (cmp op l r) = eval_cmp op l r

  -- `retrace_filter_eval_resolved`
  unfoldable pub eval_resolved : Option Ast → Option Bool
  unfolding eval_node
  eval_resolved none = some true
  eval_resolved (some ast) = eval_node ast.root

-- `struct FuncParam`, the fields that are read here.
pub record FuncParam : Type 0 where
  pub name : CStr
  pub modifiers : ℕ
  pub ref_type_name : CStr
  pub val : ℤ

-- `struct ThreadContext`, the fields that are read here; no return address is 0.
pub record ThreadContext : Type 0 where
  pub ret_val : ℤ
  pub ret_addr : ℕ
  pub params : List FuncParam

-- A pointer to a C string that is not NULL.
unfoldable pub is_text : FuncParam → Bool
is_text fp =
    fp.modifiers % 2 == 1 && not (eqb_ℤ fp.val (pos 0)) && str_eq fp.ref_type_name (codes "sz")

-- The first parameter of the name.
unfoldable pub find_param : CStr → List FuncParam → Option FuncParam
find_param name [] = none
find_param name (fp ∷ params) = if str_eq fp.name name then some fp else find_param name params

module _ (text_at : ℤ → CStr) (cache : Cache DlInfo) (t_ctx : ThreadContext)
    (func_name : Option CStr) where
  -- The symbol of a hit in the caller cache; its counters are not followed here.
  unfoldable pub caller_name : Option DlInfo → Option CStr
  caller_name none = none
  caller_name (some info) = info.sname

  unfoldable pub tctx_str : CStr → Option (Option CStr)
  unfolding is_text find_param caller_name
  tctx_str name =
      if str_eq name (codes "func")
      then some func_name
      else if str_eq name (codes "caller")
      then some (
          if t_ctx.ret_addr == 0
          then none
          else caller_name (CallerCache.lookup t_ctx.ret_addr cache).0)
      else elim (find_param name t_ctx.params) [
        | none ↦ none
        | some fp ↦ some (if is_text fp then some (text_at fp.val) else none)
      ]

  unfoldable pub tctx_num : CStr → Option ℤ
  unfolding is_text find_param
  tctx_num name =
      if str_eq name (codes "ret")
      then some t_ctx.ret_val
      else elim (find_param name t_ctx.params) [
        | none ↦ none
        | some fp ↦ if is_text fp then none else some fp.val
      ]

  unfoldable pub tctx_resolver : Resolver
  unfolding tctx_str tctx_num
  tctx_resolver = record { num_of = tctx_num; str_of = tctx_str }

-- `retrace_filter_eval`
unfoldable pub eval :
    (ℕ → ℕ → Bool)
    → (ℤ → CStr)
    → Cache DlInfo
    → Option Ast
    → Option ThreadContext
    → Option CStr
    → Option Bool
unfolding eval_resolved tctx_resolver
eval char_le text_at cache ast none func_name = some false
eval char_le text_at cache ast (some t_ctx) func_name =
    eval_resolved char_le (tctx_resolver text_at cache t_ctx func_name) ast
