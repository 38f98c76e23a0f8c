-- ===== src/FilterDsl/Ast.antt =====
-- core/filter_dsl.c: the tree of a filter expression, and the state and the outcomes of its parser.
use retrace.Prelude.{ℕ, CStr}
use retrace.Prelude.Int.{ℤ}

-- `enum fop_kind`
pub data Op : Type 0 where
  eq : Op
  ne : Op
  lt : Op
  le : Op
  gt : Op
  ge : Op
  glob : Op
  nglob : Op

-- `struct foperand`, by `kind`.
pub data Operand : Type 0 where
  num : ℤ → Operand
  str : CStr → Operand
  param : CStr → Operand
  func : CStr → Operand
  ret : CStr → Operand
  caller : CStr → Operand

-- `struct fnode`, by `kind`; the children are pointers into the node array.
pub data Node : Type 0 where
  or : Node → Node → Node
  and : Node → Node → Node
  negation : Node → Node
  cmp : Op → Operand → Operand → Node

-- `struct fparser`; `text` is `&src[pos]`. The node array never leaves its first size.
pub record Parser : Type 0 where
  pub text : CStr
  pub pos : ℕ
  pub arena_cap : ℕ
  pub arena_len : ℕ
  pub node_cnt : ℕ

-- `undefined` is a use of freed memory or a signed overflow; an error has its place and message.
pub data Outcome (A : Type 0) : Type 0 where
  ok : A → Outcome A
  error : ℕ → CStr → Outcome A
  undefined : Outcome A
  no_fuel : Outcome A

-- A NULL result is passed on to the caller.
infixl 20 ◌>>=◌
unfoldable pub ◌>>=◌ : {A B : Type 0} → Outcome A → (A → Outcome B) → Outcome B
ok a >>= k = k a
error place msg >>= k = error place msg
undefined >>= k = undefined
no_fuel >>= k = no_fuel

-- `struct retrace_filter_ast`
pub record Ast : Type 0 where
  pub root : Node
  pub node_cnt : ℕ
  pub arena_len : ℕ
