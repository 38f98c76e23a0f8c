-- ===== src/FilterDsl/ThreadCall.antt =====
-- core/filter_dsl.c: the evaluation ends in every domain, and what the domain of a thread's call does
-- with the names of parameters.
use retrace.Prelude.{
  ℕ, ◌≡◌, refl, inl, inr, Bool, true, false, not, Option, none, some, CStr, codes, str_eq,
  if◌then◌else◌, Bool-cases, Option-cases,
}
use retrace.Prelude.Int.{ℤ}
use retrace.CallerCache.{Cache}
use retrace.CallerMatch.{DlInfo}
use retrace.FilterDsl.GlobStep.{glob_match}
use retrace.FilterDsl.GlobMatch.{glob_match-ends}
use retrace.FilterDsl.Ast.{
  Op, eq, ne, lt, le, gt, ge, glob, nglob, Operand, param, Node, or, and, negation, cmp,
}
use retrace.FilterDsl.Eval.{
  Resolver, lookup_str, operand_text, same_text, equality, not?, eval_glob, eval_cmp, eval_node,
  eval_resolved, ThreadContext, is_text, find_param, tctx_str, tctx_num, tctx_resolver, eval,
}

abbrev Ends : Option Bool → Type 0
Ends r = (b : Bool) × (r ≡ some b)

not?-Ends : (r : Option Bool) → Ends r → Ends (not? r)
not?-Ends r (b, e) = rw e (not b, refl)

if-Ends : (x y : Option Bool) → Ends x → Ends y → (b : Bool) → Ends (if b then x else y)
if-Ends x y h k true = h
if-Ends x y h k false = k

connective-Ends :
    (a : Option Bool) (k : Bool → Option Bool)
    → Ends a
    → ((b : Bool) → Ends (k b))
    → Ends (elim a [ none ↦ none | some b ↦ k b ])
connective-Ends a k (b, e) h = rw e (h b)

some≢none {ℓ} : {A : Type ℓ} {a : A} → ¬ (none ≡ some a)
some≢none h = cc

module _ (char_le : ℕ → ℕ → Bool) (res : Resolver) where
  pattern-Ends : (o : Option CStr) (s : CStr) → Ends (glob_match char_le o (some s))
  unfolding glob_match
  pattern-Ends none s = (false, refl)
  pattern-Ends (some p) s = glob_match-ends char_le p s

  glob-Ends :
      (l : Option (Option CStr)) (r : Operand) (b : Bool) → Ends (eval_glob char_le res l r b)
  unfolding eval_glob
  glob-Ends none r b = (false, refl)
  glob-Ends (some none) r b = (false, refl)
  glob-Ends (some (some s)) r true = pattern-Ends (operand_text r) s
  glob-Ends (some (some s)) r false =
      not?-Ends (glob_match char_le (operand_text r) (some s)) (pattern-Ends (operand_text r) s)

  cmp-Ends : (op : Op) (l r : Operand) → Ends (eval_cmp char_le res op l r)
  unfolding eval_cmp
  cmp-Ends eq l r = (_, refl)
  cmp-Ends ne l r = (_, refl)
  cmp-Ends lt l r = (_, refl)
  cmp-Ends le l r = (_, refl)
  cmp-Ends gt l r = (_, refl)
  cmp-Ends ge l r = (_, refl)
  cmp-Ends glob l r = glob-Ends (lookup_str res l) r true
  cmp-Ends nglob l r = glob-Ends (lookup_str res l) r false

  -- The evaluation of every tree ends, in every domain of values.
  pub eval_node-ends : (n : Node) → (b : Bool) × (eval_node char_le res n ≡ some b)
  unfolding eval_node
  eval_node-ends (or l r) =
      connective-Ends (eval_node char_le res l)
        (λ b. if b then some true else eval_node char_le res r) (eval_node-ends l)
        (if-Ends (some true) (eval_node char_le res r) (true, refl) (eval_node-ends r))
  eval_node-ends (and l r) =
      connective-Ends (eval_node char_le res l)
        (λ b. if b then eval_node char_le res r else some false) (eval_node-ends l)
        (if-Ends (eval_node char_le res r) (some false) (eval_node-ends r) (false, refl))
  eval_node-ends (negation n) = not?-Ends (eval_node char_le res n) (eval_node-ends n)
  eval_node-ends (cmp op l r) = cmp-Ends op l r

module _ (text_at : ℤ → CStr) (cache : Cache DlInfo) (t_ctx : ThreadContext)
    (func_name : Option CStr) where
  -- A name that none of the builtins has.
  abbrev pub IsParam : CStr → Type 0
  IsParam name =
      (str_eq name (codes "func") ≡ false)
      × (str_eq name (codes "caller") ≡ false)
      × (str_eq name (codes "ret") ≡ false)

  num_no_text :
      (name : CStr) (v : ℤ)
      → IsParam name
      → tctx_num text_at cache t_ctx func_name name ≡ some v
      → tctx_str text_at cache t_ctx func_name name ≡ some none
  unfolding tctx_num tctx_str
  num_no_text name v (f, c, r) e = elim (Option-cases (find_param name t_ctx.params)) [
    | inl o ↦ absurd (some≢none (rw (o, r, tctx_num) at e))
    | inr (fp, o) ↦ elim (Bool-cases (is_text fp)) [
      | inl t ↦ absurd (some≢none (rw (o, t, r, tctx_num) at e))
      | inr t ↦ rw (o, t, f, c, tctx_str) refl
    ]
  ]

  -- The comparison by == of two parameters of a call that are numbers holds, and the one by !=
  -- does not, whatever the two values are.
  pub eval-numbers :
      (char_le : ℕ → ℕ → Bool) (a b : CStr) (v w : ℤ) (cnt len : ℕ)
      → IsParam a
      → IsParam b
      → tctx_num text_at cache t_ctx func_name a ≡ some v
      → tctx_num text_at cache t_ctx func_name b ≡ some w
      → (eval char_le text_at cache
            (some (record { root = cmp eq (param a) (param b); node_cnt = cnt; arena_len = len }))
            (some t_ctx)
            func_name
          ≡ some true)
        × (eval char_le text_at cache
              (some (record { root = cmp ne (param a) (param b); node_cnt = cnt; arena_len = len }))
              (some t_ctx)
              func_name
            ≡ some false)
  unfolding eval eval_resolved eval_node eval_cmp tctx_resolver lookup_str equality same_text
  eval-numbers char_le a b v w cnt len ha hb ea eb =
      let sa = num_no_text a v ha ea in
      let sb = num_no_text b w hb eb in (rw (sa, sb) refl, rw (sa, sb) refl)
