-- ===== src/Sandbox/Rules.antt =====
-- src/core/actions/sandbox.c: what the action does to a call, as rules apart from the code.
use mathlib.Core.List.{append_assoc, append-nil}
use mathlib.Core.Bool.{false≢true}
use retrace.Prelude.{
  All-append, ℕ, ◌<◌, ◌≤◌, ◌≡◌, ◌≢◌, refl, sym, ap, ◌∙◌, subst, ◌⊎◌, inl, inr, Bool, true, false,
  ◌||◌, Option, none, some, List, [], ◌∷◌, ◌++◌, arith, length, take, All, CStr, codes, Bool-cases,
}
use retrace.Prelude.Int.{ℤ, pos, negsuc}
use retrace.FilterDsl.Eval.{FuncParam, is_text}
use retrace.PathSet.{Memory, walk, is_separator}
use retrace.Sandbox.{
  Call, Policy, env_funcs, Verdict, denies, decoys, text_arg, is_given, base_from, classes_deny,
  refuse, deny_ret, with_decoy, outcome, ia_sandbox,
}
use retrace.Sandbox.SetCache.{PathSets}
use retrace.Sandbox.Registry.{Coherent}
use retrace.Sandbox.Access.{
  Decides, Decides-or, Decides-and, Decides-str_eq, Any, Writes, is_among-Decides,
  has_string-Decides, call_is_write-Decides,
}
use retrace.Sandbox.Jail.{on_list, off_list, of_text, by_lists, ia_sandbox-by_lists}

-- The first text among the first two arguments, and what stands around it.
abbrev IsTextArg : List FuncParam → List FuncParam → FuncParam → List FuncParam → Type 0
IsTextArg params before fp behind =
    (params ≡ before ++ fp ∷ behind)
    × (length before < 2)
    × All (λ q. is_text q ≡ false) before
    × (is_text fp ≡ true)

-- What follows the last separator.
abbrev IsBase : CStr → CStr → Type 0
IsBase path base =
    (front : CStr) × (path ≡ front ++ base)
    × All (λ c. is_separator c ≡ false) base
    × ((front ≡ [])
        ⊎ ((before : CStr) × (c : ℕ) × (front ≡ before ++ c ∷ []) × (is_separator c ≡ true)))

-- The value of a refused call: NULL where a pointer is returned, else -1.
abbrev IsRefusal : Call → ℤ → Type 0
IsRefusal call ret =
    ((call.type_name ≡ codes "ptr") × (ret ≡ pos 0))
    ⊎ ((call.type_name ≢ codes "ptr") × (ret ≡ negsuc 0))

abbrev AnyList : Policy → Type 0
AnyList p =
    ((((p.deny_paths ≢ none) ⊎ (p.allow_paths ≢ none)) ⊎ (p.deny_classes ≢ none))
      ⊎ (p.allow_env ≢ none))
    ⊎ (p.deny_env ≢ none)

module _ (text_at : ℤ → CStr) (content : ℕ → List (Option CStr)) where
  -- A list that is given has the text, and has it not.
  abbrev Listed : Option ℕ → CStr → Type 0
  Listed none text = ⊥
  Listed (some arr) text = walk text (content arr) ≡ true

  abbrev Unlisted : Option ℕ → CStr → Type 0
  Unlisted none text = ⊥
  Unlisted (some arr) text = walk text (content arr) ≡ false

  abbrev HasWrite : Option ℕ → Type 0
  HasWrite none = ⊥
  HasWrite (some arr) = Any (λ item. item ≡ some (codes "write")) (content arr)

  abbrev ClassDenied : Policy → Call → Type 0
  ClassDenied p call = Writes text_at call × HasWrite p.deny_classes

  abbrev EnvDenied : Policy → Call → CStr → Type 0
  EnvDenied p call text =
      Any (λ f. call.func ≡ f) env_funcs × (Listed p.deny_env text ⊎ Unlisted p.allow_env text)

  abbrev PathDenied : Policy → CStr → Type 0
  PathDenied p text = Unlisted p.allow_paths text ⊎ Listed p.deny_paths text

  -- The status and the call that the action leaves, by the first rule that applies. `copy_at` is the
  -- address of the copy of a text, and `decoy_ok` whether there is memory for it.
  pub data Ruled (decoy_ok : Bool) (eacces : ℕ) (copy_at : CStr → ℤ) (p : Policy) (call : Call)
      : ℤ × Call → Type 0 where
    misuse :
        ¬ AnyList p
        → Ruled decoy_ok eacces copy_at p call (negsuc 0, record call { ret_val = negsuc 0 })
    class_denied :
        (ret : ℤ)
        → ClassDenied p call
        → IsRefusal call ret
        → Ruled decoy_ok eacces copy_at p call
            (negsuc 0, record call { ret_val = ret; ret_errno = eacces })
    no_text :
        AnyList p
        → ¬ ClassDenied p call
        → All (λ q. is_text q ≡ false) (take 2 call.params)
        → Ruled decoy_ok eacces copy_at p call (pos 0, call)
    env_denied :
        (before : List FuncParam) (fp : FuncParam) (behind : List FuncParam) (ret : ℤ)
        → ¬ ClassDenied p call
        → IsTextArg call.params before fp behind
        → EnvDenied p call (text_at fp.val)
        → IsRefusal call ret
        → Ruled decoy_ok eacces copy_at p call
            (negsuc 0, record call { ret_val = ret; ret_errno = eacces })
    path_denied :
        (before : List FuncParam) (fp : FuncParam) (behind : List FuncParam) (ret : ℤ)
        → ¬ ClassDenied p call
        → IsTextArg call.params before fp behind
        → ¬ EnvDenied p call (text_at fp.val)
        → PathDenied p (text_at fp.val)
        → (p.decoy_dir ≡ none) ⊎ (Writes text_at call ⊎ (decoy_ok ≡ false))
        → IsRefusal call ret
        → Ruled decoy_ok eacces copy_at p call
            (negsuc 0, record call { ret_val = ret; ret_errno = eacces })
    decoyed :
        (before : List FuncParam) (fp : FuncParam) (behind : List FuncParam) (dir base : CStr)
        → ¬ ClassDenied p call
        → IsTextArg call.params before fp behind
        → ¬ EnvDenied p call (text_at fp.val)
        → PathDenied p (text_at fp.val)
        → p.decoy_dir ≡ some dir
        → ¬ Writes text_at call
        → decoy_ok ≡ true
        → IsBase (text_at fp.val) base
        → Ruled decoy_ok eacces copy_at p call (
          pos 0,
          record call {
            params = before ++ record fp { val = copy_at (dir ++ 47 ∷ base) } ∷ behind;
          },
        )
    allowed :
        (before : List FuncParam) (fp : FuncParam) (behind : List FuncParam)
        → AnyList p
        → ¬ ClassDenied p call
        → IsTextArg call.params before fp behind
        → ¬ EnvDenied p call (text_at fp.val)
        → ¬ PathDenied p (text_at fp.val)
        → Ruled decoy_ok eacces copy_at p call (pos 0, call)

-- `base_from` has passed `front`, which ends in a separator, and `seen`, which has none.
base_from-IsBase :
    (path front seen s : CStr)
    → path ≡ front ++ (seen ++ s)
    → All (λ c. is_separator c ≡ false) seen
    → (front ≡ [])
      ⊎ ((before : CStr) × (c : ℕ) × (front ≡ before ++ c ∷ []) × (is_separator c ≡ true))
    → IsBase path (base_from (seen ++ s) s)
unfolding base_from
base_from-IsBase path front seen [] e h ends =
    subst (λ base. IsBase path base) (sym (append-nil seen))
      (front, e ∙ ap (λ l. front ++ l) (append-nil seen), h, ends)
base_from-IsBase path front seen (c ∷ s) e h ends = elim (Bool-cases (is_separator c)) [
  | inl t ↦
      let upto = front ++ seen in
      let split = e ∙ sym (append_assoc front seen (c ∷ s)) ∙ sym (append_assoc upto (c ∷ []) s) in
      rw t (base_from-IsBase path (upto ++ c ∷ []) [] s split tt (inr (upto, c, refl, t)))
  | inr f ↦
      let grown = append_assoc seen (c ∷ []) s in
      let next =
        base_from-IsBase path front (seen ++ c ∷ []) s (e ∙ ap (λ l. front ++ l) (sym grown))
          (All-append (λ x. is_separator x ≡ false) seen (c ∷ []) h (f, tt)) ends in
      rw f (subst (λ base. IsBase path (base_from base s)) grown next)
]

text_arg-cases :
    (params : List FuncParam)
    → ((text_arg 0 (take 2 params) ≡ none) × All (λ q. is_text q ≡ false) (take 2 params))
      ⊎ ((before : List FuncParam) × (fp : FuncParam) × (behind : List FuncParam) × (text_arg 0
              (take 2 params)
            ≡ some (length before, fp))
          × IsTextArg params before fp behind)
unfolding text_arg
text_arg-cases [] = inl (refl, tt)
text_arg-cases (a ∷ []) = elim (Bool-cases (is_text a)) [
  | inl e ↦ inr ([], a, [], rw e refl, (refl, omega arith, tt, e))
  | inr e ↦ inl (rw e refl, (e, tt))
]
text_arg-cases (a ∷ b ∷ params) = elim (Bool-cases (is_text a)) [
  | inl e ↦ inr ([], a, b ∷ params, rw e refl, (refl, omega arith, tt, e))
  | inr e ↦ elim (Bool-cases (is_text b)) [
    | inl f ↦ inr (a ∷ [], b, params, rw (e, f) refl, (refl, omega arith, (e, tt), f))
    | inr f ↦ inl (rw (e, f) refl, (e, (f, tt)))
  ]
]

with_decoy-lem :
    (fake : ℤ) (before : List FuncParam) (fp : FuncParam) (behind : List FuncParam)
    → with_decoy fake (length before) (before ++ fp ∷ behind)
      ≡ before ++ record fp { val = fake } ∷ behind
unfolding with_decoy
with_decoy-lem fake [] fp behind = refl
with_decoy-lem fake (a ∷ before) fp behind = ap (λ l. a ∷ l) (with_decoy-lem fake before fp behind)

deny_ret-IsRefusal : (call : Call) → IsRefusal call (deny_ret call)
unfolding deny_ret
deny_ret-IsRefusal call = elim (Decides-str_eq call.type_name (codes "ptr")) [
  | inl (e, ptr) ↦ inl (ptr, rw e refl)
  | inr (e, other) ↦ inr (other, rw e refl)
]

is_given-Decides : (o : Option ℕ) → Decides (is_given o) (o ≢ none)
is_given-Decides none = inr (refl, λ n. n refl)
is_given-Decides (some a) = inl (refl, λ e. cc)

AnyList-Decides :
    (p : Policy)
    → Decides
        (is_given p.deny_paths
          || is_given p.allow_paths
          || is_given p.deny_classes
          || is_given p.allow_env
          || is_given p.deny_env)
        (AnyList p)
AnyList-Decides p =
    Decides-or
      (Decides-or
        (Decides-or (Decides-or (is_given-Decides p.deny_paths) (is_given-Decides p.allow_paths))
          (is_given-Decides p.deny_classes))
        (is_given-Decides p.allow_env))
      (is_given-Decides p.deny_env)

module _ (text_at : ℤ → CStr) (content : ℕ → List (Option CStr)) (mem : Memory)
    (decoy_ok : Bool) where
  on_list-Decides :
      (o : Option ℕ) (text : CStr)
      → Decides (on_list text_at content mem decoy_ok o text) (Listed text_at content o text)
  on_list-Decides none text = inr (refl, λ a. a)
  on_list-Decides (some arr) text = elim (Bool-cases (walk text (content arr))) [
    | inl e ↦ inl (e, e)
    | inr e ↦ inr (e, λ t. false≢true (sym e ∙ t))
  ]

  off_list-Decides :
      (o : Option ℕ) (text : CStr)
      → Decides (off_list text_at content mem decoy_ok o text) (Unlisted text_at content o text)
  off_list-Decides none text = inr (refl, λ a. a)
  off_list-Decides (some arr) text = elim (Bool-cases (walk text (content arr))) [
    | inl e ↦ inr (rw e refl, λ t. false≢true (sym t ∙ e))
    | inr e ↦ inl (rw e refl, e)
  ]

  class-Decides :
      (p : Policy) (call : Call) (classes : Option ℕ)
      → Decides
          (classes_deny text_at content mem decoy_ok classes call)
          (Writes text_at call × HasWrite text_at content classes)
  unfolding classes_deny
  class-Decides p call none = inr (refl, λ a. a.1)
  class-Decides p call (some arr) =
      Decides-and (call_is_write-Decides text_at content mem decoy_ok call)
        (has_string-Decides (codes "write") (content arr))

  module _ (eacces : ℕ) (copy_at : CStr → ℤ) (p : Policy) (call : Call) where
    abbrev Rule : Verdict → Type 0
    Rule v = Ruled text_at content decoy_ok eacces copy_at p call (outcome eacces copy_at v call)

    refuse-Rule :
        (before : List FuncParam) (fp : FuncParam) (behind : List FuncParam) (dir : Option CStr)
        → p.decoy_dir ≡ dir
        → ¬ ClassDenied text_at content p call
        → IsTextArg call.params before fp behind
        → ¬ EnvDenied text_at content p call (text_at fp.val)
        → PathDenied text_at content p (text_at fp.val)
        → Rule (refuse text_at content mem decoy_ok dir (length before) (text_at fp.val) call)
    unfolding refuse outcome
    refuse-Rule before fp behind none d c t n b =
        path_denied before fp behind (deny_ret call) c t n b (inl d) (deny_ret-IsRefusal call)
    refuse-Rule before fp behind (some dir) d c t n b =
        let text = text_at fp.val in
        let base = base_from text text in
        let fake = copy_at (dir ++ 47 ∷ base) in
        elim (call_is_write-Decides text_at content mem decoy_ok call) [
          | inl (w, writes) ↦ rw w (
              path_denied before fp behind (deny_ret call) c t n b (inr (inl writes))
                (deny_ret-IsRefusal call))
          | inr (w, reads) ↦ elim (Bool-cases decoy_ok) [
            | inr m ↦
                let refused : Rule denies =
                  path_denied before fp behind (deny_ret call) c t n b (inr (inr m))
                    (deny_ret-IsRefusal call) in
                subst (λ v. Rule v) {x = denies} (sym (rw (w, m) refl)) refused
            | inl m ↦
                let params =
                  ap (with_decoy fake (length before)) t.0 ∙ with_decoy-lem fake before fp behind in
                let given : Rule (decoys (length before) (dir ++ 47 ∷ base)) =
                  subst
                    (λ l.
                      Ruled text_at content decoy_ok eacces copy_at p call
                        (pos 0, record call { params = l }))
                    (sym params)
                    (decoyed before fp behind dir base c t n b d reads m
                      (base_from-IsBase text [] [] text refl tt (inl refl))) in
                subst (λ v. Rule v) {x = decoys (length before) (dir ++ 47 ∷ base)}
                  (sym (rw (w, m) refl)) given
          ]
        ]

    of_text-Rule :
        (before : List FuncParam) (fp : FuncParam) (behind : List FuncParam)
        → AnyList p
        → ¬ ClassDenied text_at content p call
        → IsTextArg call.params before fp behind
        → Rule (of_text text_at content mem decoy_ok p call (some (length before, fp)))
    unfolding outcome
    of_text-Rule before fp behind a c t =
        let text = text_at fp.val in
        let env =
          Decides-and (is_among-Decides call.func env_funcs)
            (Decides-or (on_list-Decides p.deny_env text) (off_list-Decides p.allow_env text)) in
        let on_path =
          Decides-or (off_list-Decides p.allow_paths text) (on_list-Decides p.deny_paths text) in
        elim env [
          | inl (e, bad) ↦
              rw e (env_denied before fp behind (deny_ret call) c t bad (deny_ret-IsRefusal call))
          | inr (e, good) ↦ elim on_path [
            | inl (f, bad) ↦ rw (e, f) (refuse-Rule before fp behind p.decoy_dir refl c t good bad)
            | inr (f, fine) ↦ rw (e, f) (allowed before fp behind a c t good fine)
          ]
        ]

    by_lists-Rule : Rule (by_lists text_at content mem decoy_ok p call)
    unfolding outcome
    by_lists-Rule = elim (AnyList-Decides p) [
      | inr (g, none_given) ↦ rw g (misuse none_given)
      | inl (g, any_given) ↦ elim (class-Decides p call p.deny_classes) [
        | inl (e, bad) ↦ rw (g, e) (class_denied (deny_ret call) bad (deny_ret-IsRefusal call))
        | inr (e, good) ↦ elim (text_arg-cases call.params) [
          | inl (q, none_there) ↦ rw (g, e, q) (no_text any_given good none_there)
          | inr (before, fp, behind, q, t) ↦
              rw (g, e, q) (of_text-Rule before fp behind any_given good t)
        ]
      ]
    ]

    -- Where the registry is true of the policy arrays and there is room for their sets, the status and
    -- the call that the action leaves are those of the first rule that applies. The registry stays true.
    pub ia_sandbox-Ruled :
        (sets : PathSets)
        → ((arr : ℕ) → length (content arr) ≤ length mem.uninit)
        → Coherent content sets
        → Ruled text_at content decoy_ok eacces copy_at p call
            (ia_sandbox text_at content mem decoy_ok eacces copy_at (some p) call sets).0
          × Coherent content
              (ia_sandbox text_at content mem decoy_ok eacces copy_at (some p) call sets).1
    ia_sandbox-Ruled sets room k =
        let (same, kept) =
          ia_sandbox-by_lists text_at content mem decoy_ok room eacces copy_at p call sets k in
        (
          subst (λ r. Ruled text_at content decoy_ok eacces copy_at p call r) (sym same)
              by_lists-Rule,
          kept,
        )
