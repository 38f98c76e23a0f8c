-- ===== src/Sandbox/Jail.antt =====
-- src/core/actions/sandbox.c: the action against the policy read off its lists.
use retrace.Prelude.{
  ℕ, ◌≤◌, ◌≡◌, refl, ap, inl, inr, Bool, true, false, not, ◌&&◌, ◌||◌, Option, none, some, List,
  if◌then◌else◌, take, length, CStr, Bool-cases,
}
use retrace.Prelude.Int.{ℤ}
use retrace.FilterDsl.Eval.{FuncParam}
use retrace.PathSet.{Memory, walk}
use retrace.Sandbox.{
  Call, Policy, env_funcs, is_among, Verdict, misused, passes, denies, text_arg, is_given,
  classes_deny, denied_by, refuse, path_policy, env_policy, on_text, judge, ia_sandbox, outcome,
}
use retrace.Sandbox.SetCache.{PathSets}
use retrace.Sandbox.Registry.{Coherent, list_contains-walk}

module _ (text_at : ℤ → CStr) (content : ℕ → List (Option CStr)) (mem : Memory)
    (decoy_ok : Bool) where
  -- The text is on the list, and the text is missing from it; neither for a list that is not given.
  abbrev pub on_list : Option ℕ → CStr → Bool
  on_list none path = false
  on_list (some arr) path = walk path (content arr)

  abbrev pub off_list : Option ℕ → CStr → Bool
  off_list none path = false
  off_list (some arr) path = not (walk path (content arr))

  -- What the lists say of a text, in the order of the header of the source.
  abbrev pub of_text : Policy → Call → Option (ℕ × FuncParam) → Verdict
  of_text p call none = passes
  of_text p call (some (i, fp)) =
      let path = text_at fp.val in
      if is_among call.func env_funcs && (on_list p.deny_env path || off_list p.allow_env path)
      then denies
      else if off_list p.allow_paths path || on_list p.deny_paths path
      then refuse text_at content mem decoy_ok p.decoy_dir i path call
      else passes

  abbrev pub by_lists : Policy → Call → Verdict
  by_lists p call =
      if not (
        is_given p.deny_paths
        || is_given p.allow_paths
        || is_given p.deny_classes
        || is_given p.allow_env
        || is_given p.deny_env)
      then misused
      else if classes_deny text_at content mem decoy_ok p.deny_classes call
      then denies
      else of_text p call (text_arg 0 (take 2 call.params))

  module _ (room : (arr : ℕ) → length (content arr) ≤ length mem.uninit) where
    denied_by-on :
        (o : Option ℕ) (path : CStr) (sets : PathSets)
        → Coherent content sets
        → ((denied_by text_at content mem decoy_ok true o path sets).0 ≡ on_list o path)
          × Coherent content (denied_by text_at content mem decoy_ok true o path sets).1
    unfolding denied_by
    denied_by-on none path sets k = (refl, k)
    denied_by-on (some arr) path sets k = list_contains-walk content mem path arr sets (room arr) k

    denied_by-off :
        (o : Option ℕ) (path : CStr) (sets : PathSets)
        → Coherent content sets
        → ((denied_by text_at content mem decoy_ok false o path sets).0 ≡ off_list o path)
          × Coherent content (denied_by text_at content mem decoy_ok false o path sets).1
    unfolding denied_by
    denied_by-off none path sets k = (refl, k)
    denied_by-off (some arr) path sets k =
        let (found, kept) = list_contains-walk content mem path arr sets (room arr) k in
        (ap not found, kept)

    -- A verdict, and a registry that is still true of the arrays.
    abbrev Gives : Verdict → Verdict × PathSets → Type 0
    Gives v r = (r.0 ≡ v) × Coherent content r.1

    path_policy-Gives :
        (p : Policy) (call : Call) (i : ℕ) (path : CStr) (sets : PathSets)
        → Coherent content sets
        → Gives
            (if off_list p.allow_paths path || on_list p.deny_paths path
              then refuse text_at content mem decoy_ok p.decoy_dir i path call
              else passes)
            (path_policy text_at content mem decoy_ok p call i path sets)
    unfolding path_policy
    path_policy-Gives p call i path sets k =
        let (off, k1) = denied_by-off p.allow_paths path sets k in
        let (on, k2) =
          denied_by-on p.deny_paths path
            (denied_by text_at content mem decoy_ok false p.allow_paths path sets).1 k1 in
        elim (Bool-cases (off_list p.allow_paths path)) [
          | inl a ↦ rw (off, a) (refl, k1)
          | inr a ↦ elim (Bool-cases (on_list p.deny_paths path)) [
            | inl d ↦ rw (off, a, on, d) (refl, k2)
            | inr d ↦ rw (off, a, on, d) (refl, k2)
          ]
        ]

    env_policy-Gives :
        (p : Policy) (call : Call) (path : CStr) (sets : PathSets)
        → Coherent content sets
        → ((env_policy text_at content mem decoy_ok p call path sets).0 ≡ (
            is_among call.func env_funcs && (on_list p.deny_env path || off_list p.allow_env path)))
          × Coherent content (env_policy text_at content mem decoy_ok p call path sets).1
    unfolding env_policy
    env_policy-Gives p call path sets k =
        let (on, k1) = denied_by-on p.deny_env path sets k in
        let (off, k2) = denied_by-off p.allow_env path _ k1 in
        elim (Bool-cases (is_among call.func env_funcs)) [
          | inr e ↦ rw e (refl, k)
          | inl e ↦ elim (Bool-cases (on_list p.deny_env path)) [
            | inl d ↦ rw (e, on, d) (refl, k1)
            | inr d ↦ rw (e, on, d) (off, k2)
          ]
        ]

    on_text-Gives :
        (p : Policy) (call : Call) (o : Option (ℕ × FuncParam)) (sets : PathSets)
        → Coherent content sets
        → Gives (of_text p call o) (on_text text_at content mem decoy_ok p call o sets)
    unfolding on_text
    on_text-Gives p call none sets k = (refl, k)
    on_text-Gives p call (some (i, fp)) sets k =
        let path = text_at fp.val in
        let (env, k1) = env_policy-Gives p call path sets k in
        elim (Bool-cases (
          is_among call.func env_funcs && (on_list p.deny_env path || off_list p.allow_env path))) [
            | inl e ↦ rw (env, e) (refl, k1)
            | inr e ↦ rw (env, e) (path_policy-Gives p call i path _ k1)
          ]

    -- The same for the whole decision.
    judge-by_lists :
        (p : Policy) (call : Call) (sets : PathSets)
        → Coherent content sets
        → ((judge text_at content mem decoy_ok p call sets).0 ≡ by_lists p call)
          × Coherent content (judge text_at content mem decoy_ok p call sets).1
    unfolding judge
    judge-by_lists p call sets k =
        elim (Bool-cases (
          not (
            is_given p.deny_paths
            || is_given p.allow_paths
            || is_given p.deny_classes
            || is_given p.allow_env
            || is_given p.deny_env))) [
              | inl a ↦ rw a (refl, k)
              | inr a ↦
                  elim (Bool-cases
                    (classes_deny text_at content mem decoy_ok p.deny_classes call)) [
                      | inl c ↦ rw (a, c) (refl, k)
                      | inr c ↦
                          rw (a, c) (on_text-Gives p call (text_arg 0 (take 2 call.params)) sets k)
                    ]
            ]

    -- Where the registry is true of the policy arrays and there is room for their sets, the status and
    -- the call that the action leaves are those of the verdict that is read off the lists: an
    -- environment name that `deny_env` has or `allow_env` has not is denied, a path that `allow_paths`
    -- has not or `deny_paths` has is denied or replaced by a decoy, and a call without a text passes
    -- unless its class is denied. The registry stays true.
    pub ia_sandbox-by_lists :
        (eacces : ℕ) (copy_at : CStr → ℤ) (p : Policy) (call : Call) (sets : PathSets)
        → Coherent content sets
        → ((ia_sandbox text_at content mem decoy_ok eacces copy_at (some p) call sets).0
            ≡ outcome eacces copy_at (by_lists p call) call)
          × Coherent content
              (ia_sandbox text_at content mem decoy_ok eacces copy_at (some p) call sets).1
    unfolding ia_sandbox
    ia_sandbox-by_lists eacces copy_at p call sets k =
        let (verdict, kept) = judge-by_lists p call sets k in
        (ap (λ v. outcome eacces copy_at v call) verdict, kept)
