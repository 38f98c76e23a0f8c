-- ===== src/Sandbox/Openat.antt =====
-- src/core/actions/sandbox.c: the access class of `openat`, whose flags are its third argument
-- (src/core/prototypes/unistd.c).
use retrace.Prelude.{ℕ, ◌≡◌, refl, Bool, Option, none, some, List, [], ◌∷◌, CStr, codes, str_eq}
use retrace.Prelude.Int.{ℤ}
use retrace.FilterDsl.Eval.{FuncParam}
use retrace.PathSet.{Memory}
use retrace.Sandbox.{
  judge, Policy, text_arg, on_text, path_policy, env_policy, refuse, Call, is_among, flags_param,
  call_is_write, classes_deny,
}
use retrace.Sandbox.SetCache.{PathSets}

-- A call of `openat` with its three arguments.
abbrev pub openat : CStr → ℤ → ℕ → FuncParam → FuncParam → FuncParam → Call
openat type_name ret_val ret_errno dirfd path flags = record {
  func = codes "openat";
  type_name = type_name;
  ret_val = ret_val;
  ret_errno = ret_errno;
  params = dirfd ∷ path ∷ flags ∷ [];
}

module _ (text_at : ℤ → CStr) (content : ℕ → List (Option CStr)) (mem : Memory) (decoy_ok : Bool)
    (type_name : CStr) (ret_val : ℤ) (ret_errno : ℕ) (dirfd path flags others : FuncParam) where
  abbrev with_flags : FuncParam → Call
  with_flags fp = openat type_name ret_val ret_errno dirfd path fp

  classes_deny-flags :
      (classes : Option ℕ)
      → classes_deny text_at content mem decoy_ok classes (with_flags flags)
        ≡ classes_deny text_at content mem decoy_ok classes (with_flags others)
  unfolding classes_deny call_is_write flags_param is_among str_eq
  classes_deny-flags none = refl
  classes_deny-flags (some arr) = refl

  refuse-flags :
      (decoy_dir : Option CStr) (i : ℕ) (text : CStr)
      → refuse text_at content mem decoy_ok decoy_dir i text (with_flags flags)
        ≡ refuse text_at content mem decoy_ok decoy_dir i text (with_flags others)
  unfolding refuse call_is_write flags_param is_among str_eq
  refuse-flags none i text = refl
  refuse-flags (some dir) i text = refl

  on_text-flags :
      (p : Policy) (arg : Option (ℕ × FuncParam)) (sets : PathSets)
      → on_text text_at content mem decoy_ok p (with_flags flags) arg sets
        ≡ on_text text_at content mem decoy_ok p (with_flags others) arg sets
  unfolding on_text path_policy env_policy is_among str_eq
  on_text-flags p none sets = refl
  on_text-flags p (some (i, fp)) sets = rw (refuse-flags p.decoy_dir i (text_at fp.val)) refl

  -- The verdict on a call of `openat`, and the sets that it leaves, do not depend on the flags of the
  -- call, under any policy.
  pub judge-flags :
      (p : Policy) (sets : PathSets)
      → judge text_at content mem decoy_ok p
          (openat type_name ret_val ret_errno dirfd path flags)
          sets
        ≡ judge text_at content mem decoy_ok p
            (openat type_name ret_val ret_errno dirfd path others)
            sets
  unfolding judge
  judge-flags p sets =
      let arg = text_arg 0 (dirfd ∷ path ∷ []) in
      rw (classes_deny-flags p.deny_classes, on_text-flags p arg sets) refl
