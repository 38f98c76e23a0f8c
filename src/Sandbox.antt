-- ===== src/Sandbox.antt =====
-- src/core/actions/sandbox.c: the action that jails file and environment access. A policy array is
-- known by its address, and `content` gives the strings of the array at an address. The
-- registry of compiled sets (SetCache.antt) is passed and returned; the reports of a denial are left
-- out.
use retrace.Prelude.{
  ℕ, zero, suc, ◌+◌, ◌-◌, ◌%◌, Bool, true, false, not, ◌&&◌, ◌||◌, Option, none, some, List, [],
  ◌∷◌, ◌++◌, ◌==◌, if◌then◌else◌, get_or, set, length, CStr, codes, str_eq, take,
}
use retrace.Prelude.Int.{ℤ, pos, negsuc, eqb_ℤ}
use retrace.FilterDsl.Eval.{FuncParam, is_text}
use retrace.PathSet.{CompiledSet, Memory, entry_at, path_set_build, lookup, walk, is_separator}
use retrace.Sandbox.SetCache.{
  CachedSet, PathSets, both_equal, contains_in, contains_new, find_set, keep_set, list_contains,
  no_set, path_set_valid, path_sets_max,
}
pub mod SetCache
pub mod Registry
pub mod Stale
pub mod Access
pub mod Jail
pub mod Rules
pub mod Openat
mod Tests

-- `struct ThreadContext`, the fields that the action reads and writes, with the name and the return
-- type of its prototype.
pub record Call : Type 0 where
  pub func : CStr
  pub type_name : CStr
  pub ret_val : ℤ
  pub ret_errno : ℕ
  pub params : List FuncParam

-- The members of `action_params`; an array is its address.
pub record Policy : Type 0 where
  pub deny_paths : Option ℕ
  pub allow_paths : Option ℕ
  pub deny_classes : Option ℕ
  pub allow_env : Option ℕ
  pub deny_env : Option ℕ
  pub decoy_dir : Option CStr

-- `g_write_funcs` and `g_env_funcs`
abbrev pub write_funcs : List CStr
write_funcs =
    codes "unlink"
    ∷ codes "unlinkat"
    ∷ codes "rename"
    ∷ codes "renameat"
    ∷ codes "renameat2"
    ∷ codes "remove"
    ∷ codes "link"
    ∷ codes "linkat"
    ∷ codes "symlink"
    ∷ codes "symlinkat"
    ∷ codes "mkdir"
    ∷ codes "mkdirat"
    ∷ codes "rmdir"
    ∷ codes "truncate"
    ∷ codes "ftruncate"
    ∷ codes "creat"
    ∷ codes "chmod"
    ∷ codes "fchmod"
    ∷ codes "fchmodat"
    ∷ codes "chown"
    ∷ codes "lchown"
    ∷ codes "fchownat"
    ∷ codes "NtWriteFile"
    ∷ []

abbrev pub env_funcs : List CStr
env_funcs =
    codes "getenv" ∷ codes "setenv" ∷ codes "putenv" ∷ codes "unsetenv" ∷ codes "_putenv" ∷ []

-- The loops of `is_write_func` and `is_env_func`; a name that differs in its first byte differs.
unfoldable pub is_among : CStr → List CStr → Bool
unfolding str_eq
is_among name [] = false
is_among name (f ∷ funcs) = str_eq name f || is_among name funcs

-- The loop over the mode of `fopen`.
unfoldable pub mode_writes : CStr → Bool
mode_writes [] = false
mode_writes (c ∷ mode) = (c == 119) || (c == 97) || (c == 43) || mode_writes mode

-- `(long)val & 3`
unfoldable pub low_bits : ℤ → ℕ
low_bits (pos n) = n % 4
low_bits (negsuc n) = 3 - n % 4

abbrev pub open_writes : ℤ → Bool
open_writes val = (low_bits val == 1) || (low_bits val == 2)

abbrev pub second : List FuncParam → Option FuncParam
second [] = none
second (a ∷ []) = none
second (a ∷ b ∷ params) = some b

-- `any_string` of `deny_classes`
unfoldable pub has_string : CStr → List (Option CStr) → Bool
unfolding str_eq
has_string name [] = false
has_string name (none ∷ list) = has_string name list
has_string name (some s ∷ list) = str_eq s name || has_string name list

pub data Verdict : Type 0 where
  misused : Verdict
  passes : Verdict
  denies : Verdict
  decoys : ℕ → CStr → Verdict

-- The first string among the first two arguments.
unfoldable pub text_arg : ℕ → List FuncParam → Option (ℕ × FuncParam)
unfolding is_text
text_arg i [] = none
text_arg i (fp ∷ params) = if is_text fp then some (i, fp) else text_arg (suc i) params

-- The text behind the last separator, as `decoy` finds it.
unfoldable pub base_from : CStr → CStr → CStr
base_from base [] = base
base_from base (c ∷ s) = base_from (if is_separator c then s else base) s

abbrev pub is_given : Option ℕ → Bool
is_given none = false
is_given (some a) = true

module _ (text_at : ℤ → CStr) (content : ℕ → List (Option CStr)) (mem : Memory)
    (decoy_ok : Bool) where
  unfoldable pub mode_param : Option FuncParam → Bool
  unfolding mode_writes
  mode_param none = false
  mode_param (some fp) =
      fp.modifiers % 2 == 1 && not (eqb_ℤ fp.val (pos 0)) && mode_writes (text_at fp.val)

  unfoldable pub flags_param : Option FuncParam → Bool
  unfolding low_bits
  flags_param none = false
  flags_param (some fp) = open_writes fp.val

  unfoldable pub call_is_write : Call → Bool
  unfolding is_among mode_param flags_param
  call_is_write call =
      if is_among call.func write_funcs
      then true
      else if str_eq call.func (codes "fopen")
      then mode_param (second call.params)
      else if str_eq call.func (codes "open") || str_eq call.func (codes "openat")
      then flags_param (second call.params)
      else false

  unfoldable pub classes_deny : Option ℕ → Call → Bool
  unfolding call_is_write has_string
  classes_deny none call = false
  classes_deny (some arr) call = call_is_write call && has_string (codes "write") (content arr)

  -- A list that is not given is not looked into; `wanted` is what its answer must be to deny.
  unfoldable pub denied_by : Bool → Option ℕ → CStr → PathSets → Bool × PathSets
  unfolding list_contains
  denied_by wanted none path sets = (false, sets)
  denied_by wanted (some arr) path sets =
      let found = list_contains mem path arr (content arr) sets in
      (if wanted then found.0 else not found.0, found.1)

  -- A denial by a path list, or the decoy of a read.
  unfoldable pub refuse : Option CStr → ℕ → CStr → Call → Verdict
  unfolding call_is_write base_from
  refuse none i path call = denies
  refuse (some dir) i path call =
      if not (call_is_write call) && decoy_ok
      then decoys i (dir ++ 47 ∷ base_from path path)
      else denies

  -- The two path lists.
  unfoldable pub path_policy : Policy → Call → ℕ → CStr → PathSets → Verdict × PathSets
  unfolding denied_by refuse
  path_policy p call i path sets =
      let (off, sets1) = denied_by false p.allow_paths path sets in
      let (on, sets2) = denied_by true p.deny_paths path sets1 in
      if off
      then (refuse p.decoy_dir i path call, sets1)
      else (if on then refuse p.decoy_dir i path call else passes, sets2)

  -- The two lists of environment names, for a call with a string argument.
  unfoldable pub env_policy : Policy → Call → CStr → PathSets → Bool × PathSets
  unfolding denied_by is_among
  env_policy p call path sets =
      let (on, sets1) = denied_by true p.deny_env path sets in
      let (off, sets2) = denied_by false p.allow_env path sets1 in
      if is_among call.func env_funcs
      then (if on then (true, sets1) else (off, sets2))
      else (false, sets)

  unfoldable pub on_text : Policy → Call → Option (ℕ × FuncParam) → PathSets → Verdict × PathSets
  unfolding env_policy path_policy
  on_text p call none sets = (passes, sets)
  on_text p call (some (i, fp)) sets =
      let (refused, sets1) = env_policy p call (text_at fp.val) sets in
      if refused then (denies, sets1) else path_policy p call i (text_at fp.val) sets1

  unfoldable pub judge : Policy → Call → PathSets → Verdict × PathSets
  unfolding classes_deny on_text text_arg
  judge p call sets =
      if not (
        is_given p.deny_paths
        || is_given p.allow_paths
        || is_given p.deny_classes
        || is_given p.allow_env
        || is_given p.deny_env)
      then (misused, sets)
      else if classes_deny p.deny_classes call
      then (denies, sets)
      else on_text p call (text_arg 0 (take 2 call.params)) sets

-- `deny_ret`
unfoldable pub deny_ret : Call → ℤ
unfolding str_eq
deny_ret call = if str_eq call.type_name (codes "ptr") then pos 0 else negsuc 0

-- The argument that is replaced by the decoy, whose text is at `fake`.
unfoldable pub with_decoy : ℤ → ℕ → List FuncParam → List FuncParam
with_decoy fake i [] = []
with_decoy fake zero (fp ∷ params) = record fp { val = fake } ∷ params
with_decoy fake (suc i) (fp ∷ params) = fp ∷ with_decoy fake i params

-- The status and the call behind a verdict; a text that is copied is at `copy_at` of it.
unfoldable pub outcome : ℕ → (CStr → ℤ) → Verdict → Call → ℤ × Call
unfolding deny_ret with_decoy
outcome eacces copy_at misused call = (negsuc 0, record call { ret_val = negsuc 0 })
outcome eacces copy_at passes call = (pos 0, call)
outcome eacces copy_at denies call =
    (negsuc 0, record call { ret_val = deny_ret call; ret_errno = eacces })
outcome eacces copy_at (decoys i text) call =
    (pos 0, record call { params = with_decoy (copy_at text) i call.params })

-- `ia_sandbox`: the status and the call, and the registry.
unfoldable pub ia_sandbox :
    (ℤ → CStr)
    → (ℕ → List (Option CStr))
    → Memory
    → Bool
    → ℕ
    → (CStr → ℤ)
    → Option Policy
    → Call
    → PathSets
    → (ℤ × Call) × PathSets
unfolding judge outcome
ia_sandbox text_at content mem decoy_ok eacces copy_at none call sets =
    (outcome eacces copy_at misused call, sets)
ia_sandbox text_at content mem decoy_ok eacces copy_at (some p) call sets =
    let (verdict, sets') = judge text_at content mem decoy_ok p call sets in
    (outcome eacces copy_at verdict call, sets')
