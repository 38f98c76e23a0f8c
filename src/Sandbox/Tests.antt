-- ===== src/Sandbox/Tests.antt =====
-- A jail of `open` under /srv/, and a list whose middle entry has changed.
use retrace.Prelude.{
  ℕ, ◌≤◌, ◌≡◌, refl, true, false, Option, none, some, List, [], ◌∷◌, ◌==◌, if◌then◌else◌, arith,
  length, replicate, CStr, codes, str_eq,
}
use retrace.Prelude.Int.{ℤ, pos, negsuc}
use retrace.FilterDsl.Eval.{FuncParam}
use retrace.PathSet.{Memory, path_matches, walk, first_comp_hash, sorted, entry_bucket}
use retrace.Sandbox.{Call, Policy, Verdict, judge, ia_sandbox}
use retrace.Sandbox.SetCache.{PathSets, no_set, path_set_valid, list_contains}
use retrace.Sandbox.Registry.{Coherent, IsTrueSlot, list_contains-walk}
use retrace.Sandbox.Jail.{by_lists}
use retrace.Sandbox.Rules.{Ruled, ia_sandbox-Ruled}
use retrace.Sandbox.Stale.{list_contains-stale}
use retrace.Sandbox.Openat.{openat, judge-flags}

abbrev arrays : ℕ → List (Option CStr)
arrays arr = if arr == 1 then some (codes "/srv/") ∷ [] else some (codes "write") ∷ []

abbrev memory : Memory
memory = record { set_ok = true; first_ok = true; last_ok = true; uninit = replicate 40 0 }

abbrev text_at : ℤ → CStr
text_at a = codes "/srv/data"

abbrev no_sets : PathSets
no_sets = record { slots = replicate 8 no_set; next = 0 }

no_set-IsTrueSlot : IsTrueSlot arrays no_set
no_set-IsTrueSlot c e v = cc

no_sets-Coherent : Coherent arrays no_sets
no_sets-Coherent = let t = no_set-IsTrueSlot in (t, (t, (t, (t, (t, (t, (t, (t, tt))))))))

arrays-room : (arr : ℕ) → length (arrays arr) ≤ 40
arrays-room arr = ground arith

-- A file, an item that is no string, a directory, and a relative entry, with no set made yet.
abbrev denied : List (Option CStr)
denied = some (codes "/etc/shadow") ∷ none ∷ some (codes "/root/") ∷ some (codes "notes") ∷ []

is_denied : (list_contains memory (codes "/root/.ssh") 5 denied no_sets).0 ≡ true
unfolding list_contains path_matches
is_denied = refl

is_allowed : (list_contains memory (codes "/etc/hosts") 5 denied no_sets).0 ≡ false
unfolding list_contains path_matches
is_allowed = refl

list_contains-walk_example :
    ((list_contains memory (codes "/srv/data") 1 (arrays 1) no_sets).0
      ≡ walk (codes "/srv/data") (arrays 1))
    × Coherent arrays (list_contains memory (codes "/srv/data") 1 (arrays 1) no_sets).1
list_contains-walk_example =
    list_contains-walk arrays memory (codes "/srv/data") 1 no_sets (arrays-room 1) no_sets-Coherent

abbrev path_param : FuncParam
path_param = record {
  name = codes "path";
  modifiers = 1;
  ref_type_name = codes "sz";
  val = pos 4096;
}

abbrev flags_one : FuncParam
flags_one = record { name = codes "flags"; modifiers = 0; ref_type_name = []; val = pos 1 }

abbrev open_call : Call
open_call = record {
  func = codes "open";
  type_name = codes "int";
  ret_val = pos 0;
  ret_errno = 0;
  params = path_param ∷ flags_one ∷ [];
}

abbrev jail : Policy
jail = record {
  deny_paths = none;
  allow_paths = some 1;
  deny_classes = none;
  allow_env = none;
  deny_env = none;
  decoy_dir = none;
}

jailed_path : by_lists text_at arrays memory true jail open_call ≡ Verdict.passes
unfolding judge str_eq path_matches
jailed_path = refl

abbrev no_writes : Policy
no_writes = record jail { deny_classes = some 0 }

abbrev copy_at : CStr → ℤ
copy_at text = pos 8192

ia_sandbox-Ruled_example :
    Ruled text_at arrays true 13 copy_at no_writes open_call
      (ia_sandbox text_at arrays memory true 13 copy_at (some no_writes) open_call no_sets).0
    × Coherent arrays
        (ia_sandbox text_at arrays memory true 13 copy_at (some no_writes) open_call no_sets).1
ia_sandbox-Ruled_example =
    ia_sandbox-Ruled text_at arrays memory true 13 copy_at no_writes open_call no_sets arrays-room
      no_sets-Coherent

-- A write is refused with -1 and EACCES.
refused_write :
    (ia_sandbox text_at arrays memory true 13 copy_at (some no_writes) open_call no_sets).0
    ≡ (negsuc 0, record open_call { ret_val = negsuc 0; ret_errno = 13 })
unfolding ia_sandbox str_eq
refused_write = refl

abbrev before : List (Option CStr)
before = some (codes "/a") ∷ some (codes "/b") ∷ some (codes "/d") ∷ []

abbrev edited : List (Option CStr)
edited = some (codes "/a") ∷ some (codes "/c") ∷ some (codes "/d") ∷ []

abbrev stale_sets : PathSets
stale_sets = record {
  slots =
      record {
        arr = 5;
        set = some (sorted (replicate 40 0) before (some (codes "/a")) (some (codes "/d")));
      }
      ∷ [];
  next = 1;
}

list_contains-stale_example :
    list_contains memory (codes "/c") 5 edited stale_sets ≡ (false, stale_sets)
unfolding path_set_valid sorted first_comp_hash entry_bucket
list_contains-stale_example =
    list_contains-stale (replicate 40 0) before edited (some (codes "/a")) (some (codes "/d"))
      memory (codes "/c") 5 [] 1 refl refl refl

abbrev flags_read : FuncParam
flags_read = record flags_one { val = pos 0 }

judge-flags_example :
    judge text_at arrays memory true no_writes
      (openat (codes "int") (pos 0) 0 flags_one path_param flags_one)
      no_sets
    ≡ judge text_at arrays memory true no_writes
        (openat (codes "int") (pos 0) 0 flags_one path_param flags_read)
        no_sets
judge-flags_example =
    judge-flags text_at arrays memory true (codes "int") (pos 0) 0 flags_one path_param flags_one
      flags_read no_writes no_sets
