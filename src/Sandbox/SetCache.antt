-- ===== src/Sandbox/SetCache.antt =====
-- src/core/actions/sandbox.c: the registry of compiled sets. A policy array is known by its address.
use retrace.Prelude.{
  ℕ, ◌+◌, ◌-◌, ◌%◌, Bool, false, ◌&&◌, ◌||◌, Option, none, some, List, [], ◌∷◌, ◌==◌, if◌then◌else◌,
  set, length, CStr, str_eq,
}
use retrace.PathSet.{CompiledSet, Memory, entry_at, path_set_build, lookup, walk}

-- `struct path_set_cache`, and the registry of `PATH_SETS_MAX` of them.
pub record CachedSet : Type 0 where
  pub arr : ℕ
  pub set : Option CompiledSet

abbrev pub path_sets_max : ℕ
path_sets_max = 8

pub record PathSets : Type 0 where
  pub slots : List CachedSet
  pub next : ℕ

abbrev pub no_set : CachedSet
no_set = record { arr = 0; set = none }

abbrev pub both_equal : Option CStr → Option CStr → Bool
both_equal none copy = false
both_equal (some s) none = false
both_equal (some s) (some t) = str_eq s t

unfoldable pub path_set_valid : Option CompiledSet → List (Option CStr) → Bool
unfolding str_eq
path_set_valid none list = false
path_set_valid (some c) list =
    (c.count == length list)
    && ((length list == 0)
        || (both_equal (entry_at list 0) c.first_copy
            && both_equal (entry_at list (length list - 1)) c.last_copy))

-- The first set of the registry that is still the array's.
unfoldable pub find_set : ℕ → List (Option CStr) → List CachedSet → Option CompiledSet
unfolding path_set_valid
find_set arr list [] = none
find_set arr list (s ∷ slots) =
    let further = find_set arr list slots in
    if (s.arr == arr) && path_set_valid s.set list then s.set else further

unfoldable pub keep_set : ℕ → CompiledSet → PathSets → PathSets
keep_set arr c sets = record {
  slots = set sets.slots sets.next (record { arr = arr; set = some c });
  next = (sets.next + 1) % path_sets_max;
}

-- A set is made where the registry has none; without memory the list is walked.
unfoldable pub contains_new :
    Option CompiledSet → CStr → ℕ → List (Option CStr) → PathSets → Bool × PathSets
unfolding lookup walk keep_set
contains_new none path arr list sets = (walk path list, sets)
contains_new (some c) path arr list sets = (lookup path list c, keep_set arr c sets)

unfoldable pub contains_in :
    Option CompiledSet → Memory → CStr → ℕ → List (Option CStr) → PathSets → Bool × PathSets
unfolding lookup contains_new path_set_build
contains_in (some c) mem path arr list sets = (lookup path list c, sets)
contains_in none mem path arr list sets = contains_new (path_set_build mem list) path arr list sets

-- `list_contains`
unfoldable pub list_contains : Memory → CStr → ℕ → List (Option CStr) → PathSets → Bool × PathSets
unfolding find_set contains_in
list_contains mem path arr list sets =
    contains_in (find_set arr list sets.slots) mem path arr list sets
