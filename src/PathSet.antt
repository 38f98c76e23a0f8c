-- ===== src/PathSet.antt =====
-- src/core/actions/sandbox.c: the test of a path against a list of paths, and the bucket of an
-- entry in the compiled set.
use retrace.Prelude.{
  ℕ, zero, suc, ◌+◌, ◌-◌, ◌%◌, Option, none, some, get_or, get_elem?, set, replicate, take, Bool,
  true, false, ◌&&◌, ◌||◌, List, [], ◌∷◌, ◌==◌, if◌then◌else◌, CStr, str_eq, length,
}
use retrace.ConfigCache.{fnv_step}
pub mod Buckets
pub mod Sorted
pub mod Built
pub mod Lookup

-- `PATH_BUCKETS`
abbrev pub path_buckets : ℕ
path_buckets = 32

-- A slash or a backslash.
abbrev pub is_separator : ℕ → Bool
is_separator c = (c == 47) || (c == 92)

-- The last byte is a separator.
unfoldable pub ends_in_separator : CStr → Bool
ends_in_separator [] = false
ends_in_separator (c ∷ []) = is_separator c
ends_in_separator (c ∷ d ∷ s) = ends_in_separator (d ∷ s)

-- `strncmp(path_arg, entry, elen) == 0`, where `elen` is the length of `entry`.
unfoldable pub starts_with : CStr → CStr → Bool
starts_with [] path = true
starts_with (e ∷ entry) [] = false
starts_with (e ∷ entry) (p ∷ path) = (p == e) && starts_with entry path

unfoldable pub path_matches : CStr → CStr → Bool
unfolding ends_in_separator starts_with str_eq
path_matches path [] = false
path_matches path (e ∷ entry) =
    if ends_in_separator (e ∷ entry) then starts_with (e ∷ entry) path else str_eq path (e ∷ entry)

-- The loop of `first_comp_hash`.
unfoldable pub component_hash : ℕ → CStr → ℕ
component_hash h [] = h
component_hash h (c ∷ s) =
    let rest = component_hash (fnv_step h c) s in if is_separator c then h else rest

abbrev skip_slash : CStr → CStr
skip_slash [] = []
skip_slash (c ∷ s) = if c == 47 then s else c ∷ s

unfoldable pub first_comp_hash : CStr → ℕ
unfolding component_hash
first_comp_hash s = component_hash 2166136261 (skip_slash s)

unfoldable pub entry_bucket : CStr → ℕ
unfolding ends_in_separator first_comp_hash
entry_bucket [] = path_buckets
entry_bucket (c ∷ s) =
    if c == 47
    then (if ends_in_separator (c ∷ s) && (length (c ∷ s) == 1)
        then path_buckets
        else first_comp_hash (c ∷ s) % path_buckets)
    else path_buckets

unfoldable pub bucket_of : Option CStr → ℕ
unfolding entry_bucket
bucket_of none = path_buckets
bucket_of (some e) = entry_bucket e

-- The set of a list. `count` and the copies of the first and the last entry tell whether it is
-- still the set of the list at its address.
pub record CompiledSet : Type 0 where
  pub count : ℕ
  pub first_copy : Option CStr
  pub last_copy : Option CStr
  pub off : List ℕ
  pub idx : List ℕ

unfoldable pub count_loop : List (Option CStr) → List ℕ → List ℕ
unfolding bucket_of
count_loop [] counts = counts
count_loop (e ∷ list) counts =
    count_loop list (set counts (bucket_of e) (get_or counts (bucket_of e) 0 + 1))

-- The sums that `off` and `cursor` begin with, and the last of `off`.
unfoldable pub off_loop : ℕ → List ℕ → List ℕ
off_loop off [] = off ∷ []
off_loop off (c ∷ counts) = off ∷ off_loop (off + c) counts

-- The last loop of `path_set_build`, from the entry `i`.
unfoldable pub place_loop : ℕ → List (Option CStr) → List ℕ → List ℕ → List ℕ
unfolding bucket_of
place_loop i [] cursor idx = idx
place_loop i (e ∷ list) cursor idx =
    let at = get_or cursor (bucket_of e) 0 in
    place_loop (suc i) list (set cursor (bucket_of e) (at + 1)) (set idx at i)

-- `json_array_get_string`: NULL out of range, and for an item that is no string.
abbrev pub entry_at : List (Option CStr) → ℕ → Option CStr
entry_at list i = elim (get_elem? list i) [ none ↦ none | some e ↦ e ]

abbrev path_set_strndup : Bool → Option CStr → Option CStr
path_set_strndup malloc_ok none = none
path_set_strndup malloc_ok (some s) = if malloc_ok then some s else none

-- The entries in their buckets, in an array `uninit` of any content.
unfoldable pub sorted : List ℕ → List (Option CStr) → Option CStr → Option CStr → CompiledSet
unfolding count_loop off_loop place_loop
sorted uninit list first last =
    let off = off_loop 0 (count_loop list (replicate (path_buckets + 1) 0)) in
    record {
      count = length list;
      first_copy = first;
      last_copy = last;
      off = off;
      idx = place_loop 0 list (take (path_buckets + 1) off) uninit;
    }

unfoldable pub with_copies :
    List ℕ → List (Option CStr) → Option CStr → Option CStr → Option CompiledSet
unfolding sorted
with_copies uninit list none last = none
with_copies uninit list (some first) none = none
with_copies uninit list (some first) (some last) =
    some (sorted uninit list (some first) (some last))

-- Whether the set's own memory and that of the two copies is granted.
pub record Memory : Type 0 where
  pub set_ok : Bool
  pub first_ok : Bool
  pub last_ok : Bool
  pub uninit : List ℕ

unfoldable pub path_set_build : Memory → List (Option CStr) → Option CompiledSet
unfolding with_copies sorted
path_set_build mem list =
    if mem.set_ok
    then (if length list == 0
        then some (sorted mem.uninit list none none)
        else with_copies mem.uninit list (path_set_strndup mem.first_ok (entry_at list 0))
            (path_set_strndup mem.last_ok (entry_at list (length list - 1))))
    else none

abbrev pub matches_at : CStr → Option CStr → Bool
matches_at path none = false
matches_at path (some e) = path_matches path e

-- The walk over the whole list, where there is no memory for a set.
unfoldable pub walk : CStr → List (Option CStr) → Bool
walk path [] = false
walk path (e ∷ list) = let rest = walk path list in if matches_at path e then true else rest

-- `k` places of `idx`, from `lo` on.
unfoldable pub scan : CStr → List (Option CStr) → List ℕ → ℕ → ℕ → Bool
scan path list idx lo zero = false
scan path list idx lo (suc k) =
    let rest = scan path list idx (lo + 1) k in
    if matches_at path (entry_at list (get_or idx lo 0)) then true else rest

-- One round of the loop on `buckets`.
unfoldable pub scan_bucket : CStr → List (Option CStr) → CompiledSet → ℕ → Bool
unfolding scan
scan_bucket path list set b =
    scan path list set.idx (get_or set.off b 0) (get_or set.off (b + 1) 0 - get_or set.off b 0)

unfoldable pub lookup : CStr → List (Option CStr) → CompiledSet → Bool
unfolding scan_bucket first_comp_hash
lookup path list set =
    if scan_bucket path list set (first_comp_hash path % path_buckets)
    then true
    else scan_bucket path list set path_buckets
