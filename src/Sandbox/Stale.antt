-- ===== src/Sandbox/Stale.antt =====
-- src/core/actions/sandbox.c: a set that is taken for another list's, at the same address.
use retrace.Prelude.{
  ℕ, ◌+◌, ◌-◌, ◌%◌, ◌≤◌, ◌≡◌, refl, ap, true, false, Option, some, List, ◌∷◌, arith, ◌==◌, get_or,
  CStr,
}
use retrace.PathSet.{
  path_buckets, first_comp_hash, CompiledSet, Memory, sorted, scan, scan_bucket, lookup,
}
use retrace.PathSet.Sorted.{in_bucket}
use retrace.PathSet.Built.{sorted-off}
use retrace.Sandbox.SetCache.{
  CachedSet, PathSets, path_set_valid, find_set, contains_in, list_contains,
}

module _ (uninit : List ℕ) (old new : List (Option CStr)) (first last : Option CStr) where
  abbrev stale : CompiledSet
  stale = sorted uninit old first last

  empty_bucket :
      (path : CStr) (b : ℕ)
      → b ≤ path_buckets
      → in_bucket b old ≡ 0
      → scan_bucket path new stale b ≡ false
  unfolding scan_bucket scan
  empty_bucket path b h e =
      let next = sorted-off old uninit first last b h in
      ap (scan path new stale.idx (get_or stale.off b 0))
        {x = get_or stale.off (b + 1) 0 - get_or stale.off b 0} {y = 0} (omega (arith, next, e))

  -- A registry that holds at the address of a list a set of an older list with the same length, first
  -- and last entry: a path in whose bucket and in the common bucket the older list had no entry is not
  -- found in the new list, whatever the new list has between its first and its last entry.
  pub list_contains-stale :
      (mem : Memory) (path : CStr) (arr : ℕ) (rest : List CachedSet) (next : ℕ)
      → path_set_valid (some stale) new ≡ true
      → in_bucket (first_comp_hash path % path_buckets) old ≡ 0
      → in_bucket path_buckets old ≡ 0
      → let sets : PathSets = record {
        slots = record { arr = arr; set = some stale } ∷ rest;
        next = next;
      } in
        list_contains mem path arr new sets ≡ (false, sets)
  unfolding list_contains find_set contains_in lookup
  list_contains-stale mem path arr rest next valid own common =
      let here : (arr == arr) ≡ true = ground arith in
      let bound : first_comp_hash path % path_buckets ≤ path_buckets = omega arith in
      rw
        (
          here,
          valid,
          empty_bucket path (first_comp_hash path % path_buckets) bound own,
          empty_bucket path path_buckets (omega arith) common,
        )
        refl
