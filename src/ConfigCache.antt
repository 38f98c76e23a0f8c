-- ===== src/ConfigCache.antt =====
-- src/core/config_cache.c: the per-call index of the intercept scripts by function name. A snapshot
-- holds the entries and an open-addressing table of entry numbers, one up, where 0 is empty.
use Prim.Native.Nat.{bit_and, bit_xor}
use retrace.Prelude.{
  ℕ, zero, suc, ◌+◌, ◌-◌, ◌*◌, ◌%◌, ◌^◌, Bool, true, false, Option, none, some, List, [], ◌∷◌, ◌++◌,
  ltb, leb, ◌==◌, if◌then◌else◌, length, get_or, get_elem?, set, replicate, CStr, codes, str_eq,
}
use retrace.Json.{Json}
pub mod Probe
pub mod Scan
pub mod Index
pub mod Lookup
mod Tests

abbrev pub max_entries : ℕ
max_entries = 256

-- `h ^= c; h *= 16777619u` on a `uint32_t`
abbrev pub fnv_step : ℕ → ℕ → ℕ
fnv_step h c = bit_xor h c * 16777619 % 2 ^ 32

name_hash_from : ℕ → CStr → ℕ
name_hash_from h [] = h
name_hash_from h (c ∷ s) = name_hash_from (fnv_step h c) s

unfoldable pub name_hash : CStr → ℕ
unfolding name_hash_from
name_hash s = name_hash_from 2166136261 s

-- `while (nb < want) nb <<= 1`; 64 rounds pass every `size_t`.
unfoldable pub table_size : ℕ → ℕ → ℕ → ℕ
table_size zero want nb = nb
table_size (suc fuel) want nb =
    let grown = table_size fuel want (nb * 2) in if ltb nb want then grown else nb

-- the next bucket, and the first one for a name
abbrev pub next : ℕ → ℕ → ℕ
next nb b = bit_and (b + 1) (nb - 1)

abbrev pub start : ℕ → CStr → ℕ
start nb name = bit_and (name_hash name) (nb - 1)

-- `while (buckets[b] != 0) b = next(b)`. A table of `nb` buckets is gone round in `nb` rounds, after
-- which the loop would not end; `none` stands for that.
unfoldable pub find_empty : ℕ → List ℕ → ℕ → ℕ → Option ℕ
find_empty zero buckets nb b = none
find_empty (suc fuel) buckets nb b =
    let rest = find_empty fuel buckets nb (next nb b) in
    if get_or buckets b 0 == 0 then some b else rest

module _ {ℓ} {A : Type ℓ} where
  -- `struct cache_entry`: a name and its script
  abbrev pub name_of : List (CStr × A) → ℕ → CStr
  name_of [] i = []
  name_of ((name, _) ∷ es) zero = name
  name_of (_ ∷ es) (suc i) = name_of es i

  abbrev pub script_of : List (CStr × A) → ℕ → Option A
  script_of [] i = none
  script_of ((_, script) ∷ es) zero = some script
  script_of (_ ∷ es) (suc i) = script_of es i

  -- The fill loop from entry `i` on; `none` if a search for an empty bucket does not end.
  unfoldable pub fill : List (CStr × A) → ℕ → ℕ → List ℕ → Option (List ℕ)
  fill [] nb i buckets = some buckets
  fill ((name, _) ∷ es) nb i buckets = elim (find_empty nb buckets nb (start nb name)) [
    | none ↦ none
    | some b ↦ fill es nb (i + 1) (set buckets b (i + 1))
  ]

  -- The `for (;;)` of the lookup; the outer `none` if it does not end.
  unfoldable pub probe : ℕ → List (CStr × A) → List ℕ → ℕ → CStr → ℕ → Option (Option A)
  probe zero es buckets nb name b = none
  probe (suc fuel) es buckets nb name b =
      let idx = get_or buckets b 0 in
      let rest = probe fuel es buckets nb name (next nb b) in
      if idx == 0
      then some none
      else if str_eq (name_of es (idx - 1)) name
      then some (script_of es (idx - 1))
      else rest

  -- the linear scan, where there are no buckets
  unfoldable pub scan : List (CStr × A) → CStr → Option A
  scan [] name = none
  scan ((j, script) ∷ es) name = if str_eq j name then some script else scan es name

-- `struct cache_snap`; `nbuckets` is the number of the buckets.
pub record Snap {ℓ} (A : Type ℓ) : Type ℓ where
  pub entries : List (CStr × A)
  pub buckets : List ℕ

module _ {ℓ} {A : Type ℓ} where
  -- the index over the entries, where `calloc` of the buckets succeeds or not
  unfoldable pub index : Bool → List (CStr × A) → Option (Snap A)
  unfolding table_size fill find_empty name_hash
  index false es = some (record { entries = es; buckets = [] })
  index true es =
      let nb = table_size 64 (length es * 4) 8 in
      elim (fill es nb 0 (replicate nb 0)) [
        | none ↦ none
        | some buckets ↦ some (record { entries = es; buckets = buckets })
      ]

  -- `retrace_config_cache_lookup`: no snapshot finds nothing. The outer `none` is a probe that
  -- does not end.
  unfoldable pub lookup : Option (Snap A) → Option CStr → Option (Option A)
  unfolding probe scan name_hash
  lookup snap none = some none
  lookup none (some name) = some none
  lookup (some snap) (some name) =
      let nb = length snap.buckets in
      if ltb 0 nb
      then probe nb snap.entries snap.buckets nb name (start nb name)
      else some (scan snap.entries name)

module _ (j : Json) where
  open j use {Object, get_string, get_array}

  -- The scripts that get an entry: objects with a name that is neither empty nor `*`. `room` is
  -- what is left of the table.
  unfoldable pub collect : ℕ → List (Option Object) → List (CStr × Object)
  collect zero scripts = []
  collect (suc room) [] = []
  collect (suc room) (none ∷ scripts) = collect (suc room) scripts
  collect (suc room) (some script ∷ scripts) = elim (get_string script (codes "func_name")) [
    | none ↦ collect (suc room) scripts
    | some name ↦
        let skip = collect (suc room) scripts in
        let keep = (name, script) ∷ collect room scripts in
        if str_eq name [] then skip else if str_eq name (codes "*") then skip else keep
  ]

  -- `retrace_config_cache_build`, with what the two `calloc` calls return: the new snapshot, or
  -- `none` for the status -1, which leaves the old one.
  unfoldable pub build : Option Object → Bool → Bool → Option (Option (Snap Object))
  unfolding collect index
  build none snap_ok buckets_ok = none
  build (some conf) snap_ok buckets_ok = elim (get_array conf (codes "intercept_scripts")) [
    | none ↦ none
    | some scripts ↦ if snap_ok then some (index buckets_ok (collect max_entries scripts)) else none
  ]

module _ {ℓ} {A : Type ℓ} where
  -- `retrace_config_cache_clear`, if the empty snapshot is allocated
  unfoldable pub clear : Bool → Option (Snap A) → Option (Snap A)
  clear allocated snap =
      let empty : Snap A = record { entries = []; buckets = [] } in
      if allocated then some empty else snap

  -- `retrace_config_cache_count`
  unfoldable pub count : Option (Snap A) → ℕ
  count none = 0
  count (some s) = length s.entries
