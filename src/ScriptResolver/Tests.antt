-- ===== src/ScriptResolver/Tests.antt =====
-- A configuration of four objects: 1 is a script for `open`, 2 one for `open` called from 64, 3 one
-- for `read` with the caller specification 4, which is the address 64.
use retrace.Prelude.{
  ℕ, ◌≡◌, refl, false, Option, none, some, [], ◌∷◌, arith, ◌==◌, if◌then◌else◌, CStr, codes, str_eq,
}
use retrace.Prelude.Int.{pos}
use retrace.Json.{Json}
use retrace.ConfigCache
use retrace.ConfigCache.{Snap, scan}
use retrace.ConfigCache.Lookup.{first_named}
use retrace.CallerMatch.{DlInfo, InfoCache}
use retrace.ScriptResolver.{walk, script_find, unconstrained}
use retrace.ScriptResolver.FastPath.{script_find-eq-walk, script_find_passes_over_specific}

abbrev text_of : ℕ → CStr → Option CStr
text_of o key =
    if str_eq key (codes "func_name")
    then (if o == 3 then some (codes "read") else some (codes "open"))
    else if str_eq key (codes "match_type")
    then some (codes "address")
    else none

abbrev four : Json
four = record {
  Object = ℕ;
  Number = ℕ;
  get_string = text_of;
  get_number = λ o key.
      if str_eq key (codes "return_addr")
      then (if o == 2 then 64 else 0)
      else (if o == 4 then 64 else 0);
  has_value = λ o key. false;
  get_array = λ o key. if o == 3 then some (some 4 ∷ []) else none;
  is_zero = λ n. n == 0;
  to_u64 = λ n. n;
  to_i64 = λ n. pos n;
}

abbrev unknown_to_dl : ℕ → Option DlInfo
unknown_to_dl a = none

abbrev empty_cache : InfoCache
empty_cache = record { entries = []; hits = 0; misses = 0 }

-- An index without buckets.
abbrev snap : Option (Snap ℕ)
snap = some (record { entries = (codes "open", 1) ∷ (codes "open", 2) ∷ []; buckets = [] })

script_find-eq-walk_example :
    script_find four unknown_to_dl snap (some 3 ∷ some 1 ∷ []) (codes "open") 64 empty_cache
    ≡ some (walk four unknown_to_dl 64 (codes "open") (some 3 ∷ some 1 ∷ []) none empty_cache)
unfolding ConfigCache.lookup first_named str_eq
script_find-eq-walk_example =
    script_find-eq-walk four unknown_to_dl snap (codes "open") (some 3 ∷ []) [] 1 64 empty_cache
      refl (refl, tt) (refl, tt) (refl, refl) tt tt

script_find_passes_over_specific_example :
    (walk four unknown_to_dl 64
        (codes "open")
        (some 3 ∷ some 1 ∷ some 3 ∷ some 2 ∷ [])
        none
        empty_cache
      ≡ (some 2, empty_cache))
    × (script_find four unknown_to_dl snap
          (some 3 ∷ some 1 ∷ some 3 ∷ some 2 ∷ [])
          (codes "open")
          64
          empty_cache
        ≡ some (some 1, empty_cache))
unfolding ConfigCache.lookup first_named str_eq unconstrained
script_find_passes_over_specific_example =
    script_find_passes_over_specific four unknown_to_dl snap (codes "open") (some 3 ∷ []) 1
      (some 3 ∷ []) 2 [] 64 empty_cache refl (refl, tt) (refl, tt) (refl, refl) (refl, tt)
      (refl, tt) (refl, refl) refl refl refl refl (omega arith)
