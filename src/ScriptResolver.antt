-- ===== src/ScriptResolver.antt =====
-- src/core/script_resolver.c: which intercept script runs for a call, by the function's name and the
-- return address. The caller cache is the state that the search threads; the configuration cache
-- is the snapshot that it reads. A JSON object that may be NULL is an `Option`.
use retrace.Prelude.{
  ℕ, ◌+◌, ◌-◌, ◌^◌, Bool, true, false, not, ◌&&◌, ◌||◌, Option, none, some, List, [], ◌∷◌, ltb,
  ◌==◌, if◌then◌else◌, CStr, codes, str_eq,
}
use retrace.Prelude.Int.{ℤ, pos, negsuc, eqb_ℤ}
use retrace.Json.{Json}
use retrace.ConfigCache
use retrace.ConfigCache.{Snap}
use retrace.CallerMatch.{
  DlInfo, InfoCache, MatchKind, unknown, address, symbol, module_offset, kind_from_string,
  match_address, match_symbol, match_module_offset,
}
pub mod AnyMatch
pub mod Walk
pub mod FastPath
mod Tests

-- `(long long)ret_addr`
abbrev pub as_i64 : ℕ → ℤ
as_i64 a = if ltb a (2 ^ 63) then pos a else negsuc (2 ^ 64 - a - 1)

module _ (j : Json) (dladdr : ℕ → Option DlInfo) where
  open j use {Object, get_string, get_number, get_array, is_zero, to_u64, to_i64}

  unfoldable pub eval_entry : ℕ → Option Object → InfoCache → ℤ × InfoCache
  eval_entry ret_addr none c = (negsuc 0, c)
  eval_entry ret_addr (some entry) c =
      elim (kind_from_string (get_string entry (codes "match_type"))) [
        | unknown ↦ (negsuc 0, c)
        | address ↦ (match_address ret_addr (to_u64 (get_number entry (codes "value"))), c)
        | symbol ↦ match_symbol dladdr ret_addr (get_string entry (codes "value")) c
        | module_offset ↦
            match_module_offset dladdr ret_addr (get_string entry (codes "module"))
              (to_u64 (get_number entry (codes "offset"))) c
      ]

  -- The loop of `eval_caller_matches`.
  unfoldable pub eval_entries : ℕ → List (Option Object) → Bool → InfoCache → ℤ × InfoCache
  eval_entries ret_addr [] any c = (if any then pos 0 else negsuc 0, c)
  eval_entries ret_addr (entry ∷ rest) any c =
      let (rc, c') = eval_entry ret_addr entry c in
      let go_on = eval_entries ret_addr rest (any || not (eqb_ℤ rc (negsuc 0))) c' in
      if eqb_ℤ rc (pos 1) then (pos 1, c') else go_on

  unfoldable pub eval_caller_matches : ℕ → Object → InfoCache → ℤ × InfoCache
  unfolding eval_entries
  eval_caller_matches ret_addr script c = elim (get_array script (codes "caller_matches")) [
    | none ↦ (negsuc 0, c)
    | some entries ↦ eval_entries ret_addr entries false c
  ]

  -- `if (ret_cand == NULL) ret_cand = i_script`
  abbrev pub first_of_two : Option Object → Object → Option Object
  first_of_two none script = some script
  first_of_two (some cand) script = some cand

  -- What a script of the right name leads to: it is returned, or the walk goes on with a candidate.
  pub data Step : Type 0 where
    found : Object → Step
    walk_on : Option Object → Step

  -- The legacy `return_addr` handling.
  unfoldable pub legacy : ℕ → Object → Option Object → Step
  legacy ret_addr script cand =
      let n = get_number script (codes "return_addr") in
      if ret_addr == 0
      then found script
      else if is_zero n
      then walk_on (first_of_two cand script)
      else if eqb_ℤ (as_i64 ret_addr) (to_i64 n)
      then found script
      else walk_on cand

  unfoldable pub try_script : ℕ → Object → Option Object → InfoCache → Step × InfoCache
  unfolding legacy
  try_script ret_addr script cand c =
      let (rc, c') = eval_caller_matches ret_addr script c in
      if eqb_ℤ rc (pos 1)
      then (found script, c')
      else if eqb_ℤ rc (pos 0)
      then (walk_on cand, c')
      else (legacy ret_addr script cand, c')

  -- The walk over the array with the candidate so far.
  unfoldable pub walk :
      ℕ → CStr → List (Option Object) → Option Object → InfoCache → Option Object × InfoCache
  walk ret_addr func [] cand c = (cand, c)
  walk ret_addr func (none ∷ rest) cand c = walk ret_addr func rest cand c
  walk ret_addr func (some script ∷ rest) cand c = elim (get_string script (codes "func_name")) [
    | none ↦ walk ret_addr func rest cand c
    | some name ↦
        let skip = walk ret_addr func rest cand c in
        let tried = try_script ret_addr script cand c in
        let after : Option Object × InfoCache = elim tried.0 [
          | found s ↦ (some s, tried.1)
          | walk_on cand' ↦ walk ret_addr func rest cand' tried.1
        ] in
        if str_eq name (codes "*")
        then (some script, c)
        else if str_eq name func
        then after
        else skip
  ]

  -- The fast path takes a script of the configuration cache with no call-site constraint.
  unfoldable pub unconstrained : Object → Bool
  unconstrained script = elim (get_array script (codes "caller_matches")) [
    | some _ ↦ false
    | none ↦ is_zero (get_number script (codes "return_addr"))
  ]

  -- `retrace_script_find`; the outer `none` is a cache lookup that does not end.
  unfoldable pub script_find :
      Option (Snap Object)
      → List (Option Object)
      → CStr
      → ℕ
      → InfoCache
      → Option (Option Object × InfoCache)
  unfolding unconstrained
  script_find snap scripts func ret_addr c =
      let slow = walk ret_addr func scripts none c in
      elim (ConfigCache.lookup snap (some func)) [
        | none ↦ none
        | some none ↦ some slow
        | some (some script) ↦ if unconstrained script then some (some script, c) else some slow
      ]
