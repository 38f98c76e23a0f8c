-- ===== src/ScriptResolver/FastPath.antt =====
-- When the configuration cache's answer is the answer of the walk over the scripts, and when not.
use retrace.Prelude.{
  ℕ, ◌≡◌, ◌≢◌, refl, sym, ap, ◌∙◌, true, false, Option, none, some, List, ◌∷◌, ◌++◌, if◌then◌else◌,
  CStr, codes, Bool-cases, inl, inr,
}
use retrace.Json.{Json}
use retrace.ConfigCache
use retrace.ConfigCache.{Snap}
use retrace.ConfigCache.Lookup.{first_named}
use retrace.CallerMatch.{DlInfo, InfoCache}
use retrace.ScriptResolver.{as_i64, walk, unconstrained, script_find}
use retrace.ScriptResolver.Walk.{
  is_named, NoneNamed, walk_named, goes_on, unconstrained_parts, try_legacy, walk_alone,
  first_named-alone, walk_others, legacy_candidate, legacy_hit,
}

module _ (j : Json) (dladdr : ℕ → Option DlInfo) where
  open j use {Object, get_string, get_number, get_array, is_zero, to_i64}

  script_find_hit :
      (snap : Option (Snap Object)) (scripts : List (Option Object)) (func : CStr) (ret_addr : ℕ)
      (c : InfoCache) (script : Object)
      → ConfigCache.lookup snap (some func) ≡ some (some script)
      → script_find j dladdr snap scripts func ret_addr c ≡ (
          if unconstrained j dladdr script
          then some (some script, c)
          else some (walk j dladdr ret_addr func scripts none c))
  unfolding script_find
  script_find_hit snap scripts func ret_addr c script e = rw (e, script_find) refl

  -- Where the configuration cache holds the first script of each name, exactly one script has the
  -- function's name and none is a wildcard, the search with its fast path returns what the walk over
  -- the scripts returns, and leaves the caller cache as the walk does.
  pub script_find-eq-walk :
      (snap : Option (Snap Object)) (func : CStr) (pre post : List (Option Object))
      (script : Object) (ret_addr : ℕ) (c : InfoCache)
      → ConfigCache.lookup snap (some func) ≡ some (first_named j (pre ++ some script ∷ post) func)
      → NoneNamed j dladdr func pre
      → NoneNamed j dladdr (codes "*") pre
      → (is_named j dladdr func (some script) ≡ true)
        × (is_named j dladdr (codes "*") (some script) ≡ false)
      → NoneNamed j dladdr func post
      → NoneNamed j dladdr (codes "*") post
      → script_find j dladdr snap (pre ++ some script ∷ post) func ret_addr c
        ≡ some (walk j dladdr ret_addr func (pre ++ some script ∷ post) none c)
  script_find-eq-walk snap func pre post script ret_addr c e h w n h' w' =
      let hit = e ∙ ap some (first_named-alone j dladdr func pre post script h n.0) in
      script_find_hit snap (pre ++ some script ∷ post) func ret_addr c script hit
      ∙ elim (Bool-cases (unconstrained j dladdr script)) [
        | inl u ↦
            rw u (ap some (sym (walk_alone j dladdr ret_addr func pre post script c h w n h' w' u)))
        | inr u ↦ rw u refl
      ]

  -- An unconstrained script of the function's name, and behind it a script of the same name with no
  -- `caller_matches` and with the call's return address, which is not 0: the walk returns the second,
  -- as the more specific of the two, and the search with its fast path returns the first. Neither has
  -- the name "*", no script before the second but the first has the function's name or the name "*",
  -- and the cache holds the first script of each name.
  pub script_find_passes_over_specific :
      (snap : Option (Snap Object)) (func : CStr) (pre : List (Option Object)) (general : Object)
      (mid : List (Option Object)) (specific : Object) (rest : List (Option Object)) (ret_addr : ℕ)
      (c : InfoCache)
      → ConfigCache.lookup snap (some func)
        ≡ some (first_named j (pre ++ some general ∷ (mid ++ some specific ∷ rest)) func)
      → NoneNamed j dladdr func pre
      → NoneNamed j dladdr (codes "*") pre
      → (is_named j dladdr func (some general) ≡ true)
        × (is_named j dladdr (codes "*") (some general) ≡ false)
      → NoneNamed j dladdr func mid
      → NoneNamed j dladdr (codes "*") mid
      → (is_named j dladdr func (some specific) ≡ true)
        × (is_named j dladdr (codes "*") (some specific) ≡ false)
      → unconstrained j dladdr general ≡ true
      → get_array specific (codes "caller_matches") ≡ none
      → is_zero (get_number specific (codes "return_addr")) ≡ false
      → to_i64 (get_number specific (codes "return_addr")) ≡ as_i64 ret_addr
      → ret_addr ≢ 0
      → let scripts = pre ++ some general ∷ (mid ++ some specific ∷ rest) in
        (walk j dladdr ret_addr func scripts none c ≡ (some specific, c))
        × (script_find j dladdr snap scripts func ret_addr c ≡ some (some general, c))
  script_find_passes_over_specific snap func pre g mid s rest a c e p p' n q q' m u absent nz same
        not_null =
      let (g_absent, g_zero) = unconstrained_parts j dladdr g u in
      let behind = mid ++ some s ∷ rest in
      let hit = e ∙ ap some (first_named-alone j dladdr func pre behind g p n.0) in
      (
        walk_others j dladdr a func pre (some g ∷ behind) none c p p'
            ∙ walk_named j dladdr a func g behind none c n
            ∙ ap (goes_on j dladdr a func g behind none c) (
                try_legacy j dladdr a g none c g_absent
                ∙ ap (λ t. (t, c)) (legacy_candidate j dladdr a g none not_null g_zero))
            ∙ walk_others j dladdr a func mid (some s ∷ rest) (some g) c q q'
            ∙ walk_named j dladdr a func s rest (some g) c m
            ∙ ap (goes_on j dladdr a func s rest (some g) c) (
                try_legacy j dladdr a s (some g) c absent
                ∙ ap (λ t. (t, c)) (legacy_hit j dladdr a s (some g) not_null nz same)),
        script_find_hit snap (pre ++ some g ∷ behind) func a c g hit ∙ rw u refl,
      )
