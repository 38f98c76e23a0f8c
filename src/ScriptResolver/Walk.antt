-- ===== src/ScriptResolver/Walk.antt =====
-- What the walk over the scripts does at a script of another name, and at one of the function's name.
use mathlib.Core.Bool.{false≢true}
use mathlib.Core.List.{append-nil}
use retrace.Prelude.{
  ℕ, ◌≡◌, ◌≢◌, refl, sym, ap, ◌∙◌, Bool, true, false, Option, none, some, List, [], ◌∷◌, ◌++◌,
  arith, ◌==◌, CStr, codes, str_eq, Bool-cases, Option-cases, inl, inr, All,
}
use retrace.Prelude.Int.{ℤ, eqb_ℤ}
use retrace.Json.{Json}
use retrace.ConfigCache.Lookup.{first_named}
use retrace.CallerMatch.{DlInfo, InfoCache}
use retrace.ScriptResolver.{
  Step, found, walk_on, first_of_two, as_i64, eval_caller_matches, try_script, legacy, walk,
  unconstrained,
}

eqb_self : (a : ℤ) → eqb_ℤ a a ≡ true
eqb_self a = ground arith

module _ (j : Json) (dladdr : ℕ → Option DlInfo) where
  open j use {Object, get_string, get_number, get_array, is_zero, to_i64}

  -- Whether the script has this function name.
  abbrev pub is_named : CStr → Option Object → Bool
  is_named func none = false
  is_named func (some script) = elim (get_string script (codes "func_name")) [
    | none ↦ false
    | some name ↦ str_eq name func
  ]

  -- No script in the list has the name.
  abbrev pub NoneNamed : CStr → List (Option Object) → Type 0
  NoneNamed func = All (λ s. is_named func s ≡ false)

  -- What the walk does at a script, by its name.
  module _ (ret_addr : ℕ) (func : CStr) (script : Object) (rest : List (Option Object))
      (cand : Option Object) (c : InfoCache) where
    abbrev Other : Type 0
    Other = (is_named func (some script) ≡ false) × (is_named (codes "*") (some script) ≡ false)

    walk_other :
        Other
        → walk j dladdr ret_addr func (some script ∷ rest) cand c
          ≡ walk j dladdr ret_addr func rest cand c
    unfolding walk
    walk_other h = elim (Option-cases (get_string script (codes "func_name"))) [
      | inl e ↦ rw (e, walk) refl
      | inr (name, e) ↦
          let n : str_eq name func ≡ false = rw (e, is_named) at (h.0) in
          let w : str_eq name (codes "*") ≡ false = rw (e, is_named) at (h.1) in
          rw (e, walk, w, n) refl
    ]

    abbrev pub Named : Type 0
    Named = (is_named func (some script) ≡ true) × (is_named (codes "*") (some script) ≡ false)

    -- What is done with the outcome of `try_script`.
    abbrev pub goes_on : Step j dladdr × InfoCache → Option Object × InfoCache
    goes_on tried = elim tried.0 [
      | found s ↦ (some s, tried.1)
      | walk_on cand' ↦ walk j dladdr ret_addr func rest cand' tried.1
    ]

    pub walk_named :
        Named
        → walk j dladdr ret_addr func (some script ∷ rest) cand c
          ≡ goes_on (try_script j dladdr ret_addr script cand c)
    unfolding walk
    walk_named h = elim (Option-cases (get_string script (codes "func_name"))) [
      | inl e ↦ absurd (false≢true (rw (e, is_named) at (h.0)))
      | inr (name, e) ↦
          let n : str_eq name func ≡ true = rw (e, is_named) at (h.0) in
          let w : str_eq name (codes "*") ≡ false = rw (e, is_named) at (h.1) in
          rw (e, walk, w, n) refl
    ]

  pub unconstrained_parts :
      (script : Object)
      → unconstrained j dladdr script ≡ true
      → (get_array script (codes "caller_matches") ≡ none)
        × (is_zero (get_number script (codes "return_addr")) ≡ true)
  unfolding unconstrained
  unconstrained_parts script h = elim (Option-cases (get_array script (codes "caller_matches"))) [
    | inl e ↦ (e, rw (e, unconstrained) at h)
    | inr (l, e) ↦ absurd (false≢true (rw (e, unconstrained) at h))
  ]

  -- A script with no `caller_matches` is left to the legacy handling.
  pub try_legacy :
      (ret_addr : ℕ) (script : Object) (cand : Option Object) (c : InfoCache)
      → get_array script (codes "caller_matches") ≡ none
      → try_script j dladdr ret_addr script cand c ≡ (legacy j dladdr ret_addr script cand, c)
  unfolding try_script eval_caller_matches
  try_legacy ret_addr script cand c e = rw (e, eval_caller_matches) refl

  pub walk_others :
      (ret_addr : ℕ) (func : CStr) (pre rest : List (Option Object)) (cand : Option Object)
      (c : InfoCache)
      → NoneNamed func pre
      → NoneNamed (codes "*") pre
      → walk j dladdr ret_addr func (pre ++ rest) cand c ≡ walk j dladdr ret_addr func rest cand c
  unfolding walk
  walk_others ret_addr func [] rest cand c h w = refl
  walk_others ret_addr func (none ∷ pre) rest cand c h w =
      walk_others ret_addr func pre rest cand c h.1 w.1
  walk_others ret_addr func (some script ∷ pre) rest cand c h w =
      walk_other ret_addr func script (pre ++ rest) cand c (h.0, w.0)
      ∙ walk_others ret_addr func pre rest cand c h.1 w.1

  walk_none :
      (ret_addr : ℕ) (func : CStr) (post : List (Option Object)) (cand : Option Object)
      (c : InfoCache)
      → NoneNamed func post
      → NoneNamed (codes "*") post
      → walk j dladdr ret_addr func post cand c ≡ (cand, c)
  unfolding walk
  walk_none ret_addr func post cand c h w =
      ap (λ l. walk j dladdr ret_addr func l cand c) (sym (append-nil post))
      ∙ walk_others ret_addr func post [] cand c h w

  -- With one script of the function's name and no wildcard, the walk takes an unconstrained script.
  pub walk_alone :
      (ret_addr : ℕ) (func : CStr) (pre post : List (Option Object)) (script : Object)
      (c : InfoCache)
      → NoneNamed func pre
      → NoneNamed (codes "*") pre
      → Named ret_addr func script post none c
      → NoneNamed func post
      → NoneNamed (codes "*") post
      → unconstrained j dladdr script ≡ true
      → walk j dladdr ret_addr func (pre ++ some script ∷ post) none c ≡ (some script, c)
  unfolding legacy
  walk_alone ret_addr func pre post script c h w n h' w' u =
      let (absent, zero_addr) = unconstrained_parts script u in
      walk_others ret_addr func pre (some script ∷ post) none c h w
      ∙ walk_named ret_addr func script post none c n
      ∙ ap (goes_on ret_addr func script post none c) (try_legacy ret_addr script none c absent)
      ∙ elim (Bool-cases (ret_addr == 0)) [
        | inl z ↦ rw (z, legacy) refl
        | inr z ↦ rw (z, zero_addr, legacy) (walk_none ret_addr func post (some script) c h' w')
      ]

  pub first_named-alone :
      (func : CStr) (pre post : List (Option Object)) (script : Object)
      → NoneNamed func pre
      → is_named func (some script) ≡ true
      → first_named j (pre ++ some script ∷ post) func ≡ some script
  unfolding first_named
  first_named-alone func [] post script h n =
      elim (Option-cases (get_string script (codes "func_name"))) [
        | inl e ↦ absurd (false≢true (rw (e, is_named) at n))
        | inr (name, e) ↦
            let m : str_eq name func ≡ true = rw (e, is_named) at n in rw (e, first_named, m) refl
      ]
  first_named-alone func (none ∷ pre) post script h n = first_named-alone func pre post script h.1 n
  first_named-alone func (some s ∷ pre) post script h n =
      elim (Option-cases (get_string s (codes "func_name"))) [
        | inl e ↦ rw (e, first_named) (first_named-alone func pre post script h.1 n)
        | inr (name, e) ↦
            let m : str_eq name func ≡ false = rw (e, is_named) at (h.0) in
            rw (e, first_named, m) (first_named-alone func pre post script h.1 n)
      ]

  module _ (ret_addr : ℕ) (script : Object) (cand : Option Object) (not_null : ret_addr ≢ 0) where
    pub legacy_candidate :
        is_zero (get_number script (codes "return_addr")) ≡ true
        → legacy j dladdr ret_addr script cand ≡ walk_on (first_of_two j dladdr cand script)
    unfolding legacy
    legacy_candidate z = elim (Bool-cases (ret_addr == 0)) [
      | inl e ↦ absurd (not_null (ground arith))
      | inr e ↦ rw (e, z, legacy) refl
    ]

    pub legacy_hit :
        is_zero (get_number script (codes "return_addr")) ≡ false
        → to_i64 (get_number script (codes "return_addr")) ≡ as_i64 ret_addr
        → legacy j dladdr ret_addr script cand ≡ found script
    unfolding legacy
    legacy_hit z same =
        let eq : eqb_ℤ (as_i64 ret_addr) (to_i64 (get_number script (codes "return_addr"))) ≡ true =
          rw same (eqb_self (as_i64 ret_addr)) in
        elim (Bool-cases (ret_addr == 0)) [
          | inl e ↦ absurd (not_null (ground arith))
          | inr e ↦ rw (e, z, eq, legacy) refl
        ]
