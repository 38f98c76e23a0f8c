-- ===== src/ScriptResolver/AnyMatch.antt =====
-- `caller_matches` has OR semantics, and the cache does not change its answer.
use retrace.Prelude.{
  ℕ, ◌≡◌, refl, sym, ap, ◌∙◌, subst, Bool, true, false, not, ◌||◌, Option, none, some, List, [],
  ◌∷◌, arith, ◌==◌, if◌then◌else◌, codes, Bool-cases, Option-cases, inl, inr,
}
use retrace.Prelude.Int.{ℤ, pos, negsuc, eqb_ℤ}
use retrace.Json.{Json}
use retrace.CallerCache.Laws.{IsTrue}
use retrace.CallerMatch.{
  DlInfo, InfoCache, MatchKind, unknown, address, symbol, module_offset, kind_from_string,
  match_address, is_blank, symbol_verdict, module_verdict,
}
use retrace.CallerMatch.Answers.{match_symbol_lem, match_module_offset_lem}
use retrace.ScriptResolver.{eval_entry, eval_entries, eval_caller_matches}

module _ (j : Json) (dladdr : ℕ → Option DlInfo) where
  open j use {Object, get_string, get_number, get_array, to_u64}

  -- The verdict of one entry, asked of `dladdr` itself.
  unfoldable pub entry_verdict : ℕ → Option Object → ℤ
  entry_verdict ret_addr none = negsuc 0
  entry_verdict ret_addr (some entry) =
      elim (kind_from_string (get_string entry (codes "match_type"))) [
        | unknown ↦ negsuc 0
        | address ↦ match_address ret_addr (to_u64 (get_number entry (codes "value")))
        | symbol ↦
            let expected = get_string entry (codes "value") in
            if ret_addr == 0 || is_blank expected
            then negsuc 0
            else symbol_verdict expected (dladdr ret_addr)
        | module_offset ↦
            let expected = get_string entry (codes "module") in
            if ret_addr == 0 || is_blank expected
            then negsuc 0
            else module_verdict ret_addr expected (to_u64 (get_number entry (codes "offset")))
                (dladdr ret_addr)
      ]

  unfoldable pub any_verdict : (ℤ → Bool) → ℕ → List (Option Object) → Bool
  any_verdict p ret_addr [] = false
  any_verdict p ret_addr (entry ∷ rest) =
      p (entry_verdict ret_addr entry) || any_verdict p ret_addr rest

  -- 1 if some entry matches, else 0 if some entry could be evaluated, else -1.
  abbrev pub or_of : ℕ → List (Option Object) → Bool → ℤ
  or_of ret_addr entries evaluated =
      if any_verdict (λ v. eqb_ℤ v (pos 1)) ret_addr entries
      then pos 1
      else if evaluated || any_verdict (λ v. not (eqb_ℤ v (negsuc 0))) ret_addr entries
      then pos 0
      else negsuc 0

  eval_entry_lem :
      (ret_addr : ℕ) (entry : Option Object) (c : InfoCache)
      → IsTrue dladdr c
      → ((eval_entry j dladdr ret_addr entry c).0 ≡ entry_verdict ret_addr entry)
        × IsTrue dladdr (eval_entry j dladdr ret_addr entry c).1
  unfolding eval_entry entry_verdict
  eval_entry_lem ret_addr none c h = (refl, h)
  eval_entry_lem ret_addr (some entry) c h =
      by_kind (kind_from_string (get_string entry (codes "match_type"))) refl
    where
      by_kind :
          (k : MatchKind)
          → kind_from_string (get_string entry (codes "match_type")) ≡ k
          → ((eval_entry j dladdr ret_addr (some entry) c).0 ≡ entry_verdict ret_addr (some entry))
            × IsTrue dladdr (eval_entry j dladdr ret_addr (some entry) c).1
      by_kind unknown e = rw (e, eval_entry, entry_verdict) (refl, h)
      by_kind address e = rw (e, eval_entry, entry_verdict) (refl, h)
      by_kind symbol e =
          rw (e, eval_entry, entry_verdict)
            (match_symbol_lem dladdr c h ret_addr (get_string entry (codes "value")))
      by_kind module_offset e =
          rw (e, eval_entry, entry_verdict)
            (match_module_offset_lem dladdr c h ret_addr (get_string entry (codes "module"))
              (to_u64 (get_number entry (codes "offset"))))

  or_of_cons :
      (ret_addr : ℕ) (entry : Option Object) (rest : List (Option Object)) (any : Bool)
      → eqb_ℤ (entry_verdict ret_addr entry) (pos 1) ≡ false
      → or_of ret_addr rest (any || not (eqb_ℤ (entry_verdict ret_addr entry) (negsuc 0)))
        ≡ or_of ret_addr (entry ∷ rest) any
  unfolding any_verdict
  or_of_cons ret_addr entry rest any e = ground arith

  or_of_found :
      (ret_addr : ℕ) (entry : Option Object) (rest : List (Option Object)) (any : Bool)
      → eqb_ℤ (entry_verdict ret_addr entry) (pos 1) ≡ true
      → or_of ret_addr (entry ∷ rest) any ≡ pos 1
  unfolding any_verdict
  or_of_found ret_addr entry rest any e = rw e refl

  -- One round of the loop.
  module _ (ret_addr : ℕ) (entry : Option Object) (rest : List (Option Object)) (any : Bool)
      (c : InfoCache) where
    entries_found :
        eqb_ℤ (eval_entry j dladdr ret_addr entry c).0 (pos 1) ≡ true
        → eval_entries j dladdr ret_addr (entry ∷ rest) any c
          ≡ (pos 1, (eval_entry j dladdr ret_addr entry c).1)
    unfolding eval_entries
    entries_found e = rw e refl

    entries_go_on :
        eqb_ℤ (eval_entry j dladdr ret_addr entry c).0 (pos 1) ≡ false
        → eval_entries j dladdr ret_addr (entry ∷ rest) any c
          ≡ eval_entries j dladdr ret_addr rest
              (any || not (eqb_ℤ (eval_entry j dladdr ret_addr entry c).0 (negsuc 0)))
              (eval_entry j dladdr ret_addr entry c).1
    unfolding eval_entries
    entries_go_on e = rw e refl

  eval_entries_lem :
      (ret_addr : ℕ) (entries : List (Option Object)) (any : Bool) (c : InfoCache)
      → IsTrue dladdr c
      → ((eval_entries j dladdr ret_addr entries any c).0 ≡ or_of ret_addr entries any)
        × IsTrue dladdr (eval_entries j dladdr ret_addr entries any c).1
  unfolding eval_entries any_verdict
  eval_entries_lem ret_addr [] any c h = (ground arith, h)
  eval_entries_lem ret_addr (entry ∷ rest) any c h =
      let (v, still) = eval_entry_lem ret_addr entry c h in
      elim (Bool-cases (eqb_ℤ (entry_verdict ret_addr entry) (pos 1))) [
        | inl e ↦
            let g = entries_found ret_addr entry rest any c (rw v e) in
            (
              ap (λ o. o.0) g ∙ sym (or_of_found ret_addr entry rest any e),
              subst (λ o. IsTrue dladdr o.1) (sym g) still,
            )
        | inr e ↦
            let g = entries_go_on ret_addr entry rest any c (rw v e) in
            let (r, true_after) =
              eval_entries_lem ret_addr rest
                (any || not (eqb_ℤ (eval_entry j dladdr ret_addr entry c).0 (negsuc 0)))
                (eval_entry j dladdr ret_addr entry c).1 still in
            (
              ap (λ o. o.0) g
                  ∙ r
                  ∙ ap (λ t. or_of ret_addr rest (any || not (eqb_ℤ t (negsuc 0)))) v
                  ∙ or_of_cons ret_addr entry rest any e,
              subst (λ o. IsTrue dladdr o.1) (sym g) true_after,
            )
      ]

  -- With a true cache, `eval_caller_matches` answers -1 for a script without the array; else it is
  -- the OR over the entries: 1 if one matches, else 0 if one could be evaluated, else -1. The cache
  -- stays true.
  pub eval_caller_matches_lem :
      (ret_addr : ℕ) (script : Object) (c : InfoCache)
      → IsTrue dladdr c
      → ((eval_caller_matches j dladdr ret_addr script c).0
          ≡ elim (get_array script (codes "caller_matches")) [
            | none ↦ negsuc 0
            | some entries ↦ or_of ret_addr entries false
          ])
        × IsTrue dladdr (eval_caller_matches j dladdr ret_addr script c).1
  unfolding eval_caller_matches
  eval_caller_matches_lem ret_addr script c h =
      elim (Option-cases (get_array script (codes "caller_matches"))) [
        | inl e ↦ rw (e, eval_caller_matches) (refl, h)
        | inr (entries, e) ↦
            rw (e, eval_caller_matches) (eval_entries_lem ret_addr entries false c h)
      ]
