-- ===== src/Sandbox/Registry.antt =====
-- src/core/actions/sandbox.c: the registry of compiled sets, while the policy arrays stay as they are.
use retrace.Prelude.{
  ℕ, ◌≤◌, ◌≡◌, refl, sym, subst, inl, inr, true, ◌&&◌, Option, none, some, List, [], ◌∷◌, arith,
  ◌==◌, length, CStr, All, All-set, Bool-cases, Option-cases,
}
use retrace.PathSet.{CompiledSet, Memory, path_set_build, walk}
use retrace.PathSet.Lookup.{IsSetOf, lookup-walk}
use retrace.PathSet.Built.{IsCompiled, path_set_build-IsCompiled}
use retrace.Sandbox.SetCache.{
  CachedSet, PathSets, path_set_valid, find_set, keep_set, contains_new, contains_in, list_contains,
}

module _ (content : ℕ → List (Option CStr)) where
  -- A slot whose set is still taken for the array's holds the array's set.
  abbrev pub IsTrueSlot : CachedSet → Type 0
  IsTrueSlot s =
      (c : CompiledSet)
      → s.set ≡ some c
      → path_set_valid (some c) (content s.arr) ≡ true
      → IsSetOf (content s.arr) c

  abbrev pub Coherent : PathSets → Type 0
  Coherent sets = All IsTrueSlot sets.slots

  find_set-IsSetOf :
      (arr : ℕ) (slots : List CachedSet) (c : CompiledSet)
      → All IsTrueSlot slots
      → find_set arr (content arr) slots ≡ some c
      → IsSetOf (content arr) c
  unfolding find_set
  find_set-IsSetOf arr [] c h e = ground arith
  find_set-IsSetOf arr (s ∷ slots) c h e =
      elim (Bool-cases ((s.arr == arr) && path_set_valid s.set (content arr))) [
        | inr n ↦ find_set-IsSetOf arr slots c h.1 (rw n at e)
        | inl t ↦
            let same : s.arr ≡ arr = ground arith in
            let held : s.set ≡ some c = rw t at e in
            let valid : path_set_valid s.set (content arr) ≡ true = ground arith in
            let valid' = subst (λ o. path_set_valid o (content arr) ≡ true) held valid in
            subst (λ a. IsSetOf (content a) c) same
              (h.0 c held
                (subst (λ a. path_set_valid (some c) (content a) ≡ true) (sym same) valid'))
      ]

  keep_set-Coherent :
      (arr : ℕ) (c : CompiledSet) (sets : PathSets)
      → IsSetOf (content arr) c
      → Coherent sets
      → Coherent (keep_set arr c sets)
  unfolding keep_set
  keep_set-Coherent arr c sets h k =
      All-set IsTrueSlot sets.slots sets.next _ k
        (λ c' e v. let same : c ≡ c' = cc in subst (IsSetOf (content arr)) same h)

  contains_new-walk :
      (o : Option CompiledSet) (path : CStr) (arr : ℕ) (sets : PathSets)
      → IsCompiled (content arr) o
      → Coherent sets
      → ((contains_new o path arr (content arr) sets).0 ≡ walk path (content arr))
        × Coherent (contains_new o path arr (content arr) sets).1
  unfolding contains_new
  contains_new-walk none path arr sets h k = (refl, k)
  contains_new-walk (some c) path arr sets h k =
      (lookup-walk path (content arr) c h, keep_set-Coherent arr c sets h k)

  -- Where the registry is true of the arrays, `list_contains` answers what the walk over the array
  -- answers, whether or not the registry has a set and whichever allocations fail, and leaves the
  -- registry true of the arrays.
  pub list_contains-walk :
      (mem : Memory) (path : CStr) (arr : ℕ) (sets : PathSets)
      → length (content arr) ≤ length mem.uninit
      → Coherent sets
      → ((list_contains mem path arr (content arr) sets).0 ≡ walk path (content arr))
        × Coherent (list_contains mem path arr (content arr) sets).1
  unfolding list_contains contains_in
  list_contains-walk mem path arr sets room k =
      elim (Option-cases (find_set arr (content arr) sets.slots)) [
        | inr (c, e) ↦
            let found = find_set-IsSetOf arr sets.slots c k e in
            rw (list_contains, e) (lookup-walk path (content arr) c found, k)
        | inl e ↦
            rw (list_contains, e)
              (contains_new-walk (path_set_build mem (content arr)) path arr sets
                (path_set_build-IsCompiled (content arr) mem room) k)
      ]
