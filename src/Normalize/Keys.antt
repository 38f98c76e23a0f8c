-- ===== src/Normalize/Keys.antt =====
-- tools/trace-diff/normalize.c: the names of a summary whose calls have names that fit.
use retrace.Prelude.{
  some-inj, some≢none, ℕ, zero, suc, ◌≡◌, refl, sym, ap, ◌∙◌, subst, inl, inr, Bool, true, false,
  Option, none, some, List, [], ◌∷◌, ◌++◌, arith, CStr, str_eq, str_eq_comm, All, Bool-cases,
  Option-cases,
}
use retrace.Json.{Json}
use retrace.Normalize.{
  FuncStat, NormalizedLog, find, find_index, new_stat, count_in, update, grown, create,
  log_get_or_create, counted, call_of, add_entry, normalize_loop, normalize_from_trace,
}
use retrace.Normalize.Counts.{Fits, FitsCall, take_whole, after_first-none}
use retrace.Normalize.Runs.{grown-funcs, normalize_loop-none}

-- No name is in the summary twice.
abbrev pub Keyed : List FuncStat → Type 0
Keyed [] = Unit
Keyed (st ∷ funcs) = (find st.name funcs ≡ none) × Keyed funcs

find-find_index :
    (name : CStr) (funcs : List FuncStat) → find_index name funcs ≡ none → find name funcs ≡ none
unfolding find find_index
find-find_index name [] h = refl
find-find_index name (st ∷ funcs) h = elim (Bool-cases (str_eq st.name name)) [
  | inl e ↦ absurd (some≢none (rw e at h))
  | inr e ↦ rw e (find-find_index name funcs (after_first-none _ (rw e at h)))
]

-- A change of counters keeps the names.
find-update :
    (m : CStr) (i us : ℕ) (funcs : List FuncStat)
    → find m funcs ≡ none
    → find m (update i (count_in us) funcs) ≡ none
unfolding find update count_in
find-update m i us [] h = refl
find-update m zero us (st ∷ funcs) h = elim (Bool-cases (str_eq st.name m)) [
  | inl e ↦ absurd (some≢none (rw e at h))
  | inr e ↦ rw e (rw e at h)
]
find-update m (suc i) us (st ∷ funcs) h = elim (Bool-cases (str_eq st.name m)) [
  | inl e ↦ absurd (some≢none (rw e at h))
  | inr e ↦ rw e (find-update m i us funcs (rw e at h))
]

update-Keyed :
    (i us : ℕ) (funcs : List FuncStat) → Keyed funcs → Keyed (update i (count_in us) funcs)
unfolding update count_in
update-Keyed i us [] k = tt
update-Keyed zero us (st ∷ funcs) k = k
update-Keyed (suc i) us (st ∷ funcs) k =
    (find-update st.name i us funcs k.0, update-Keyed i us funcs k.1)

new_stat-name : (name : CStr) → Fits name → (new_stat name).name ≡ name
unfolding new_stat
new_stat-name name f = take_whole 63 name (omega arith)

find-new :
    (name m : CStr) (funcs : List FuncStat)
    → str_eq (new_stat name).name m ≡ false
    → find m funcs ≡ none
    → find m (funcs ++ new_stat name ∷ []) ≡ none
unfolding find
find-new name m [] n h = rw n refl
find-new name m (st ∷ funcs) n h = elim (Bool-cases (str_eq st.name m)) [
  | inl e ↦ absurd (some≢none (rw e at h))
  | inr e ↦ rw e (find-new name m funcs n (rw e at h))
]

new-Keyed :
    (name : CStr) (funcs : List FuncStat)
    → Fits name
    → find name funcs ≡ none
    → Keyed funcs
    → Keyed (funcs ++ new_stat name ∷ [])
unfolding find
new-Keyed name [] f h k = (refl, tt)
new-Keyed name (st ∷ funcs) f h k = elim (Bool-cases (str_eq st.name name)) [
  | inl e ↦ absurd (some≢none (rw e at h))
  | inr e ↦ (
    find-new name st.name funcs
        (ap (λ n. str_eq n st.name) (new_stat-name name f) ∙ str_eq_comm name st.name ∙ e) k.0,
    new-Keyed name funcs f (rw e at h) k.1,
  )
]

module _ (realloc_ok : ℕ → Bool) where
  create-Keyed :
      (name : CStr) (log log' : NormalizedLog) (il : ℕ × NormalizedLog)
      → log'.funcs ≡ log.funcs
      → find_index name log.funcs ≡ none
      → Fits name
      → create realloc_ok name (some log') ≡ some il
      → Keyed log.funcs
      → Keyed il.1.funcs
  unfolding create
  create-Keyed name log log' il same h f e k =
      subst (λ x. Keyed x.1.funcs) (some-inj e)
        (new-Keyed name log'.funcs f (ap (find name) same ∙ find-find_index name log.funcs h)
          (subst Keyed (sym same) k))

  get_or_create-Keyed :
      (name : CStr) (log : NormalizedLog) (il : ℕ × NormalizedLog)
      → Fits name
      → log_get_or_create realloc_ok name log ≡ some il
      → Keyed log.funcs
      → Keyed il.1.funcs
  unfolding log_get_or_create create
  get_or_create-Keyed name log il f h k = elim (Option-cases (find_index name log.funcs)) [
    | inr (i, e) ↦ subst (λ x. Keyed x.1.funcs) (some-inj (rw (e, log_get_or_create) at h)) k
    | inl e ↦ elim (Option-cases (grown realloc_ok log)) [
      | inl g ↦ absurd (some≢none (sym (rw (e, g, log_get_or_create, create) at h)))
      | inr (log', g) ↦
          create-Keyed name log log' il (grown-funcs realloc_ok log log' g) e f
            (rw (e, g, log_get_or_create) at h) k
    ]
  ]

  counted-Keyed :
      (name : CStr) (us : ℕ) (log log' : NormalizedLog)
      → Fits name
      → counted realloc_ok us (log_get_or_create realloc_ok name log) ≡ some log'
      → Keyed log.funcs
      → Keyed log'.funcs
  unfolding counted
  counted-Keyed name us log log' f h k =
      elim (Option-cases (log_get_or_create realloc_ok name log)) [
        | inl e ↦ absurd (some≢none (sym (rw e at h)))
        | inr ((i, l), e) ↦
            subst (λ x. Keyed x.funcs) (some-inj (rw e at h))
              (update-Keyed i us l.funcs (get_or_create-Keyed name log (i, l) f e k))
      ]

  module _ (j : Json) (get_object : j.Object → CStr → Option j.Object) where
    open j use {Object}

    add_entry-Keyed :
        (call : Option (CStr × Object)) (log log' : NormalizedLog)
        → FitsCall call
        → add_entry realloc_ok j get_object call log ≡ some log'
        → Keyed log.funcs
        → Keyed log'.funcs
    unfolding add_entry
    add_entry-Keyed none log log' f h k = subst (λ x. Keyed x.funcs) (some-inj h) k
    add_entry-Keyed (some (func, msg)) log log' f h k = counted-Keyed func _ log log' f h k

    normalize_loop-Keyed :
        (trace : List (Option Object)) (log log' : NormalizedLog)
        → All (λ e. FitsCall (call_of realloc_ok j get_object e)) trace
        → normalize_loop realloc_ok j get_object trace (some log) ≡ some log'
        → Keyed log.funcs
        → Keyed log'.funcs
    unfolding normalize_loop
    normalize_loop-Keyed [] log log' f h k = subst (λ x. Keyed x.funcs) (some-inj h) k
    normalize_loop-Keyed (e ∷ rest) log log' f h k =
        let call = call_of realloc_ok j get_object e in
        elim (Option-cases (add_entry realloc_ok j get_object call log)) [
          | inl g ↦ absurd (
              some≢none
                (sym (rw g at h) ∙ normalize_loop-none realloc_ok j get_object (λ n. true) rest))
          | inr (log1, g) ↦
              normalize_loop-Keyed rest log1 log' f.1
                (sym (ap (normalize_loop realloc_ok j get_object rest) g) ∙ h)
                (add_entry-Keyed call log log1 f.0 g k)
        ]

    -- In the summary of a trace whose names fit, no name stands twice.
    pub normalize_from_trace-Keyed :
        (trace : List (Option Object)) (log : NormalizedLog)
        → All (λ e. FitsCall (call_of realloc_ok j get_object e)) trace
        → normalize_from_trace realloc_ok j get_object trace ≡ some log
        → Keyed log.funcs
    unfolding normalize_from_trace
    normalize_from_trace-Keyed trace log f h = normalize_loop-Keyed trace _ log f h tt
