-- ===== src/Normalize/Runs.antt =====
-- tools/trace-diff/normalize.c: what the two loops over a trace count and list.
use retrace.Prelude.{
  some-inj, some≢none, ℕ, ◌+◌, ◌*◌, ◌%◌, ◌^◌, ◌≡◌, refl, sym, ap, ◌∙◌, subst, inl, inr, Bool, true,
  Option, none, some, List, [], ◌∷◌, ◌++◌, arith, ◌==◌, if◌then◌else◌, CStr, str_eq, length, All,
  Bool-cases, Option-cases,
}
use retrace.Json.{Json}
use retrace.Normalize.{
  FuncStat, NormalizedLog, find, find_index, grown, create, log_get_or_create, counted, call_of,
  add_entry, normalize_loop, normalize_from_trace, push_name, sequence_loop,
  normalize_call_sequence,
}
use retrace.Normalize.Counts.{
  occurrences, calls_of, Fits, FitsCall, calls, one_more, calls-update, find_index-new, calls-new,
}

module _ (realloc_ok : ℕ → Bool) where
  pub grown-funcs :
      (log log' : NormalizedLog) → grown realloc_ok log ≡ some log' → log'.funcs ≡ log.funcs
  unfolding grown
  grown-funcs log log' h = elim (Bool-cases (length log.funcs == log.cap)) [
    | inl e ↦ elim (Bool-cases (realloc_ok (if log.cap == 0 then 16 else log.cap * 2))) [
      | inl g ↦ sym (ap (λ l. l.funcs) (some-inj (rw (e, g) at h)))
      | inr g ↦ absurd (some≢none (sym (rw (e, g) at h)))
    ]
    | inr e ↦ sym (ap (λ l. l.funcs) (some-inj (rw e at h)))
  ]

  -- The entry of the name is at the index, and nothing else has changed.
  abbrev IsEntry : CStr → NormalizedLog → ℕ × NormalizedLog → Type 0
  IsEntry name log il =
      (find_index name il.1.funcs ≡ some il.0)
      × ((m : CStr) → calls m il.1.funcs ≡ calls m log.funcs)

  create-IsEntry :
      (name : CStr) (log log' : NormalizedLog) (il : ℕ × NormalizedLog)
      → log'.funcs ≡ log.funcs
      → find_index name log.funcs ≡ none
      → Fits name
      → create realloc_ok name (some log') ≡ some il
      → IsEntry name log il
  unfolding create
  create-IsEntry name log log' il same h f e = subst (IsEntry name log) (some-inj e) (
    find_index-new name log'.funcs (ap (find_index name) same ∙ h) f,
    λ m. calls-new name m log'.funcs ∙ ap (calls m) same,
  )

  get_or_create-IsEntry :
      (name : CStr) (log : NormalizedLog) (il : ℕ × NormalizedLog)
      → Fits name
      → log_get_or_create realloc_ok name log ≡ some il
      → IsEntry name log il
  unfolding log_get_or_create create
  get_or_create-IsEntry name log il f h = elim (Option-cases (find_index name log.funcs)) [
    | inr (i, e) ↦
        subst (IsEntry name log) (some-inj (rw (e, log_get_or_create) at h)) (e, λ m. refl)
    | inl e ↦ elim (Option-cases (grown realloc_ok log)) [
      | inl g ↦ absurd (some≢none (sym (rw (e, g, log_get_or_create, create) at h)))
      | inr (log', g) ↦
          create-IsEntry name log log' il (grown-funcs log log' g) e f
            (rw (e, g, log_get_or_create) at h)
    ]
  ]

  counted-calls :
      (name m : CStr) (us : ℕ) (log log' : NormalizedLog)
      → Fits name
      → counted realloc_ok us (log_get_or_create realloc_ok name log) ≡ some log'
      → calls m log'.funcs ≡ one_more name m (calls m log.funcs)
  unfolding counted
  counted-calls name m us log log' f h =
      elim (Option-cases (log_get_or_create realloc_ok name log)) [
        | inl e ↦ absurd (some≢none (sym (rw e at h)))
        | inr ((i, l), e) ↦
            let (at_i, same) = get_or_create-IsEntry name log (i, l) f e in
            sym (ap (λ x. calls m x.funcs) (some-inj (rw e at h)))
            ∙ calls-update name m us i l.funcs at_i
            ∙ ap (one_more name m) (same m)
      ]

  occurrences-append :
      (m x : CStr) (l : List CStr)
      → occurrences m (l ++ x ∷ []) ≡ occurrences m l + occurrences m (x ∷ [])
  occurrences-append m x [] = omega arith
  occurrences-append m x (y ∷ l) = omega (arith, occurrences-append m x l)

  -- The counters of the log are the occurrences in the sequence, modulo the width of a counter.
  abbrev Agree : List FuncStat → List CStr → Type 0
  Agree funcs seq = (m : CStr) → calls m funcs ≡ occurrences m seq % 2 ^ 64

  one_more-mod :
      (name m : CStr) (x y : ℕ)
      → x ≡ y % 2 ^ 64
      → one_more name m x ≡ (y + occurrences m (name ∷ [])) % 2 ^ 64
  one_more-mod name m x y h = elim (Bool-cases (str_eq name m)) [
    | inl e ↦ rw e (omega arith)
    | inr e ↦ rw e (omega arith)
  ]

  module _ (j : Json) (get_object : j.Object → CStr → Option j.Object) (malloc_ok : ℕ → Bool) where
    open j use {Object}

    push_name-none :
        (func : CStr) (msg : Object) (cap : ℕ) (seq : List CStr) (next : ℕ × List CStr)
        → push_name realloc_ok j get_object malloc_ok (some (func, msg)) (cap, seq) ≡ some next
        → next.1 ≡ seq ++ func ∷ []
    unfolding push_name
    push_name-none func msg cap seq next h =
        elim (Bool-cases
          (if length seq == cap then realloc_ok (if cap == 0 then 32 else cap * 2) else true)) [
            | inl e ↦ elim (Bool-cases (malloc_ok (length func + 1))) [
              | inl g ↦ sym (ap (λ p. p.1) (some-inj (rw (e, g) at h)))
              | inr g ↦ absurd (some≢none (sym (rw (e, g) at h)))
            ]
            | inr e ↦ absurd (some≢none (sym (rw e at h)))
          ]

    -- One entry, in both loops.
    entry-Agree :
        (call : Option (CStr × Object)) (log log' : NormalizedLog) (seq seq' : ℕ × List CStr)
        → FitsCall call
        → add_entry realloc_ok j get_object call log ≡ some log'
        → push_name realloc_ok j get_object malloc_ok call seq ≡ some seq'
        → Agree log.funcs seq.1
        → Agree log'.funcs seq'.1
    unfolding add_entry push_name
    entry-Agree none log log' (cap, seq) seq' f h k a =
        subst (λ x. Agree x.funcs seq'.1) (some-inj h)
          (subst (λ x. Agree log.funcs x.1) (some-inj k) a)
    entry-Agree (some (func, msg)) log log' (cap, seq) seq' f h k a = λ m.
        counted-calls func m _ log log' f h
        ∙ one_more-mod func m _ (occurrences m seq) (a m)
        ∙ ap (λ n. n % 2 ^ 64)
            (sym (
              ap (occurrences m) (push_name-none func msg cap seq seq' k)
              ∙ occurrences-append m func seq))

    pub normalize_loop-none :
        (trace : List (Option Object)) → normalize_loop realloc_ok j get_object trace none ≡ none
    unfolding normalize_loop
    normalize_loop-none [] = refl
    normalize_loop-none (e ∷ rest) = refl

    sequence_loop-none :
        (trace : List (Option Object))
        → sequence_loop realloc_ok j get_object malloc_ok trace none ≡ none
    unfolding sequence_loop
    sequence_loop-none [] = refl
    sequence_loop-none (e ∷ rest) = refl

    loops-Agree :
        (trace : List (Option Object)) (log log' : NormalizedLog) (seq seq' : ℕ × List CStr)
        → All (λ e. FitsCall (call_of realloc_ok j get_object e)) trace
        → normalize_loop realloc_ok j get_object trace (some log) ≡ some log'
        → sequence_loop realloc_ok j get_object malloc_ok trace (some seq) ≡ some seq'
        → Agree log.funcs seq.1
        → Agree log'.funcs seq'.1
    unfolding normalize_loop sequence_loop
    loops-Agree [] log log' seq seq' f h k a =
        subst (λ x. Agree x.funcs seq'.1) (some-inj h)
          (subst (λ x. Agree log.funcs x.1) (some-inj k) a)
    loops-Agree (e ∷ rest) log log' seq seq' f h k a =
        let call = call_of realloc_ok j get_object e in
        elim (Option-cases (add_entry realloc_ok j get_object call log)) [
          | inl g ↦ absurd (
              some≢none (
                sym h
                ∙ ap (normalize_loop realloc_ok j get_object rest) g
                ∙ normalize_loop-none rest))
          | inr (log1, g) ↦
              elim (Option-cases (push_name realloc_ok j get_object malloc_ok call seq)) [
                | inl q ↦ absurd (
                    some≢none (
                      sym k
                      ∙ ap (sequence_loop realloc_ok j get_object malloc_ok rest) q
                      ∙ sequence_loop-none rest))
                | inr (seq1, q) ↦
                    loops-Agree rest log1 log' seq1 seq' f.1
                      (sym (ap (normalize_loop realloc_ok j get_object rest) g) ∙ h)
                      (sym (ap (sequence_loop realloc_ok j get_object malloc_ok rest) q) ∙ k)
                      (entry-Agree call log log1 seq seq1 f.0 g q a)
              ]
        ]

    pub normalize-call_sequence :
        (trace : List (Option Object)) (log : NormalizedLog) (cap : ℕ) (seq : List CStr)
        → All (λ e. FitsCall (call_of realloc_ok j get_object e)) trace
        → normalize_from_trace realloc_ok j get_object trace ≡ some log
        → normalize_call_sequence realloc_ok j get_object malloc_ok trace ≡ some (cap, seq)
        → (m : CStr) → calls_of (find m log.funcs) ≡ occurrences m seq % 2 ^ 64
    unfolding normalize_from_trace normalize_call_sequence find
    normalize-call_sequence trace log cap seq f h k =
        loops-Agree trace _ log (0, []) (cap, seq) f h k (λ m. refl)
