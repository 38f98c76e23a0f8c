-- ===== src/Normalize/Memory.antt =====
-- tools/trace-diff/normalize.c: both summaries of a trace, where the memory is granted.
use retrace.Prelude.{
  ℕ, ◌+◌, ◌*◌, ◌%◌, ◌^◌, ◌≡◌, refl, ap, ◌∙◌, inl, inr, Bool, true, Option, none, some, List, [],
  ◌∷◌, ◌++◌, arith, ◌==◌, if◌then◌else◌, CStr, length, All, Bool-cases, Option-cases,
}
use retrace.Json.{Json}
use retrace.Normalize.{
  NormalizedLog, find, find_index, create, log_get_or_create, counted, call_of, add_entry,
  normalize_loop, normalize_from_trace, push_name, sequence_loop, normalize_call_sequence,
}
use retrace.Normalize.Counts.{occurrences, calls_of, FitsCall}
use retrace.Normalize.Runs.{normalize-call_sequence}
use retrace.Normalize.LongNames.{grown-granted}

-- The function succeeds.
abbrev pub Returns : {A : Type 0} → Option A → Type 0
Returns {A} o = (a : A) × (o ≡ some a)

module _ (realloc_ok : ℕ → Bool) (granted : (n : ℕ) → realloc_ok n ≡ true) where
  create-Returns : (name : CStr) (log : NormalizedLog) → Returns (create realloc_ok name (some log))
  unfolding create
  create-Returns name log = (_, refl)

  get_or_create-Returns :
      (name : CStr) (log : NormalizedLog) → Returns (log_get_or_create realloc_ok name log)
  unfolding log_get_or_create
  get_or_create-Returns name log = elim (Option-cases (find_index name log.funcs)) [
    | inr (i, e) ↦ rw (e, log_get_or_create) ((i, log), refl)
    | inl e ↦
        let (log', g, same) = grown-granted realloc_ok granted log in
        rw (e, g, log_get_or_create) (create-Returns name log')
  ]

  counted-Returns :
      (us : ℕ) (o : Option (ℕ × NormalizedLog)) → Returns o → Returns (counted realloc_ok us o)
  unfolding counted
  counted-Returns us none (a, h) = ground arith
  counted-Returns us (some (i, log)) h = (_, refl)

  module _ (j : Json) (get_object : j.Object → CStr → Option j.Object) (malloc_ok : ℕ → Bool)
      (malloc_granted : (n : ℕ) → malloc_ok n ≡ true) where
    open j use {Object, get_number, to_u64}

    add_entry-Returns :
        (call : Option (CStr × Object)) (log : NormalizedLog)
        → Returns (add_entry realloc_ok j get_object call log)
    unfolding add_entry
    add_entry-Returns none log = (log, refl)
    add_entry-Returns (some (func, msg)) log =
        counted-Returns _ (log_get_or_create realloc_ok func log) (get_or_create-Returns func log)

    normalize_loop-Returns :
        (trace : List (Option Object)) (log : NormalizedLog)
        → Returns (normalize_loop realloc_ok j get_object trace (some log))
    unfolding normalize_loop
    normalize_loop-Returns [] log = (log, refl)
    normalize_loop-Returns (e ∷ rest) log =
        let (log1, g) = add_entry-Returns (call_of realloc_ok j get_object e) log in
        let (log', h) = normalize_loop-Returns rest log1 in
        (log', ap (normalize_loop realloc_ok j get_object rest) g ∙ h)

    push_name-Returns :
        (call : Option (CStr × Object)) (seq : ℕ × List CStr)
        → Returns (push_name realloc_ok j get_object malloc_ok call seq)
    unfolding push_name
    push_name-Returns none (room, seq) = (_, refl)
    push_name-Returns (some (func, msg)) (room, seq) = elim (Bool-cases (length seq == room)) [
      | inl e ↦
          rw (e, granted (if room == 0 then 32 else room * 2), malloc_granted (length func + 1))
            ((if room == 0 then 32 else room * 2, seq ++ func ∷ []), refl)
      | inr e ↦ rw (e, malloc_granted (length func + 1)) ((room, seq ++ func ∷ []), refl)
    ]

    sequence_loop-Returns :
        (trace : List (Option Object)) (seq : ℕ × List CStr)
        → Returns (sequence_loop realloc_ok j get_object malloc_ok trace (some seq))
    unfolding sequence_loop
    sequence_loop-Returns [] seq = (seq, refl)
    sequence_loop-Returns (e ∷ rest) seq =
        let (seq1, g) = push_name-Returns (call_of realloc_ok j get_object e) seq in
        let (seq', h) = sequence_loop-Returns rest seq1 in
        (seq', ap (sequence_loop realloc_ok j get_object malloc_ok rest) g ∙ h)

    -- Where every allocation succeeds and the names of the calls fit `char name[64]`, the summary and
    -- the sequence of a trace are made, and the counter that `normalize_find` finds for a name, 0
    -- where it finds none, is the number of its occurrences in the sequence, modulo 2^64.
    pub normalize_find-occurrences :
        (trace : List (Option Object))
        → All (λ e. FitsCall (call_of realloc_ok j get_object e)) trace
        → (log : NormalizedLog) × (seq : ℕ × List CStr) × (normalize_from_trace realloc_ok j
              get_object trace
            ≡ some log)
          × (normalize_call_sequence realloc_ok j get_object malloc_ok trace ≡ some seq)
          × ((m : CStr) → calls_of (find m log.funcs) ≡ occurrences m seq.1 % 2 ^ 64)
    unfolding normalize_from_trace normalize_call_sequence
    normalize_find-occurrences trace f =
        let (log, n) = normalize_loop-Returns trace (record { funcs = []; cap = 0 }) in
        let ((cap, seq), s) = sequence_loop-Returns trace (0, []) in
        (
          log,
          (cap, seq),
          n,
          s,
          normalize-call_sequence realloc_ok j get_object malloc_ok trace log cap seq f n s,
        )
