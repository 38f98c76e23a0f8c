-- ===== src/Normalize/LongNames.antt =====
-- tools/trace-diff/normalize.c: a name of 64 bytes or more.
use retrace.Prelude.{
  ℕ, ◌+◌, ◌*◌, ◌≤◌, ◌<◌, ◌≡◌, refl, ap, ◌∙◌, inl, inr, Bool, true, false, Option, none, some, List,
  [], ◌∷◌, ◌++◌, arith, ◌==◌, if◌then◌else◌, CStr, fit, str_eq, str_eq→≡, length, length-append,
  length-take, All, All-append, Bool-cases,
}
use retrace.Normalize.{
  name_size, FuncStat, NormalizedLog, find, find_index, new_stat, grown, create, log_get_or_create,
}

-- The names of the entries are stored in their arrays.
abbrev pub Stored : List FuncStat → Type 0
Stored = All (λ st. length st.name < name_size)

fit-Stored : (name : CStr) → length (fit name_size name) < name_size
fit-Stored name = omega (arith, length-take 63 name)

other_name :
    (s name : CStr) → length s < name_size → name_size ≤ length name → str_eq s name ≡ false
other_name s name h k = elim (Bool-cases (str_eq s name)) [
  | inl e ↦
      let same : length s ≡ length name = ap length (str_eq→≡ s name e) in absurd (omega arith)
  | inr e ↦ e
]

find_index-long :
    (name : CStr) (funcs : List FuncStat)
    → Stored funcs
    → name_size ≤ length name
    → find_index name funcs ≡ none
unfolding find_index
find_index-long name [] h k = refl
find_index-long name (st ∷ funcs) h k =
    rw (other_name st.name name h.0 k, find_index-long name funcs h.1 k) refl

find-long :
    (name : CStr) (funcs : List FuncStat)
    → Stored funcs
    → name_size ≤ length name
    → find name funcs ≡ none
unfolding find
find-long name [] h k = refl
find-long name (st ∷ funcs) h k = rw (other_name st.name name h.0 k) (find-long name funcs h.1 k)

module _ (realloc_ok : ℕ → Bool) (granted : (n : ℕ) → realloc_ok n ≡ true) where
  -- The log after the entry was asked for.
  abbrev OneMore : CStr → NormalizedLog → Option (ℕ × NormalizedLog) → Type 0
  OneMore name log r =
      (i : ℕ) × (log' : NormalizedLog) × (r ≡ some (i, log'))
      × (length log'.funcs ≡ length log.funcs + 1)
      × Stored log'.funcs
      × (find name log'.funcs ≡ none)

  create-OneMore :
      (name : CStr) (log log' : NormalizedLog)
      → log'.funcs ≡ log.funcs
      → Stored log.funcs
      → name_size ≤ length name
      → OneMore name log (create realloc_ok name (some log'))
  unfolding create new_stat
  create-OneMore name log log' e h k =
      let stored : Stored (log'.funcs ++ new_stat name ∷ []) = rw e (
        All-append (λ st. length st.name < name_size) log.funcs (new_stat name ∷ []) h
          (fit-Stored name, tt)) in
      (
        length log'.funcs,
        record log' { funcs = log'.funcs ++ new_stat name ∷ [] },
        refl,
        length-append log'.funcs (new_stat name ∷ []) ∙ ap (λ l. length l + 1) e,
        stored,
        find-long name (log'.funcs ++ new_stat name ∷ []) stored k,
      )

  pub grown-granted :
      (log : NormalizedLog)
      → (log' : NormalizedLog) × (grown realloc_ok log ≡ some log') × (log'.funcs ≡ log.funcs)
  unfolding grown
  grown-granted log =
      let newcap = if log.cap == 0 then 16 else log.cap * 2 in
      elim (Bool-cases (length log.funcs == log.cap)) [
        | inl e ↦ (record log { cap = newcap }, rw (e, granted newcap) refl, refl)
        | inr e ↦ (log, rw e refl, refl)
      ]

  -- A name that does not fit `char name[64]`, where the memory is granted and the stored names fit:
  -- `log_get_or_create` makes an entry more each time, the stored names fit again, and
  -- `normalize_find` does not find the name in the new summary.
  pub log_get_or_create-long :
      (name : CStr) (log : NormalizedLog)
      → Stored log.funcs
      → name_size ≤ length name
      → (i : ℕ) × (log' : NormalizedLog) × (log_get_or_create realloc_ok name log ≡ some (i, log'))
        × (length log'.funcs ≡ length log.funcs + 1)
        × Stored log'.funcs
        × (find name log'.funcs ≡ none)
  unfolding log_get_or_create
  log_get_or_create-long name log h k =
      let (log', g, same) = grown-granted log in
      rw (find_index-long name log.funcs h k, g, log_get_or_create)
        (create-OneMore name log log' same h k)
