-- ===== src/Normalize/Counts.antt =====
-- tools/trace-diff/normalize.c: the counters of a summary, and the names in the sequence.
use retrace.Prelude.{
  some-inj, some≢none, ℕ, zero, suc, ◌+◌, ◌%◌, ◌^◌, ◌≤◌, ◌<◌, ◌≡◌, refl, sym, ap, ◌∙◌, subst, inl,
  inr, false, Option, none, some, List, [], ◌∷◌, ◌++◌, arith, if◌then◌else◌, CStr, fit, str_eq,
  str_eq→≡, str_eq_refl, str_eq_comm, length, take, Bool-cases,
}
use retrace.Normalize.{
  name_size, FuncStat, find, find_index, after_first, new_stat, count_in, update,
}

-- How often the name is in the list.
abbrev pub occurrences : CStr → List CStr → ℕ
occurrences name [] = 0
occurrences name (x ∷ l) = (if str_eq x name then 1 else 0) + occurrences name l

-- `call_count` of the entry that is found, and 0 where there is none.
abbrev pub calls_of : Option FuncStat → ℕ
calls_of none = 0
calls_of (some st) = st.call_count

-- A name that `char name[64]` holds whole.
abbrev pub Fits : CStr → Type 0
Fits name = length name < name_size

-- The name of the entry, if it is a call, is held whole.
abbrev pub FitsCall {ℓ} : {A : Type ℓ} → Option (CStr × A) → Type 0
FitsCall none = Unit {0}
FitsCall (some (func, msg)) = Fits func

abbrev pub calls : CStr → List FuncStat → ℕ
calls name funcs = calls_of (find name funcs)

-- One call of `name` more, seen from the name `m`.
abbrev pub one_more : CStr → CStr → ℕ → ℕ
one_more name m n = if str_eq name m then (n + 1) % 2 ^ 64 else n

after_first-some :
    (o : Option ℕ) (i : ℕ) → after_first o ≡ some i → (k : ℕ) × (o ≡ some k) × (i ≡ suc k)
after_first-some none i h = ground arith
after_first-some (some k) i h = (k, refl, ground arith)

pub after_first-none : (o : Option ℕ) → after_first o ≡ none → o ≡ none
after_first-none none h = refl
after_first-none (some k) h = ground arith

pub calls-update :
    (name m : CStr) (us i : ℕ) (funcs : List FuncStat)
    → find_index name funcs ≡ some i
    → calls m (update i (count_in us) funcs) ≡ one_more name m (calls m funcs)
unfolding find_index find update count_in
calls-update name m us i [] h = ground arith
calls-update name m us i (st ∷ funcs) h = elim (Bool-cases (str_eq st.name name)) [
  | inl e ↦
      let first : 0 ≡ i = some-inj (rw e at h) in
      let same : str_eq name m ≡ str_eq st.name m =
        ap (λ x. str_eq x m) (sym (str_eq→≡ st.name name e)) in
      subst
        (λ k.
          calls m (update k (count_in us) (st ∷ funcs)) ≡ one_more name m (calls m (st ∷ funcs)))
        first
        (elim (Bool-cases (str_eq st.name m)) [
          | inl t ↦ rw (same, t) refl
          | inr t ↦ rw (same, t) refl
        ])
  | inr e ↦
      let (k, g, s) = after_first-some (find_index name funcs) i (rw e at h) in
      rw s (elim (Bool-cases (str_eq st.name m)) [
        | inl t ↦
            let other : str_eq name m ≡ false =
              ap (λ x. str_eq name x) (sym (str_eq→≡ st.name m t)) ∙ str_eq_comm name st.name ∙ e in
            rw (t, other) refl
        | inr t ↦ rw t (calls-update name m us k funcs g)
      ])
]

pub take_whole : (n : ℕ) (s : CStr) → length s ≤ n → take n s ≡ s
take_whole zero [] h = refl
take_whole zero (c ∷ s) h = absurd (omega arith)
take_whole (suc n) [] h = refl
take_whole (suc n) (c ∷ s) h = ap (λ t. c ∷ t) (take_whole n s (omega arith))

pub find_index-new :
    (name : CStr) (funcs : List FuncStat)
    → find_index name funcs ≡ none
    → Fits name
    → find_index name (funcs ++ new_stat name ∷ []) ≡ some (length funcs)
unfolding find_index new_stat
find_index-new name [] h f = rw (take_whole 63 name (omega arith), str_eq_refl name) refl
find_index-new name (st ∷ funcs) h f = elim (Bool-cases (str_eq st.name name)) [
  | inl e ↦ absurd (some≢none (rw e at h))
  | inr e ↦ rw (e, find_index-new name funcs (after_first-none _ (rw e at h)) f) refl
]

pub calls-new :
    (name m : CStr) (funcs : List FuncStat) → calls m (funcs ++ new_stat name ∷ []) ≡ calls m funcs
unfolding find new_stat
calls-new name m [] = elim (Bool-cases (str_eq (fit name_size name) m)) [
  | inl e ↦ rw e refl
  | inr e ↦ rw e refl
]
calls-new name m (st ∷ funcs) = elim (Bool-cases (str_eq st.name m)) [
  | inl e ↦ rw e refl
  | inr e ↦ rw e (calls-new name m funcs)
]
