-- ===== src/FailFirst/Window.antt =====
-- The window of failing calls of one function.
use retrace.Prelude.{
  ◌≤◌, ap₂, get_or-set_self, set-set, ℕ, zero, suc, ◌+◌, ◌≡◌, ◌≢◌, refl, ap, ◌∙◌, true, false,
  Option, none, some, List, [], ◌∷◌, ◌++◌, arith, if◌then◌else◌, get_or, set, replicate, All, CStr,
  ◌⊎◌, inl, inr, Bool-cases,
}
use retrace.Prelude.Int.{ℤ, pos, negsuc, leb_ℤ}
use retrace.SlotTable.{scan_slots, held, is_free, Place, scan-held, scan-absent}
use retrace.FailFirst.{FailEntry, no_entry, find_or_claim, fail_call, Outcome}

-- The entry of a function in the table.
abbrev pub window : CStr → List FailEntry → Option FailEntry
window func tbl = held (λ (e : FailEntry). e.name) func tbl

abbrev entry : CStr → ℕ → ℤ → ℤ → FailEntry
entry func n fails retval = record { name = func; count = n; fails = fails; retval = retval }

-- The status of the `n`-th call of a function, and the value that it returns without a real call.
abbrev pub verdict : ℕ → ℤ → ℤ → ℤ × Option ℤ
verdict n fails retval = if leb_ℤ (pos n) fails then (negsuc 0, some retval) else (pos 0, none)

-- The call was taken as the `n`-th of its function.
pub record Taken (func : CStr) (n : ℕ) (fails retval : ℤ) (tbl : List FailEntry) (r : Outcome)
    : Type 0 where
  pub status : (r.0, r.1) ≡ verdict n fails retval
  pub own : window func r.2 ≡ some (entry func n fails retval)
  pub others : (m : CStr) → func ≢ m → window m r.2 ≡ window m tbl

module _ (func : CStr) (named : is_free func ≡ false) (fails retval : ℤ)
    (tbl : List FailEntry) where
  taken :
      (i n : ℕ) (f : ℤ)
      → Place (λ (a : FailEntry). a.name) func tbl i
      → (fail_call func fails retval tbl ≡ (
          if leb_ℤ (pos n) f
          then (negsuc 0, some retval, set tbl i (entry func n f retval))
          else (pos 0, none, set tbl i (entry func n f retval))))
      → Taken func n f retval tbl (fail_call func fails retval tbl)
  taken i n f p e =
      let b = entry func n f retval in
      elim (Bool-cases (leb_ℤ (pos n) f)) [
        | inl y ↦ ended i n f b p (negsuc 0, some retval) refl (rw y refl) (e ∙ rw y refl)
        | inr y ↦ ended i n f b p (pos 0, none) refl (rw y refl) (e ∙ rw y refl)
      ]
    where
      ended :
          (i n : ℕ) (f : ℤ) (b : FailEntry)
          → Place (λ (a : FailEntry). a.name) func tbl i
          → (o : ℤ × Option ℤ) → b ≡ entry func n f retval
          → o ≡ verdict n f retval
          → fail_call func fails retval tbl ≡ (o.0, o.1, set tbl i b)
          → Taken func n f retval tbl (fail_call func fails retval tbl)
      ended i n f b p o same v e = record {
        status = ap (λ r. (r.0, r.1)) e ∙ v;
        own =
            ap (λ r. window func r.2) e
            ∙ p.self b (ap (λ (x : FailEntry). x.name) same)
            ∙ ap some same;
        others =
            λ m ne. ap (λ r. window m r.2) e ∙ p.other b m (ap (λ (x : FailEntry). x.name) same) ne;
      }

  -- A call of a function that has an entry is taken as one more, under the entry's `fails`; its own
  -- `fails` is ignored and its return value is stored.
  pub fail_call-Taken :
      (e : FailEntry)
      → window func tbl ≡ some e
      → Taken func (e.count + 1) e.fails retval tbl (fail_call func fails retval tbl)
  unfolding fail_call find_or_claim
  fail_call-Taken e h =
      let (i, p) = scan-held (λ (a : FailEntry). a.name) func named no_entry e tbl h in
      let at : scan_slots (λ (a : FailEntry). a.name) func tbl 0 none ≡ some i =
        p.stops 0 none ∙ ap some (omega arith) in
      let occupied : is_free (get_or tbl i no_entry).name ≡ false =
        rw (p.entry, p.named_it) named in
      taken i (e.count + 1) e.fails p.place
        (rw (fail_call, find_or_claim, at, occupied, p.entry, p.named_it) refl)

  -- A call of a function without an entry claims a free one and is taken as the first under its own
  -- `fails`. In a table with no free entry the call passes, and the table stays.
  pub fail_call-Claims :
      window func tbl ≡ none
      → Taken func 1 fails retval tbl (fail_call func fails retval tbl)
        ⊎ (All (λ (e : FailEntry). is_free e.name ≡ false) tbl
            × (fail_call func fails retval tbl ≡ (pos 0, none, tbl)))
  unfolding fail_call find_or_claim
  fail_call-Claims h = elim (scan-absent (λ (a : FailEntry). a.name) func named no_entry tbl h) [
    | inl (i, p) ↦
        let at : scan_slots (λ (a : FailEntry). a.name) func tbl 0 none ≡ some i =
          p.claims 0 ∙ ap some (omega arith) in
        let free : is_free (get_or tbl i no_entry).name ≡ true = rw p.free_entry refl in
        let old = (get_or tbl i no_entry).retval in
        let claimed = entry func 0 fails old in
        inl (
          taken i 1 fails p.place (
            rw
              (
                fail_call,
                find_or_claim,
                at,
                free,
                get_or-set_self tbl i claimed no_entry p.inside,
                set-set tbl i claimed (entry func 1 fails retval),
              )
              refl))
    | inr (full, stuck) ↦ inr (full, rw (fail_call, find_or_claim, stuck 0) refl)
  ]

-- The statuses and return values of `n` calls of a function in a row.
unfoldable pub fail_calls : CStr → ℤ → ℤ → ℕ → List FailEntry → List (ℤ × Option ℤ)
fail_calls func fails retval zero tbl = []
fail_calls func fails retval (suc n) tbl =
    let r = fail_call func fails retval tbl in (r.0, r.1) ∷ fail_calls func fails retval n r.2

-- The verdicts on the calls after the first `c`.
abbrev verdicts : ℕ → ℤ → ℤ → ℕ → List (ℤ × Option ℤ)
verdicts c fails retval zero = []
verdicts c fails retval (suc n) = verdict (c + 1) fails retval ∷ verdicts (c + 1) fails retval n

verdicts_over :
    (c f m : ℕ) (retval : ℤ) → f ≤ c → verdicts c (pos f) retval m ≡ replicate m (pos 0, none)
verdicts_over c f zero retval h = refl
verdicts_over c f (suc m) retval h =
    ap₂ ◌∷◌ (ground arith) (verdicts_over (c + 1) f m retval (omega arith))

verdicts_split :
    (c k f m : ℕ) (retval : ℤ)
    → f ≡ c + k
    → verdicts c (pos f) retval (k + m)
      ≡ replicate k (negsuc 0, some retval) ++ replicate m (pos 0, none)
verdicts_split c zero f m retval h =
    ap (verdicts c (pos f) retval) {x = 0 + m} {y = m} (omega arith)
    ∙ verdicts_over c f m retval (omega arith)
verdicts_split c (suc k) f m retval h =
    ap (verdicts c (pos f) retval) {x = suc k + m} {y = suc (k + m)} (omega arith)
    ∙ ap₂ ◌∷◌ (ground arith) (verdicts_split (c + 1) k f m retval (omega arith))

module _ (func : CStr) (named : is_free func ≡ false) (fails retval : ℤ) where
  fail_calls-held :
      (n : ℕ) (e : FailEntry) (tbl : List FailEntry)
      → window func tbl ≡ some e
      → fail_calls func fails retval n tbl ≡ verdicts e.count e.fails retval n
  unfolding fail_calls
  fail_calls-held zero e tbl h = refl
  fail_calls-held (suc n) e tbl h =
      let p = fail_call-Taken func named fails retval tbl e h in
      ap₂ ◌∷◌ p.status (
        fail_calls-held n (entry func (e.count + 1) e.fails retval)
          (fail_call func fails retval tbl).2 p.own)

  fail_calls-absent :
      (n : ℕ) (tbl : List FailEntry)
      → window func tbl ≡ none
      → ¬ All (λ (e : FailEntry). is_free e.name ≡ false) tbl
      → fail_calls func fails retval n tbl ≡ verdicts 0 fails retval n
  unfolding fail_calls
  fail_calls-absent zero tbl h room = refl
  fail_calls-absent (suc n) tbl h room = elim (fail_call-Claims func named fails retval tbl h) [
    | inl p ↦
        ap₂ ◌∷◌ p.status
          (fail_calls-held n (entry func 1 fails retval) (fail_call func fails retval tbl).2 p.own)
    | inr (full, _) ↦ absurd (room full)
  ]

-- With room in the table, the first `k` calls of a function with `fails` equal to `k` abort with the
-- given return value, and every call after them goes through to the real function.
pub fail_calls_lem :
    (func : CStr) (k m : ℕ) (retval : ℤ) (tbl : List FailEntry)
    → is_free func ≡ false
    → window func tbl ≡ none
    → ¬ All (λ (e : FailEntry). is_free e.name ≡ false) tbl
    → fail_calls func (pos k) retval (k + m) tbl
      ≡ replicate k (negsuc 0, some retval) ++ replicate m (pos 0, none)
fail_calls_lem func k m retval tbl named h room =
    fail_calls-absent func named (pos k) retval (k + m) tbl h room
    ∙ verdicts_split 0 k k m retval (omega arith)
