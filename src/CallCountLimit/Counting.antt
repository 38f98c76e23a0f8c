-- ===== src/CallCountLimit/Counting.antt =====
-- What a call does to the counter of its function, and to those of the others.
use retrace.Prelude.{
  ◌≤◌, ap₂, get_or-set_self, set-set, ℕ, zero, suc, ◌+◌, ◌≡◌, ◌≢◌, refl, ap, ◌∙◌, true, false,
  Option, none, some, List, [], ◌∷◌, ◌++◌, arith, if◌then◌else◌, get_or, set, replicate, All, CStr,
  ◌⊎◌, inl, inr,
}
use retrace.Prelude.Int.{ℤ, pos, negsuc, ltb_ℤ}
use retrace.SlotTable.{scan_slots, held, is_free, Place, scan-held, scan-absent}
use retrace.CallCountLimit.{CountEntry, no_entry, find_or_claim, count_call}

-- The counter of a function: its entry in the table.
abbrev pub counter : CStr → List CountEntry → Option CountEntry
counter func tbl = held (λ (e : CountEntry). e.name) func tbl

-- The status of the `n`-th call under a limit.
abbrev pub verdict : ℕ → ℤ → ℤ
verdict n limit = if ltb_ℤ limit (pos n) then negsuc 0 else pos 0

-- The call was counted as the `n`-th of its function, under the limit.
pub record Counted (func : CStr) (n : ℕ) (limit : ℤ) (tbl : List CountEntry)
    (r : ℤ × List CountEntry) : Type 0 where
  pub status : r.0 ≡ verdict n limit
  pub own : counter func r.1 ≡ some (record { name = func; count = n; limit = limit })
  pub others : (m : CStr) → func ≢ m → counter m r.1 ≡ counter m tbl

module _ (func : CStr) (named : is_free func ≡ false) (limit : ℤ) (tbl : List CountEntry) where
  counted :
      (i n : ℕ) (l : ℤ)
      → Place (λ (a : CountEntry). a.name) func tbl i
      → count_call func limit tbl
        ≡ (verdict n l, set tbl i (record { name = func; count = n; limit = l }))
      → Counted func n l tbl (count_call func limit tbl)
  counted i n l p e =
      let b : CountEntry = record { name = func; count = n; limit = l } in
      record {
        status = ap (λ r. r.0) e;
        own = ap (λ r. counter func r.1) e ∙ p.self b refl;
        others = λ m ne. ap (λ r. counter m r.1) e ∙ p.other b m refl ne;
      }

  -- A call of a function that has a counter is counted as one more, under the limit of the counter;
  -- its own limit is ignored.
  pub count_call-Counted :
      (e : CountEntry)
      → counter func tbl ≡ some e
      → Counted func (e.count + 1) e.limit tbl (count_call func limit tbl)
  unfolding count_call find_or_claim
  count_call-Counted e h =
      let (i, p) = scan-held (λ (a : CountEntry). a.name) func named no_entry e tbl h in
      let at : scan_slots (λ (a : CountEntry). a.name) func tbl 0 none ≡ some i =
        p.stops 0 none ∙ ap some (omega arith) in
      let occupied : is_free (get_or tbl i no_entry).name ≡ false =
        rw (p.entry, p.named_it) named in
      counted i (e.count + 1) e.limit p.place
        (rw (count_call, find_or_claim, at, occupied, p.entry, p.named_it) refl)

  -- A call of a function without a counter claims a free entry and is counted as the first one under
  -- its own limit. In a table with no free entry the call passes, and the table stays.
  pub count_call-Claims :
      counter func tbl ≡ none
      → Counted func 1 limit tbl (count_call func limit tbl)
        ⊎ (All (λ (e : CountEntry). is_free e.name ≡ false) tbl
            × (count_call func limit tbl ≡ (pos 0, tbl)))
  unfolding count_call find_or_claim
  count_call-Claims h = elim (scan-absent (λ (a : CountEntry). a.name) func named no_entry tbl h) [
    | inl (i, p) ↦
        let at : scan_slots (λ (a : CountEntry). a.name) func tbl 0 none ≡ some i =
          p.claims 0 ∙ ap some (omega arith) in
        let free : is_free (get_or tbl i no_entry).name ≡ true = rw p.free_entry refl in
        inl (
          counted i 1 limit p.place (
            rw
              (
                count_call,
                find_or_claim,
                at,
                free,
                get_or-set_self tbl i (record { name = func; count = 0; limit = limit }) no_entry
                    p.inside,
                set-set tbl i (record { name = func; count = 0; limit = limit })
                    (record { name = func; count = 1; limit = limit }),
              )
              refl))
    | inr (full, stuck) ↦ inr (full, rw (count_call, find_or_claim, stuck 0) refl)
  ]

-- The statuses of `n` calls of a function in a row.
unfoldable pub calls : CStr → ℤ → ℕ → List CountEntry → List ℤ
calls func limit zero tbl = []
calls func limit (suc n) tbl = let r = count_call func limit tbl in r.0 ∷ calls func limit n r.1

-- The verdicts on the calls after the first `c`.
abbrev verdicts : ℕ → ℤ → ℕ → List ℤ
verdicts c limit zero = []
verdicts c limit (suc n) = verdict (c + 1) limit ∷ verdicts (c + 1) limit n

verdicts_over : (c l m : ℕ) → l ≤ c → verdicts c (pos l) m ≡ replicate m (negsuc 0)
verdicts_over c l zero h = refl
verdicts_over c l (suc m) h = ap₂ ◌∷◌ (ground arith) (verdicts_over (c + 1) l m (omega arith))

verdicts_split :
    (c k l m : ℕ)
    → l ≡ c + k
    → verdicts c (pos l) (k + m) ≡ replicate k (pos 0) ++ replicate m (negsuc 0)
verdicts_split c zero l m h =
    ap (verdicts c (pos l)) {x = 0 + m} {y = m} (omega arith) ∙ verdicts_over c l m (omega arith)
verdicts_split c (suc k) l m h =
    ap (verdicts c (pos l)) {x = suc k + m} {y = suc (k + m)} (omega arith)
    ∙ ap₂ ◌∷◌ (ground arith) (verdicts_split (c + 1) k l m (omega arith))

module _ (func : CStr) (named : is_free func ≡ false) (limit : ℤ) where
  calls-held :
      (n : ℕ) (e : CountEntry) (tbl : List CountEntry)
      → counter func tbl ≡ some e
      → calls func limit n tbl ≡ verdicts e.count e.limit n
  unfolding calls
  calls-held zero e tbl h = refl
  calls-held (suc n) e tbl h =
      let p = count_call-Counted func named limit tbl e h in
      ap₂ ◌∷◌ p.status (
        calls-held n (record { name = func; count = e.count + 1; limit = e.limit })
          (count_call func limit tbl).1 p.own)

  calls-absent :
      (n : ℕ) (tbl : List CountEntry)
      → counter func tbl ≡ none
      → ¬ All (λ (e : CountEntry). is_free e.name ≡ false) tbl
      → calls func limit n tbl ≡ verdicts 0 limit n
  unfolding calls
  calls-absent zero tbl h room = refl
  calls-absent (suc n) tbl h room = elim (count_call-Claims func named limit tbl h) [
    | inl p ↦ ap₂ ◌∷◌ p.status (
        calls-held n (record { name = func; count = 1; limit = limit })
          (count_call func limit tbl).1 p.own)
    | inr (full, _) ↦ absurd (room full)
  ]

-- With room in the table, the first `k` calls of a function under the limit `k` pass, and every call
-- after them is aborted.
pub calls_lem :
    (func : CStr) (k m : ℕ) (tbl : List CountEntry)
    → is_free func ≡ false
    → counter func tbl ≡ none
    → ¬ All (λ (e : CountEntry). is_free e.name ≡ false) tbl
    → calls func (pos k) (k + m) tbl ≡ replicate k (pos 0) ++ replicate m (negsuc 0)
calls_lem func k m tbl named h room =
    calls-absent func named (pos k) (k + m) tbl h room ∙ verdicts_split 0 k k m (omega arith)
