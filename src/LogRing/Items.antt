-- ===== src/LogRing/Items.antt =====
-- The ring as the queue of its entries.
use Prim.Native.Nat.{bit_and}
use native.Mathlib.Decide.{dec_lt}
use native.Mathlib.Nat.{mod-eq_of_lt, mod-eq-sub-mod}
use retrace.Prelude.{
  ℕ, suc, ◌+◌, ◌-◌, ◌%◌, ◌^◌, ◌≤◌, ◌<◌, ◌≡◌, ◌≢◌, refl, sym, ap, ◌∙◌, List, [], ◌∷◌, ◌++◌, arith,
  ◌==◌, length, length-set, set, Bool-cases, inl, inr, ◌⊎◌,
}
use retrace.Prelude.Bits.{bit_and_mask}
use retrace.Prelude.Cyclic.{window, window-set_next}
use retrace.Prelude.Int.{pos, negsuc}
use retrace.LogRing.{LogEntry, LogRing, no_entry, push_entry}

-- The number of queued entries.
abbrev pub used : LogRing → ℕ
used r = (r.head + (r.mask + 1) - r.tail) % (r.mask + 1)

-- The queued entries, oldest first.
abbrev pub items : LogRing → List LogEntry
items r = window no_entry (r.mask + 1) r.entries r.tail (used r)

-- A ring whose capacity is the `k`-th power of two.
pub record IsValid (k : ℕ) (r : LogRing) : Type 0 where
  pub cap : r.mask + 1 ≡ 2 ^ k
  pub size : length r.entries ≡ r.mask + 1
  pub head_in : r.head ≤ r.mask
  pub tail_in : r.tail ≤ r.mask

pub next_cell : (k m i : ℕ) → m + 1 ≡ 2 ^ k → bit_and (i + 1) m ≡ (i + 1) % (m + 1)
next_cell k m i e =
    ap (λ t. bit_and (i + 1) t) {x = m} {y = 2 ^ k - 1} (omega arith)
    ∙ bit_and_mask k (i + 1)
    ∙ ap (λ t. (i + 1) % t) (sym e)

pub mod_lt : (a m : ℕ) → a % (m + 1) < m + 1
mod_lt a m = grind arith

-- Where the queue ends, and how long it is after a push: for a cell `h` and an end `t`.
pub used_end : (c h t : ℕ) → h < c → t < c → (t + (h + c - t) % c) % c ≡ h
used_end c h t p q = grind arith

used_next :
    (c h t : ℕ) → h < c → t < c → (h + 1) % c ≢ t → ((h + 1) % c + c - t) % c ≡ (h + c - t) % c + 1
used_next c h t p q n = elim (dec_lt (h + 1) c) [
  | yes low ↦
      let step : (h + 1) % c ≡ h + 1 = mod-eq_of_lt low in
      rw step (used_shift c h t p q (λ e. n (step ∙ e)) low)
  | no high ↦
      let step : (h + 1) % c ≡ 0 =
        ap (λ i. i % c) {x = h + 1} {y = c} (omega arith) ∙ grind arith in
      rw step (used_wrap c h t p q (λ e. n (step ∙ e)) (omega arith))
]
  where
    used_shift :
        (c h t : ℕ)
        → h < c
        → t < c
        → h + 1 ≢ t
        → h + 1 < c
        → (h + 1 + c - t) % c ≡ (h + c - t) % c + 1
    used_shift c h t p q n low = elim (dec_lt h t) [
      | yes l ↦ omega (
        arith,
        mod-eq_of_lt {n = h + 1 + c - t} {m = c} (omega arith),
        mod-eq_of_lt {n = h + c - t} {m = c} (omega arith),
      )
      | no l ↦ omega (
        arith,
        mod-eq-sub-mod {n = h + 1 + c - t} {m = c} (omega arith),
        mod-eq-sub-mod {n = h + c - t} {m = c} (omega arith),
        mod-eq_of_lt {n = h + 1 + c - t - c} {m = c} (omega arith),
        mod-eq_of_lt {n = h + c - t - c} {m = c} (omega arith),
      )
    ]

    used_wrap :
        (c h t : ℕ) → h < c → t < c → 0 ≢ t → h + 1 ≡ c → (0 + c - t) % c ≡ (h + c - t) % c + 1
    used_wrap c h t p q n e = omega (
      arith,
      mod-eq_of_lt {n = 0 + c - t} {m = c} (omega arith),
      mod-eq-sub-mod {n = h + c - t} {m = c} (omega arith),
      mod-eq_of_lt {n = h + c - t - c} {m = c} (omega arith),
    )

used_full : (c h t : ℕ) → h < c → t < c → (h + 1) % c ≡ t → (h + c - t) % c ≡ c - 1
used_full c h t p q n = grind arith

module _ (k : ℕ) (r : LogRing) (v : IsValid k r) (e : LogEntry) where
  -- A push on a ring that holds one entry less than its capacity is refused and counted as dropped.
  -- Else the entry is queued behind the others. Both keep the ring valid.
  push_entry_lem :
      IsValid k (push_entry r e).1
      × (((used r ≡ r.mask)
            × ((push_entry r e).0 ≡ negsuc 0)
            × (items (push_entry r e).1 ≡ items r)
            × ((push_entry r e).1.dropped ≡ (r.dropped + 1) % 2 ^ 32))
          ⊎ ((used r < r.mask)
              × ((push_entry r e).0 ≡ pos 0)
              × (items (push_entry r e).1 ≡ items r ++ e ∷ [])
              × ((push_entry r e).1.dropped ≡ r.dropped)))
  unfolding push_entry
  push_entry_lem =
      let h_in : r.head < r.mask + 1 = omega (arith, v.head_in) in
      let t_in : r.tail < r.mask + 1 = omega (arith, v.tail_in) in
      let step = next_cell k r.mask r.head v.cap in
      elim (Bool-cases (((r.head + 1) % (r.mask + 1)) == r.tail)) [
        | inl full ↦
            let meets : (r.head + 1) % (r.mask + 1) ≡ r.tail = ground arith in
            (
              rw (push_entry, step, full)
                  (record { cap = v.cap; size = v.size; head_in = v.head_in; tail_in = v.tail_in }),
              inl (
                omega (arith, used_full (r.mask + 1) r.head r.tail h_in t_in meets),
                rw (push_entry, step, full) refl,
                rw (push_entry, step, full) refl,
                rw (push_entry, step, full) refl,
              ),
            )
        | inr room ↦
            let apart : (r.head + 1) % (r.mask + 1) ≢ r.tail = λ q. ground arith in
            let longer = used_next (r.mask + 1) r.head r.tail h_in t_in apart in
            let r' : LogRing = record {
              mask = r.mask;
              dropped = r.dropped;
              head = (r.head + 1) % (r.mask + 1);
              tail = r.tail;
              entries = set r.entries r.head e;
            } in
            let done : push_entry r e ≡ (pos 0, r') = rw (push_entry, step, room) refl in
            let bound : used r' < r.mask + 1 = mod_lt (r'.head + (r.mask + 1) - r.tail) r.mask in
            let appended : items r' ≡ items r ++ e ∷ [] =
              ap (window no_entry (r.mask + 1) r'.entries r.tail) {x = used r'} {y = suc (used r)}
                (omega (arith, longer))
              ∙ window-set_next no_entry (r.mask + 1) r.entries e (used r) r.tail r.head
                  (omega (arith, v.size)) t_in (mod_lt (r.head + (r.mask + 1) - r.tail) r.mask)
                  (sym (used_end (r.mask + 1) r.head r.tail h_in t_in)) in
            rw done (
              record {
                cap = v.cap;
                size = length-set r.entries r.head e ∙ v.size;
                head_in = omega (arith, mod_lt (r.head + 1) r.mask);
                tail_in = v.tail_in;
              },
              inr (omega (arith, longer, bound), refl, appended, refl),
            )
      ]
