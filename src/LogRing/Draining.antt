-- ===== src/LogRing/Draining.antt =====
-- A drain hands the queued entries to its consumer.
use Prim.Native.Nat.{bit_and}
use native.Mathlib.Decide.{dec_lt}
use native.Mathlib.Nat.{mod-eq_of_lt, mod-eq-sub-mod}
use retrace.Prelude.{
  ℕ, zero, suc, ◌+◌, ◌-◌, ◌%◌, ◌^◌, ◌≤◌, ◌<◌, ◌≡◌, ◌≢◌, refl, sym, ap, ap₂, ◌∙◌, subst, Bool, true,
  false, Option, some, List, [], ◌∷◌, arith, ◌==◌, if◌then◌else◌, length, length-set, get_or, set,
  drop, Bool-cases, inl, inr, ◌⊎◌,
}
use retrace.Prelude.Cyclic.{window, around-ne, around-suc, window-set_outside}
use retrace.LogRing.{LogEntry, LogRing, no_entry, without_text, Drain, drain_loop, drain}
use retrace.LogRing.Items.{used, items, IsValid, next_cell, used_end, mod_lt}

module _ {ℓ} {C : Type ℓ} (cb : LogEntry → C → Bool × C) where
  -- What the consumer gets: the entries in order, up to the first at which it stops. The number of
  -- those that it took, and its context.
  abbrev pub consume : List LogEntry → C → ℕ × C
  consume [] ctx = (0, ctx)
  consume (e ∷ es) ctx =
      let seen = cb e ctx in
      let rest = consume es seen.1 in if seen.0 then (suc rest.0, rest.1) else (0, seen.1)

  abbrev start : ℕ → List LogEntry → ℕ → C → Drain C
  start t entries c ctx = record { at = t; entries = entries; count = c; ctx = ctx }

  -- The loop ended at `d` with `n` entries from cell `t` on, of which the consumer took `x.0`.
  record Drained (m n t : ℕ) (entries : List LogEntry) (c : ℕ) (x : ℕ × C) (run : Option (Drain C))
      (d : Drain C) : Type ℓ where
    ends : run ≡ some d
    context : d.ctx ≡ x.1
    counted : d.count ≡ c + x.0
    place : d.at ≡ (t + x.0) % (m + 1)
    within : x.0 ≤ n
    size : length d.entries ≡ length entries
    left :
        window no_entry (m + 1) d.entries d.at (n - x.0)
        ≡ drop x.0 (window no_entry (m + 1) entries t n)

  module _ (k m h : ℕ) (pow : m + 1 ≡ 2 ^ k) where
    away : (t n : ℕ) → t ≤ m → suc n ≤ m → (t + suc n) % (m + 1) ≡ h → (t == h) ≡ false
    away t n ht hm e =
        let far : h ≢ t =
          subst (λ z. z ≢ t) e
            (around-ne (m + 1) t (suc n) (omega arith) (omega arith) (omega arith)) in
        ground (arith, λ (q : t ≡ h). far (sym q))

    full_turn : (t : ℕ) → t ≤ m → (t + suc m) % (m + 1) ≡ t
    full_turn t ht =
        mod-eq-sub-mod {n = t + suc m} {m = m + 1} (omega arith)
        ∙ ap (λ i. i % (m + 1)) {x = t + suc m - (m + 1)} {y = t} (omega arith)
        ∙ mod-eq_of_lt {n = t} {m = m + 1} (omega arith)

    drain_loop_lem :
        (fuel n t : ℕ) (entries : List LogEntry) (c : ℕ) (ctx : C)
        → t ≤ m
        → n ≤ fuel
        → n ≤ m
        → (t + n) % (m + 1) ≡ h
        → (d : Drain C) × Drained m n t entries c
            (consume (window no_entry (m + 1) entries t n) ctx)
            (drain_loop cb fuel m h (start t entries c ctx))
            d
    unfolding drain_loop
    drain_loop_lem fuel zero t entries c ctx ht hf hm e =
        let here : t ≡ h =
          sym (mod-eq_of_lt {n = t} {m = m + 1} (omega arith))
          ∙ ap (λ i. i % (m + 1)) {x = t} {y = t + 0} (omega arith)
          ∙ e in
        let at : (t == h) ≡ true = ground arith in
        (
          start t entries c ctx,
          record {
            ends = elim (fuel_cases fuel) [
              | inl z ↦ rw (z, drain_loop, at) refl
              | inr (f, z) ↦ rw (z, drain_loop, at) refl
            ];
            context = refl;
            counted = omega arith;
            place = here ∙ sym e;
            within = omega arith;
            size = refl;
            left = refl;
          },
        )
      where
        fuel_cases : (f : ℕ) → (f ≡ 0) ⊎ ((g : ℕ) × (f ≡ suc g))
        fuel_cases zero = inl refl
        fuel_cases (suc g) = inr (g, refl)
    drain_loop_lem zero (suc n) t entries c ctx ht hf hm e = absurd (omega arith)
    drain_loop_lem (suc fuel) (suc n) t entries c ctx ht hf hm e =
        let far = away t n ht hm e in
        let o = get_or entries t no_entry in
        let seen = cb o ctx in
        elim (Bool-cases seen.0) [
          | inr stop ↦ (
            start t entries c seen.1,
            record {
              ends = rw (drain_loop, far, stop) refl;
              context = rw stop refl;
              counted = rw stop (omega arith);
              place =
                  rw stop (sym (mod-eq_of_lt {n = t + 0} {m = m + 1} (omega arith) ∙ omega arith));
              within = rw stop (omega arith);
              size = refl;
              left = rw stop (
                  ap (window no_entry (m + 1) entries t) {x = suc n - 0} {y = suc n} (omega arith));
            },
          )
          | inl go ↦
              let t1 = (t + 1) % (m + 1) in
              let taken = set entries t (without_text o) in
              let low : t1 ≤ m = omega (arith, mod_lt (t + 1) m) in
              let (d, p) =
                drain_loop_lem fuel n t1 taken (c + 1) seen.1 low (omega arith) (omega arith)
                  (around-suc (m + 1) t n ∙ e) in
              let round : t ≡ (t1 + m) % (m + 1) = sym (around-suc (m + 1) t m ∙ full_turn t ht) in
              let same : window no_entry (m + 1) taken t1 n ≡ window no_entry (m + 1) entries t1 n =
                window-set_outside no_entry (m + 1) entries (without_text o) n t1 m t (omega arith)
                  (omega arith) (omega arith) round in
              let step : bit_and (t + 1) m ≡ t1 = next_cell k m t pow in
              let x : ℕ × C = consume (window no_entry (m + 1) entries t1 n) seen.1 in
              let x-same : consume (window no_entry (m + 1) taken t1 n) seen.1 ≡ x =
                ap (λ w. consume w seen.1) same in
              let x0 = ap (λ (z : ℕ × C). z.0) x-same in
              (
                d,
                record {
                  ends = rw (drain_loop, far, go, step) p.ends;
                  context = rw go (p.context ∙ ap (λ (z : ℕ × C). z.1) x-same);
                  counted = rw go (omega (arith, p.counted, x0));
                  place =
                      rw go (p.place ∙ ap (λ i. (t1 + i) % (m + 1)) x0 ∙ around-suc (m + 1) t x.0);
                  within = rw go (omega (arith, p.within, x0));
                  size = p.size ∙ length-set entries t (without_text o);
                  left = rw go (
                      ap (window no_entry (m + 1) d.entries d.at) {x = suc n - suc x.0}
                        {y = n - (consume (window no_entry (m + 1) taken t1 n) seen.1).0}
                        (omega (arith, x0))
                      ∙ p.left
                      ∙ ap₂ drop x0 same);
                },
              )
        ]

-- The distance between two cells of the queue, on a ring of `c` cells.
used_left : (c t n x : ℕ) → t < c → n < c → x ≤ n → ((t + n) % c + c - (t + x) % c) % c ≡ n - x
used_left c t n x ht hn hx = elim (dec_lt (t + n) c) [
  | yes a ↦
      let near = mod-eq_of_lt {n = t + n} {m = c} a in
      let close = mod-eq_of_lt {n = t + x} {m = c} (omega arith) in
      rw (near, close)
        (mod-eq-sub-mod {n = t + n + c - (t + x)} {m = c} (omega arith)
          ∙ ap (λ i. i % c) {x = t + n + c - (t + x) - c} {y = n - x} (omega arith)
          ∙ mod-eq_of_lt {n = n - x} {m = c} (omega arith))
  | no a ↦
      let near : (t + n) % c ≡ t + n - c =
        mod-eq-sub-mod {n = t + n} {m = c} (omega arith)
        ∙ mod-eq_of_lt {n = t + n - c} {m = c} (omega arith) in
      elim (dec_lt (t + x) c) [
        | yes b ↦
            rw (near, mod-eq_of_lt {n = t + x} {m = c} b)
              (ap (λ i. i % c) {x = t + n - c + c - (t + x)} {y = n - x} (omega arith)
                ∙ mod-eq_of_lt {n = n - x} {m = c} (omega arith))
        | no b ↦
            let close : (t + x) % c ≡ t + x - c =
              mod-eq-sub-mod {n = t + x} {m = c} (omega arith)
              ∙ mod-eq_of_lt {n = t + x - c} {m = c} (omega arith) in
            rw (near, close)
              (mod-eq-sub-mod {n = t + n - c + c - (t + x - c)} {m = c} (omega arith)
                ∙ ap (λ i. i % c) {x = t + n - c + c - (t + x - c) - c} {y = n - x} (omega arith)
                ∙ mod-eq_of_lt {n = n - x} {m = c} (omega arith))
      ]
]

-- A drain of a valid ring ends. It hands the queued entries to the consumer in order, up to the first
-- at which it stops, returns the number of entries taken, and leaves a valid ring that queues the
-- others.
pub drain_lem :
    {C : Type 0} (cb : LogEntry → C → Bool × C) (k : ℕ) (r : LogRing) (ctx : C)
    → IsValid k r
    → let eaten = consume cb (items r) ctx in
      (r' : LogRing) × (drain cb r ctx ≡ some (eaten.0, r', eaten.1))
      × IsValid k r'
      × (items r' ≡ drop eaten.0 (items r))
unfolding drain
drain_lem cb k r ctx v =
    let m = r.mask in
    let h_in : r.head < m + 1 = omega (arith, v.head_in) in
    let t_in : r.tail < m + 1 = omega (arith, v.tail_in) in
    let n_in : used r < m + 1 = mod_lt (r.head + (m + 1) - r.tail) m in
    let end_at = used_end (m + 1) r.head r.tail h_in t_in in
    let (d, p) =
      drain_loop_lem cb k m r.head v.cap m (used r) r.tail r.entries 0 ctx v.tail_in (omega arith)
        (omega arith) end_at in
    let r' : LogRing = record {
      mask = m;
      dropped = r.dropped;
      head = r.head;
      tail = d.at;
      entries = d.entries;
    } in
    let eaten = consume cb (items r) ctx in
    let shorter : used r' ≡ used r - eaten.0 =
      ap (λ i. (r.head + (m + 1) - i) % (m + 1)) p.place
      ∙ ap (λ i. (i + (m + 1) - (r.tail + eaten.0) % (m + 1)) % (m + 1)) (sym end_at)
      ∙ used_left (m + 1) r.tail (used r) eaten.0 t_in n_in p.within in
    (
      r',
      rw (drain, p.ends) (ap₂ (λ a b. some (a, r', b)) (p.counted ∙ omega arith) p.context),
      record {
        cap = v.cap;
        size = p.size ∙ v.size;
        head_in = v.head_in;
        tail_in = omega (arith, p.place, mod_lt (r.tail + eaten.0) m);
      },
      ap (window no_entry (m + 1) d.entries d.at) shorter ∙ p.left,
    )
