-- ===== src/LogRing/Interleaving/Alone.antt =====
-- src/core/log_ring.c: the steps of one thread without the other's between them are `push_entry` and
-- `drain`.
use mathlib.Core.List.{append_assoc, append_cancel_right}
use retrace.Prelude.{
  drop, take-append-drop, true, false, take, some-inj, some≢none, Option-cases, ℕ, zero, suc, ◌+◌,
  Bool, some, get_or, set, sym, ap, ◌∙◌, subst, ◌≡◌, ◌≢◌, refl, ◌⊎◌, inl, inr, [], ◌∷◌, ◌++◌, arith,
  ◌==◌, Bool-cases,
}
use retrace.Prelude.Int.{pos, negsuc}
use retrace.LogRing.{
  LogEntry, LogRing, push_entry, Drain, drain_loop, drain, no_entry, without_text,
}
use retrace.LogRing.Items.{IsValid, items}
use retrace.LogRing.Draining.{consume, drain_lem}
use retrace.LogRing.Interleaving.{
  ready, System, next_index, drop_full, testing, waiting, find_room, store_entry, store_head,
  load_indices, accept, free_text, store_tail, Reach, Turns, rest, turn,
}
use retrace.LogRing.Interleaving.Fifo.{Reach-Inv, Reach-turns, Turns-append}
use retrace.LogRing.Interleaving.Inv.{cells, place, queued}
use retrace.LogRing.Cycle.{dist}
use retrace.Prelude.Cyclic.{window}

-- From a state in which no push is under way, steps of the producer lead to the ring that
-- `push_entry` returns; the entry is listed as pushed exactly where its status is 0.
push_entry-Turns :
    (s : System) (e : LogEntry)
    → s.producer ≡ ready
    → (u : System) × Turns false s u
      × (u.producer ≡ ready)
      × (u.ring ≡ (push_entry s.ring e).1)
      × ((((push_entry s.ring e).0 ≡ pos 0) × (u.pushed ≡ s.pushed ++ e ∷ []))
          ⊎ (((push_entry s.ring e).0 ≡ negsuc 0) × (u.pushed ≡ s.pushed)))
unfolding push_entry
push_entry-Turns s e p = elim (Bool-cases (next_index s.ring s.ring.head == s.ring.tail)) [
  | inl full ↦
      let meets : next_index s.ring s.ring.head ≡ s.ring.tail = ground arith in
      (_, turn rest (drop_full p meets) refl, p, rw full refl, inr (rw full refl, refl))
  | inr room ↦
      let apart : next_index s.ring s.ring.head ≢ s.ring.tail = λ q. ground arith in
      (
        _,
        turn (turn (turn rest (find_room e p apart) refl) (store_entry e refl) refl)
            (store_head e refl) refl,
        refl,
        rw room refl,
        inl (rw room refl, refl),
      )
]

-- Between two drains, what the invariant calls the queue is the ring's.
queued-items : (s : System) → s.consumer ≡ waiting → queued s ≡ items s.ring
queued-items s p =
    ap
      (λ c.
        window no_entry (cells s.ring) s.ring.entries (place (cells s.ring) s.ring.tail c)
          (dist (cells s.ring) (place (cells s.ring) s.ring.tail c) s.ring.head))
      p

module _ {C : Type 0} (cb : LogEntry → C → Bool × C) where
  -- The state `u` follows from `s` by steps of the consumer, which has come to what `d` holds.
  record Walked (s u : System) (h : ℕ) (d : Drain C) : Type 0 where
    turns : Turns true s u
    consumer : u.consumer ≡ testing d.at h d.count
    ring : u.ring ≡ record s.ring { entries = d.entries }
    producer : u.producer ≡ s.producer
    pushed : u.pushed ≡ s.pushed

  arrived :
      (t h n : ℕ) (s : System) (ctx : C) (d : Drain C)
      → s.consumer ≡ testing t h n
      → some (record { at = t; entries = s.ring.entries; count = n; ctx = ctx }) ≡ some d
      → (u : System) × Walked s u h d
  arrived t h n s ctx d p e =
      subst (λ x. (u : System) × Walked s u h x) (some-inj e)
        (s, record { turns = rest; consumer = p; ring = refl; producer = refl; pushed = refl })

  -- One round of the loop.
  round : System → ℕ → ℕ → ℕ → System
  round s t h n =
      let e = get_or s.ring.entries t no_entry in
      record s {
        ring = record s.ring { entries = set s.ring.entries t (without_text e) };
        consumer = testing (next_index s.ring t) h (n + 1);
        taken = s.taken ++ e ∷ [];
      }

  drain_loop-Walked :
      (fuel t h n : ℕ) (s : System) (ctx : C) (d : Drain C)
      → s.consumer ≡ testing t h n
      → drain_loop cb fuel s.ring.mask h
          (record { at = t; entries = s.ring.entries; count = n; ctx = ctx })
        ≡ some d
      → (u : System) × Walked s u h d
  unfolding drain_loop round
  drain_loop-Walked zero t h n s ctx d p e = elim (Bool-cases (t == h)) [
    | inl q ↦ arrived t h n s ctx d p (rw q at e)
    | inr q ↦ absurd (some≢none (sym (rw q at e)))
  ]
  drain_loop-Walked (suc fuel) t h n s ctx d p e = elim (Bool-cases (t == h)) [
    | inl q ↦ arrived t h n s ctx d p (rw q at e)
    | inr q ↦
        let seen = cb (get_or s.ring.entries t no_entry) ctx in
        let apart : t ≢ h = λ m. ground arith in
        elim (Bool-cases seen.0) [
          | inr stop ↦ arrived t h n s seen.1 d p (rw (q, stop) at e)
          | inl go ↦
              let taken =
                turn (turn rest (accept t h n p apart) refl) (free_text t h n refl) refl in
              let (u, w) =
                drain_loop-Walked fuel (next_index s.ring t) h (n + 1) (round s t h n) seen.1 d refl
                  (rw (q, go) at e) in
              (
                u,
                record {
                  turns = Turns-append taken w.turns;
                  consumer = w.consumer;
                  ring = w.ring;
                  producer = w.producer;
                  pushed = w.pushed;
                },
              )
        ]
  ]

  returned :
      (s : System) (ctx : C) (n : ℕ) (r' : LogRing) (end : C)
      → s.consumer ≡ waiting
      → drain cb s.ring ctx ≡ some (n, r', end)
      → (u : System) × Turns true s u
        × (u.consumer ≡ waiting)
        × (u.ring ≡ r')
        × (u.producer ≡ s.producer)
        × (u.pushed ≡ s.pushed)
  unfolding drain
  returned s ctx n r' end p e =
      let start : Drain C = record {
        at = s.ring.tail;
        entries = s.ring.entries;
        count = 0;
        ctx = ctx;
      } in
      elim (Option-cases (drain_loop cb s.ring.mask s.ring.mask s.ring.head start)) [
        | inl q ↦ absurd (some≢none (sym (rw (drain, q) at e)))
        | inr (d, q) ↦
            let same = some-inj (rw (drain, q) at e) in
            let (u, w) =
              drain_loop-Walked s.ring.mask s.ring.tail s.ring.head 0
                (record s { consumer = testing s.ring.tail s.ring.head 0 }) ctx d refl q in
            let started = turn rest (load_indices p) refl in
            let last = store_tail d.at s.ring.head d.count w.consumer in
            (
              record u { ring = record u.ring { tail = d.at }; consumer = waiting },
              turn (Turns-append started w.turns) last refl,
              refl,
              ap {A = LogRing} (λ x. record x { tail = d.at }) w.ring ∙ ap (λ x. x.1) same,
              w.producer,
              w.pushed,
            )
      ]

  -- From a state that the two threads reach on a valid and empty ring, in which no drain is under way,
  -- steps of the consumer alone lead on to the ring that `drain` leaves. The drain returns how many of
  -- the ring's entries the callback accepted, up to the first at which it stops, and these entries, in
  -- order, are those that the steps take.
  pub drain-Turns :
      (k : ℕ) (r : LogRing) (s : System) (ctx : C)
      → IsValid k r
      → r.head ≡ r.tail
      → Reach r s
      → s.consumer ≡ waiting
      → let eaten = consume cb (items s.ring) ctx in
        (u : System) × Turns true s u
        × (u.consumer ≡ waiting)
        × (drain cb s.ring ctx ≡ some (eaten.0, u.ring, eaten.1))
        × (u.taken ≡ s.taken ++ take eaten.0 (items s.ring))
        × (u.producer ≡ s.producer)
        × (u.pushed ≡ s.pushed)
  drain-Turns k r s ctx v e reach p =
      let eaten = consume cb (items s.ring) ctx in
      let before = Reach-Inv k r v e reach in
      let (r', answer, valid, left) = drain_lem cb k s.ring ctx before.valid in
      let (u, turns, free, ring, producer, pushed) = returned s ctx _ r' _ p answer in
      let after = Reach-Inv k r v e (Reach-turns r reach turns) in
      let kept : u.taken ++ drop eaten.0 (items s.ring) ≡ s.taken ++ items s.ring =
        ap (λ l. u.taken ++ l) (sym (queued-items u free ∙ ap items ring ∙ left))
        ∙ sym after.queue
        ∙ pushed
        ∙ before.queue
        ∙ ap (λ l. s.taken ++ l) (queued-items s p) in
      let front = take eaten.0 (items s.ring) in
      let behind = drop eaten.0 (items s.ring) in
      let split =
        ap (λ l. s.taken ++ l) (sym (take-append-drop eaten.0 (items s.ring)))
        ∙ sym (append_assoc s.taken front behind) in
      (
        u,
        turns,
        free,
        answer ∙ ap (λ x. some (eaten.0, x, eaten.1)) (sym ring),
        append_cancel_right u.taken (s.taken ++ front) behind (kept ∙ split),
        producer,
        pushed,
      )
