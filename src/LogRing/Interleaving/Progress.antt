-- ===== src/LogRing/Interleaving/Progress.antt =====
-- src/core/log_ring.c: the flusher by itself takes what is pushed, whatever the producer is in.
use mathlib.Core.List.{append-nil}
use retrace.Prelude.{
  true, ℕ, zero, suc, ◌+◌, ◌<◌, ◌≡◌, ◌≢◌, refl, sym, ap, ◌∙◌, subst, [], ◌∷◌, ◌++◌, arith, get_or,
  set,
}
use retrace.Prelude.Cyclic.{window}
use retrace.LogRing.{LogRing, no_entry, without_text}
use retrace.LogRing.Items.{IsValid, next_cell}
use retrace.LogRing.Cycle.{dist, dist-zero, dist_self, dist-next_left}
use retrace.LogRing.Interleaving.{
  Consumer, waiting, testing, took, System, next_index, load_indices, accept, free_text, store_tail,
  Reach, later, Turns, rest, turn,
}
use retrace.LogRing.Interleaving.Inv.{cells, place, Loaded, queued, here_of}
use retrace.LogRing.Interleaving.Fifo.{Reach-Inv, Turns-append}

module _ (k : ℕ) (r : LogRing) (v : IsValid k r) (e : r.head ≡ r.tail) where
  -- A state that follows from `s` by steps of the consumer.
  record After (s t : System) : Type 0 where
    reach : Reach r t
    turns : Turns true s t
    producer : t.producer ≡ s.producer
    pushed : t.pushed ≡ s.pushed
    head : t.ring.head ≡ s.ring.head

  abbrev Tests : System → ℕ → ℕ → Type 0
  Tests s t h = (n : ℕ) × (s.consumer ≡ testing t h n)

  same : (s : System) → Reach r s → After s s
  same s reach = record { reach = reach; turns = rest; producer = refl; pushed = refl; head = refl }

  then : (s t u : System) → After s t → After t u → After s u
  then s t u a b = record {
    reach = b.reach;
    turns = Turns-append a.turns b.turns;
    producer = b.producer ∙ a.producer;
    pushed = b.pushed ∙ a.pushed;
    head = b.head ∙ a.head;
  }

  bounds :
      (t h n : ℕ) (s : System)
      → Reach r s
      → s.consumer ≡ testing t h n
      → (t < cells s.ring) × (h < cells s.ring)
  bounds t h n s reach p =
      let inv = Reach-Inv k r v e reach in
      let place_in =
        subst (λ c. place (cells s.ring) s.ring.tail c < cells s.ring) p inv.place_in in
      let loaded = subst (Loaded (cells s.ring) s.ring.head s.ring.tail) p inv.loaded in
      (place_in, loaded.0)

  freed : System → ℕ → ℕ → ℕ → System
  freed s t h n = record s {
    ring = record s.ring {
      entries = set s.ring.entries t (without_text (get_or s.ring.entries t no_entry));
    };
    consumer = testing (next_index s.ring t) h (n + 1);
  }

  -- One round of the loop.
  round : System → ℕ → ℕ → ℕ → System
  round s t h n =
      freed (record s { taken = s.taken ++ get_or s.ring.entries t no_entry ∷ [] }) t h n

  round-After :
      (t h n : ℕ) (s : System)
      → Reach r s
      → s.consumer ≡ testing t h n
      → t ≢ h
      → After s (round s t h n)
  unfolding round freed
  round-After t h n s reach p more = record {
    reach = later (later reach (accept t h n p more)) (free_text t h n refl);
    turns = turn (turn rest (accept t h n p more) refl) (free_text t h n refl) refl;
    producer = refl;
    pushed = refl;
    head = refl;
  }

  -- The loop comes to `h`.
  loop_ends :
      (left t h n : ℕ) (s : System)
      → Reach r s
      → s.consumer ≡ testing t h n
      → dist (cells s.ring) t h ≡ left
      → (u : System) × After s u × ((m : ℕ) × (u.consumer ≡ testing h h m))
  unfolding round freed
  loop_ends zero t h n s reach p d =
      let (t_in, h_in) = bounds t h n s reach p in
      let at_end : t ≡ h = dist-zero (cells s.ring) t h t_in h_in d in
      (s, same s reach, (n, p ∙ ap (λ x. testing x h n) at_end))
  loop_ends (suc left) t h n s reach p d =
      let (t_in, h_in) = bounds t h n s reach p in
      let more : t ≢ h = λ q.
        let self = ap (dist (cells s.ring) t) (sym q) ∙ dist_self (cells s.ring) t t_in in
        omega (arith, self, d) in
      let go = round-After t h n s reach p more in
      let inv = Reach-Inv k r v e reach in
      let index = next_cell k s.ring.mask t inv.valid.cap in
      let nearer = dist-next_left (cells s.ring) t h t_in h_in more in
      let (u, after, end) =
        loop_ends left (next_index s.ring t) h (n + 1) (round s t h n) go.reach refl
          (ap (λ i. dist (cells s.ring) i h) index ∙ omega (arith, nearer, d)) in
      (u, then s (round s t h n) u go after, end)

  -- The drain returns.
  returns :
      (t h n : ℕ) (s : System)
      → Reach r s
      → s.consumer ≡ testing t h n
      → (u : System) × After s u × (u.consumer ≡ waiting) × (u.ring.tail ≡ h)
  returns t h n s reach p =
      let (u, after, (m, q)) = loop_ends (dist (cells s.ring) t h) t h n s reach p refl in
      let u' : System = record u { ring = record u.ring { tail = h }; consumer = waiting } in
      let left : After u u' = record {
        reach = later after.reach (store_tail h h m q);
        turns = turn rest (store_tail h h m q) refl;
        producer = refl;
        pushed = refl;
        head = refl;
      } in
      (u', then s u u' after left, refl, refl)

  finishes :
      (s : System) (c : Consumer)
      → s.consumer ≡ c
      → Reach r s
      → (u : System) × After s u × (u.consumer ≡ waiting)
  unfolding freed
  finishes s waiting p reach = (s, same s reach, p)
  finishes s (testing t h n) p reach =
      let (u, after, w, at) = returns t h n s reach p in (u, after, w)
  finishes s (took t h n) p reach =
      let reach' : Reach r (freed s t h n) = later reach (free_text t h n p) in
      let (u, after, w, at) = returns (next_index s.ring t) h (n + 1) (freed s t h n) reach' refl in
      (
        u,
        record {
          reach = after.reach;
          turns = Turns-append (turn rest (free_text t h n p) refl) after.turns;
          producer = after.producer;
          pushed = after.pushed;
          head = after.head;
        },
        w,
      )

  -- A drain that starts takes all that was pushed before.
  takes_all :
      (s : System)
      → s.consumer ≡ waiting
      → Reach r s
      → (u : System) × After s u × (u.taken ≡ s.pushed)
  takes_all s p reach =
      let s' : System = record s { consumer = testing s.ring.tail s.ring.head 0 } in
      let started : After s s' = record {
        reach = later reach (load_indices p);
        turns = turn rest (load_indices p) refl;
        producer = refl;
        pushed = refl;
        head = refl;
      } in
      let (u, after, w, at) = returns s.ring.tail s.ring.head 0 s' started.reach refl in
      let inv = Reach-Inv k r v e after.reach in
      let all_in : u.ring.head < cells u.ring = omega (arith, inv.valid.head_in) in
      let left : here_of u ≡ u.ring.head =
        ap (place (cells u.ring) u.ring.tail) w ∙ at ∙ sym after.head in
      let none_left : queued u ≡ [] =
        ap (window no_entry (cells u.ring) u.ring.entries (here_of u)) (
          ap (λ i. dist (cells u.ring) i u.ring.head) left
          ∙ dist_self (cells u.ring) u.ring.head all_in) in
      (
        u,
        then s s' u started after,
        sym (sym after.pushed ∙ inv.queue ∙ ap (λ q. u.taken ++ q) none_left ∙ append-nil u.taken),
      )

-- From every state that the two threads reach on a valid and empty ring, steps of the consumer alone
-- lead on to a state in which the callback has accepted every entry whose push has returned 0,
-- wherever the producer is in its push.
pub Reach-drained :
    (k : ℕ) (r : LogRing) (s : System)
    → IsValid k r
    → r.head ≡ r.tail
    → Reach r s
    → (u : System) × Turns true s u
      × (u.taken ≡ s.pushed)
      × (u.pushed ≡ s.pushed)
      × (u.producer ≡ s.producer)
Reach-drained k r s v e reach =
    let (t, after, w) = finishes k r v e s s.consumer refl reach in
    let (u, all, taken) = takes_all k r v e t w after.reach in
    (
      u,
      Turns-append after.turns all.turns,
      taken ∙ after.pushed,
      all.pushed ∙ after.pushed,
      all.producer ∙ after.producer,
    )
