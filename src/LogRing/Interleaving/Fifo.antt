-- ===== src/LogRing/Interleaving/Fifo.antt =====
-- src/core/log_ring.c: what the flusher has taken of what a thread has pushed, in every interleaving.
use retrace.Prelude.{Bool, ℕ, ◌+◌, ◌<◌, ◌≡◌, sym, ap, ◌∙◌, ◌++◌, arith, length, length-append}
use retrace.Prelude.Cyclic.{window, length-window}
use retrace.LogRing.{LogRing, no_entry}
use retrace.LogRing.Items.{IsValid}
use retrace.LogRing.Cycle.{dist, dist-lt, dist_self}
use retrace.LogRing.Interleaving.{
  System, Step, drop_full, find_room, store_entry, store_head, load_indices, accept, free_text,
  store_tail, init, Reach, here, later, Turns, rest, turn,
}
use retrace.LogRing.Interleaving.Inv.{cells, queued, here_of, Inv}
use retrace.LogRing.Interleaving.Producing.{
  drop_full-Inv, find_room-Inv, store_entry-Inv, store_head-Inv,
}
use retrace.LogRing.Interleaving.Consuming.{
  load_indices-Inv, accept-Inv, free_text-Inv, store_tail-Inv,
}

init-Inv : (k : ℕ) (r : LogRing) → IsValid k r → r.head ≡ r.tail → Inv k (init r)
init-Inv k r v e =
    let tail_in : r.tail < cells r = omega (arith, v.tail_in) in
    let self = dist_self (cells r) r.tail tail_in in
    let empty : dist (cells r) r.tail r.head ≡ 0 = ap (dist (cells r) r.tail) e ∙ self in
    record {
      valid = v;
      place_in = tail_in;
      between = omega (arith, self);
      loaded = tt;
      granted = tt;
      queue = ap (window no_entry (cells r) r.entries r.tail) (sym empty);
    }

Step-Inv : (k : ℕ) {s t : System} → Step s t → Inv k s → Inv k t
Step-Inv k {s} (drop_full p q) v = drop_full-Inv k s v _
Step-Inv k {s} (find_room e p q) v = find_room-Inv k s v e q
Step-Inv k {s} (store_entry e p) v = store_entry-Inv k s v e p
Step-Inv k {s} (store_head e p) v = store_head-Inv k s v e p
Step-Inv k {s} (load_indices p) v = load_indices-Inv k s v p
Step-Inv k {s} (accept t h n p q) v = accept-Inv k s v t h n p q
Step-Inv k {s} (free_text t h n p) v = free_text-Inv k s v t h n _ p
Step-Inv k {s} (store_tail t h n p) v = store_tail-Inv k s v t h n p

pub Reach-Inv :
    (k : ℕ) (r : LogRing) {s : System} → IsValid k r → r.head ≡ r.tail → Reach r s → Inv k s
Reach-Inv k r v e here = init-Inv k r v e
Reach-Inv k r v e (later reach st) = Step-Inv k st (Reach-Inv k r v e reach)

pub Reach-turns : (r : LogRing) {who : Bool} {s t : System} → Reach r s → Turns who s t → Reach r t
Reach-turns r reach rest = reach
Reach-turns r reach (turn turns st own) = later (Reach-turns r reach turns) st

pub Turns-append : {who : Bool} {s t u : System} → Turns who s t → Turns who t u → Turns who s u
Turns-append a rest = a
Turns-append a (turn b st own) = turn (Turns-append a b) st own

-- From a valid and empty ring, however the steps of the two threads interleave: the entries whose
-- push returned 0 are, in their order, those that the callback has accepted and then those that the
-- ring still holds, of which there are fewer than the ring has cells.
pub Reach-fifo :
    (k : ℕ) (r : LogRing) (s : System)
    → IsValid k r
    → r.head ≡ r.tail
    → Reach r s
    → (s.pushed ≡ s.taken ++ queued s) × (length s.pushed < length s.taken + cells s.ring)
Reach-fifo k r s v e reach =
    let inv = Reach-Inv k r v e reach in
    let head_in : s.ring.head < cells s.ring = omega (arith, inv.valid.head_in) in
    let size =
      ap length inv.queue
      ∙ length-append s.taken (queued s)
      ∙ ap (λ n. length s.taken + n)
          (length-window no_entry (cells s.ring) s.ring.entries (here_of s)
            (dist (cells s.ring) (here_of s) s.ring.head)) in
    (
      inv.queue,
      omega (arith, size, dist-lt (cells s.ring) (here_of s) s.ring.head inv.place_in head_in),
    )
