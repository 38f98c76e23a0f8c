-- ===== src/LogRing/Interleaving.antt =====
-- src/core/log_ring.c: a thread that pushes and the flusher that drains its ring, interleaved at
-- their accesses of the ring. Only the producer writes `head` and only the consumer writes `tail`,
-- so what a thread has loaded of its own index stays true. An access takes effect at once, as the
-- acquire and release order of the two indices ensures for the entries.
use Prim.Native.Nat.{bit_and}
use retrace.Prelude.{
  Bool, true, false, ℕ, ◌+◌, ◌%◌, ◌^◌, ◌≡◌, ◌≢◌, List, [], ◌∷◌, ◌++◌, get_or, set,
}
use retrace.LogRing.{LogEntry, LogRing, no_entry, without_text}
pub mod Inv
pub mod Producing
pub mod Consuming
pub mod Fifo
pub mod Progress
pub mod Alone

-- Where `retrace_log_ring_push` stands, with the entry that it pushes.
pub data Producer : Type 0 where
  ready : Producer
  found_room : LogEntry → Producer
  stored : LogEntry → Producer

-- Where `retrace_log_ring_drain` stands, with its locals `t`, `h` and `count`: between two calls, at
-- the test of the loop, or behind a callback that answered 0.
pub data Consumer : Type 0 where
  waiting : Consumer
  testing : ℕ → ℕ → ℕ → Consumer
  took : ℕ → ℕ → ℕ → Consumer

-- `pushed` lists the entries whose push returned 0, `taken` those that the callback accepted.
pub record System : Type 0 where
  pub ring : LogRing
  pub producer : Producer
  pub consumer : Consumer
  pub pushed : List LogEntry
  pub taken : List LogEntry

abbrev pub next_index : LogRing → ℕ → ℕ
next_index r i = bit_and (i + 1) r.mask

-- One step of either thread. Which entry is pushed and what the callback answers are left open.
pub data Step (s : System) : System → Type 0 where
  drop_full :
      s.producer ≡ ready
      → next_index s.ring s.ring.head ≡ s.ring.tail
      → Step s (record s { ring = record s.ring { dropped = (s.ring.dropped + 1) % 2 ^ 32 } })
  find_room :
      (e : LogEntry)
      → s.producer ≡ ready
      → next_index s.ring s.ring.head ≢ s.ring.tail
      → Step s (record s { producer = found_room e })
  store_entry :
      (e : LogEntry)
      → s.producer ≡ found_room e
      → Step s (record s {
        ring = record s.ring { entries = set s.ring.entries s.ring.head e };
        producer = stored e;
      })
  store_head :
      (e : LogEntry)
      → s.producer ≡ stored e
      → Step s (record s {
        ring = record s.ring { head = next_index s.ring s.ring.head };
        producer = ready;
        pushed = s.pushed ++ e ∷ [];
      })
  load_indices :
      s.consumer ≡ waiting → Step s (record s { consumer = testing s.ring.tail s.ring.head 0 })
  accept :
      (t h n : ℕ)
      → s.consumer ≡ testing t h n
      → t ≢ h
      → Step s (record s {
        consumer = took t h n;
        taken = s.taken ++ get_or s.ring.entries t no_entry ∷ [];
      })
  free_text :
      (t h n : ℕ)
      → s.consumer ≡ took t h n
      → Step s (record s {
        ring = record s.ring {
          entries = set s.ring.entries t (without_text (get_or s.ring.entries t no_entry));
        };
        consumer = testing (next_index s.ring t) h (n + 1);
      })
  -- The loop has reached `h`, or the callback has stopped it.
  store_tail :
      (t h n : ℕ)
      → s.consumer ≡ testing t h n
      → Step s (record s { ring = record s.ring { tail = t }; consumer = waiting })

-- A ring as `ring_alloc` makes it, with no thread on it.
abbrev pub init : LogRing → System
init r = record { ring = r; producer = ready; consumer = waiting; pushed = []; taken = [] }

pub data Reach (r : LogRing) : System → Type 0 where
  here : Reach r (init r)
  later : {s t : System} → Reach r s → Step s t → Reach r t

-- Whether it is `retrace_log_ring_drain` that takes the step.
abbrev of_consumer : {s t : System} → Step s t → Bool
of_consumer (drop_full p q) = false
of_consumer (find_room e p q) = false
of_consumer (store_entry e p) = false
of_consumer (store_head e p) = false
of_consumer (load_indices p) = true
of_consumer (accept t h n p q) = true
of_consumer (free_text t h n p) = true
of_consumer (store_tail t h n p) = true

-- Steps of one thread alone, the consumer's or else the producer's.
pub data Turns (who : Bool) (s : System) : System → Type 0 where
  rest : Turns who s s
  turn : {t u : System} → Turns who s t → (st : Step t u) → of_consumer st ≡ who → Turns who s u
