-- ===== src/LogRing/Tests.antt =====
-- A ring of four entries.
use retrace.Prelude.{
  ℕ, ◌+◌, ◌<◌, ◌≡◌, refl, Bool, true, false, some, List, [], ◌∷◌, ◌++◌, arith, codes,
}
use retrace.LogRing.{LogEntry, LogRing, no_entry, ring_alloc, drain}
use retrace.LogRing.Items.{items, IsValid}
use retrace.LogRing.Draining.{drain_lem}
use retrace.LogRing.Threads.{
  Grants, ring_get, holds, Event, get, thread_exit, no_rings, history, happens, with_key,
  ring_get-registry,
}
use retrace.LogRing.Interleaving.Alone.{drain-Turns}
use retrace.LogRing.Interleaving.{
  waiting, ready, System, Turns, Reach, here, later, find_room, store_entry, store_head,
  load_indices, accept,
}
use retrace.LogRing.Interleaving.Inv.{queued}
use retrace.LogRing.Interleaving.Fifo.{Reach-fifo}
use retrace.LogRing.Interleaving.Progress.{Reach-drained}

abbrev line : LogEntry
line = record { ts_ms = 5; module_id = 1; sev = 2; text = some (codes "hi") }

-- Two entries, across the end of the array.
abbrev four : LogRing
four = record {
  mask = 3;
  dropped = 0;
  head = 1;
  tail = 3;
  entries = line ∷ no_entry ∷ no_entry ∷ line ∷ [];
}

four-IsValid : IsValid 2 four
four-IsValid = record { cap = refl; size = refl; head_in = omega arith; tail_in = omega arith }

-- A consumer that counts the entries and never stops.
abbrev tally : LogEntry → ℕ → Bool × ℕ
tally e n = (true, n + 1)

drain_lem_example :
    (r' : LogRing) × (drain tally four 0 ≡ some (2, r', 2)) × IsValid 2 r' × (items r' ≡ [])
drain_lem_example = drain_lem tally 2 four 0 four-IsValid

abbrev fresh : LogRing
fresh = record {
  mask = 3;
  dropped = 0;
  head = 0;
  tail = 0;
  entries = no_entry ∷ no_entry ∷ no_entry ∷ no_entry ∷ [];
}

fresh-IsValid : IsValid 2 fresh
fresh-IsValid = record { cap = refl; size = refl; head_in = omega arith; tail_in = omega arith }

-- One entry is pushed.
abbrev one_pushed : (s : System) × Reach fresh s
one_pushed = (
  _,
  later (later (later here (find_room line refl (omega arith))) (store_entry line refl))
      (store_head line refl),
)

drain-Turns_example :
    (u : System) × Turns true one_pushed.0 u
    × (u.consumer ≡ waiting)
    × (drain tally one_pushed.0.ring 0 ≡ some (1, u.ring, 1))
    × (u.taken ≡ line ∷ [])
    × (u.producer ≡ ready)
    × (u.pushed ≡ line ∷ [])
drain-Turns_example = drain-Turns tally 2 fresh one_pushed.0 0 fresh-IsValid refl one_pushed.1 refl

-- One entry is pushed, and the flusher has begun a drain and accepted it.
abbrev one_taken : (s : System) × Reach fresh s
one_taken = (
  _,
  later
      (later
        (later (later (later here (find_room line refl (omega arith))) (store_entry line refl))
          (store_head line refl))
        (load_indices refl))
      (accept 0 1 0 refl (omega arith)),
)

Reach-fifo_example : (one_taken.0.pushed ≡ one_taken.0.taken ++ queued one_taken.0) × (1 < 1 + 4)
Reach-fifo_example = Reach-fifo 2 fresh one_taken.0 fresh-IsValid refl one_taken.1

Reach-drained_example :
    (u : System) × Turns true one_taken.0 u
    × (u.taken ≡ line ∷ [])
    × (u.pushed ≡ line ∷ [])
    × (u.producer ≡ ready)
Reach-drained_example = Reach-drained 2 fresh one_taken.0 fresh-IsValid refl one_taken.1

-- The first thread has got a ring and exited; a second has none yet, and there is no memory for a
-- node of the registry.
abbrev granted : Grants
granted = record {
  shell = true;
  entries = some (no_entry ∷ no_entry ∷ []);
  node = true;
  set_key = true;
}

abbrev no_node : Grants
no_node = record granted { node = false }

abbrev one_exit : List Event
one_exit = get 2 granted ∷ thread_exit ∷ []

ring_get-registry_example :
    let s' = (ring_get 2 no_node (history one_exit no_rings)).1 in
    (s'.nodes ≡ s'.live) × (holds 1 s'.live ≡ false) × (ring_get 2 no_node s' ≡ (some 1, s'))
unfolding history happens ring_get with_key ring_alloc
ring_get-registry_example = ring_get-registry one_exit 2 2 no_node no_node 1 refl refl
