-- ===== src/LogRing/Interleaving/Inv.antt =====
-- src/core/log_ring.c: the invariant of the interleaving of a push with a drain.
use retrace.Prelude.{ℕ, ◌+◌, ◌≤◌, ◌<◌, ◌≡◌, ◌≢◌, ◌∙◌, List, ◌++◌, arith, get_or, set, get_or-set_ne}
use retrace.Prelude.Cyclic.{window}
use retrace.LogRing.{LogEntry, LogRing, no_entry}
use retrace.LogRing.Items.{IsValid, next_cell}
use retrace.LogRing.Cycle.{dist, next, dist-next_right}
use retrace.LogRing.Interleaving.{
  Producer, ready, found_room, stored, Consumer, waiting, testing, took, System, next_index,
}

abbrev pub cells : LogRing → ℕ
cells r = r.mask + 1

-- The index of the oldest entry that is not taken, on `c` cells with the ring's `tail`.
abbrev pub place : ℕ → ℕ → Consumer → ℕ
place c tail waiting = tail
place c tail (testing t h n) = t
place c tail (took t h n) = next c t

-- What the consumer has loaded lies between its place and the ring's `head`.
abbrev pub Loaded : ℕ → ℕ → ℕ → Consumer → Type 0
Loaded c head tail waiting = Unit {0}
Loaded c head tail (testing t h n) = (h < c) × (dist c t h + dist c h head ≡ dist c t head)
Loaded c head tail (took t h n) =
    (t < c)
    × (h < c)
    × (dist c (next c t) h + dist c h head ≡ dist c (next c t) head)
    × (dist c tail t + 1 ≡ dist c tail (next c t))

-- A producer that has found room still has it, and its entry stays where it wrote it.
abbrev pub Granted : ℕ → ℕ → ℕ → List LogEntry → Producer → Type 0
Granted c head tail entries ready = Unit {0}
Granted c head tail entries (found_room e) = dist c tail head + 1 < c
Granted c head tail entries (stored e) =
    (dist c tail head + 1 < c) × (get_or entries head no_entry ≡ e)

abbrev pub here_of : System → ℕ
here_of s = place (cells s.ring) s.ring.tail s.consumer

-- The entries between the consumer's place and `head`.
abbrev pub queued : System → List LogEntry
queued s =
    window no_entry (cells s.ring) s.ring.entries (here_of s)
      (dist (cells s.ring) (here_of s) s.ring.head)

pub record Inv (k : ℕ) (s : System) : Type 0 where
  pub valid : IsValid k s.ring
  pub place_in : here_of s < cells s.ring
  pub between :
      dist (cells s.ring) s.ring.tail (here_of s) + dist (cells s.ring) (here_of s) s.ring.head
      ≡ dist (cells s.ring) s.ring.tail s.ring.head
  pub loaded : Loaded (cells s.ring) s.ring.head s.ring.tail s.consumer
  pub granted : Granted (cells s.ring) s.ring.head s.ring.tail s.ring.entries s.producer
  pub queue : s.pushed ≡ s.taken ++ queued s

pub Loaded-head :
    (c head tail : ℕ) (consumer : Consumer)
    → head < c
    → place c tail consumer < c
    → dist c (place c tail consumer) head + 1 < c
    → Loaded c head tail consumer
    → Loaded c (next c head) tail consumer
Loaded-head c head tail waiting p q room l = tt
Loaded-head c head tail (testing t h n) p q room l =
    let old = dist-next_right c t head q p room in
    let new = dist-next_right c h head l.0 p (omega (arith, room, l.1)) in
    (l.0, omega (arith, old, new, l.1))
Loaded-head c head tail (took t h n) p q room l =
    let old = dist-next_right c (next c t) head q p room in
    let new = dist-next_right c h head l.1 p (omega (arith, room, l.2)) in
    (l.0, l.1, omega (arith, old, new, l.2), l.3)

pub Granted-set :
    (c head tail t : ℕ) (x : LogEntry) (entries : List LogEntry) (producer : Producer)
    → t ≢ head
    → Granted c head tail entries producer
    → Granted c head tail (set entries t x) producer
Granted-set c head tail t x entries ready n g = tt
Granted-set c head tail t x entries (found_room e) n g = g
Granted-set c head tail t x entries (stored e) n g =
    (g.0, get_or-set_ne entries t head x no_entry n ∙ g.1)

pub Granted-tail :
    (c head tail t : ℕ) (entries : List LogEntry) (producer : Producer)
    → dist c t head ≤ dist c tail head
    → Granted c head tail entries producer
    → Granted c head t entries producer
Granted-tail c head tail t entries ready le g = tt
Granted-tail c head tail t entries (found_room e) le g = omega (arith, le, g)
Granted-tail c head tail t entries (stored e) le g = (omega (arith, le, g.0), g.1)

module _ (k : ℕ) (s : System) (v : Inv k s) where
  open s use {ring, producer, consumer}

  pub head_in : ring.head < cells ring
  head_in = omega (arith, v.valid.head_in)

  pub tail_in : ring.tail < cells ring
  tail_in = omega (arith, v.valid.tail_in)

  pub next_is : (i : ℕ) → next_index ring i ≡ next (cells ring) i
  next_is i = next_cell k ring.mask i v.valid.cap
