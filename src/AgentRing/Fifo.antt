-- ===== src/AgentRing/Fifo.antt =====
-- The ring is a bounded FIFO of byte strings: what is pushed is what is peeked and popped, in order.
use mathlib.Core.List.{map-append}
use retrace.Prelude.{
  ℕ, suc, ◌+◌, ◌-◌, ◌≤◌, ◌<◌, ◌≡◌, ◌≢◌, refl, sym, ap, ◌∙◌, Option, none, some, List, [], ◌∷◌, ◌++◌,
  arith, length, length-set, get_or, set, take, length-take, get_or-set_ne, take_ext,
  take-append_self, Bool-cases, inl, inr, ◌==◌, leb, ◌%◌, ◌^◌, map, ◌⊎◌,
}
use retrace.Prelude.Int.{pos, negsuc}
use retrace.Prelude.Store.{write_at, length-write_at, get_or-write_at}
use retrace.Prelude.Cyclic.{window, window-set_next, window-set_outside, window_cons, around-lt}
use retrace.AgentRing.{
  ring_cap, ring_inline, Block, Slot, AgentRing, Outcome, zero_slot, tail, fill, slot_at,
  slot_bytes, ring_push, push_copy, push_heap, peek, pop, push_inline, push_oversize, push_block,
}
use retrace.AgentRing.Valid.{IsValid, ring_push_cases, slot_at-HasBuffer}

-- The bytes that a slot holds for its reader.
abbrev pub content : Slot → List ℕ
content s = take s.len (slot_bytes s.heap s.buf)

abbrev pub live : AgentRing → List Slot
live r = window zero_slot ring_cap r.slots r.head r.count

-- The queued items, oldest first.
unfoldable pub items : AgentRing → List (List ℕ)
items r = map content (live r)

module _ {r : AgentRing} (v : IsValid r) where
  pub live-fill : (s : Slot) → r.count < ring_cap → live (fill r s) ≡ live r ++ s ∷ []
  live-fill s h =
      ap (λ n. window zero_slot ring_cap (set r.slots (tail r) s) r.head n) {x = r.count + 1}
        {y = suc r.count} (omega arith)
      ∙ window-set_next zero_slot ring_cap r.slots s r.count r.head (tail r) (omega (arith, v.size))
          v.head_in h refl

  pub live_unused :
      (s : Slot) → r.count < ring_cap → live (record r { slots = set r.slots (tail r) s }) ≡ live r
  live_unused s h =
      window-set_outside zero_slot ring_cap r.slots s r.count r.head r.count (tail r) v.head_in
        (omega arith) h refl

  items-fill : (s : Slot) → r.count < ring_cap → items (fill r s) ≡ items r ++ content s ∷ []
  unfolding items
  items-fill s h = ap (map content) (live-fill s h) ∙ map-append content (live r) (s ∷ [])

  -- Copying `len` bytes into the inline buffer and reading `len` bytes of it gives them back.
  content-inline :
      (item : List ℕ) (len : ℕ)
      → len ≤ length item
      → len < ring_inline
      → take len (set (write_at (slot_at r (tail r)).buf 0 (take len item)) len 0) ≡ take len item
  content-inline item len h small =
      let src = take len item in
      let buf = (slot_at r (tail r)).buf in
      let room = slot_at-HasBuffer v (tail r) in
      take_ext len (set (write_at buf 0 src) len 0) src 0
        (omega (arith, length-set (write_at buf 0 src) len 0, length-write_at buf 0 src))
        (omega (arith, length-take len item))
        (λ j p.
          get_or-set_ne (write_at buf 0 src) len j 0 0 (omega arith)
          ∙ ap (λ k. get_or (write_at buf 0 src) k 0) {x = j} {y = 0 + j} (omega arith)
          ∙ get_or-write_at buf 0 src j 0 (omega (arith, length-take len item))
              (omega (arith, length-take len item)))

content-heap :
    (item : List ℕ) (len : ℕ)
    → len ≤ length item
    → take len (take len item ++ 0 ∷ []) ≡ take len item
content-heap item len h =
    ap (λ n. take n (take len item ++ 0 ∷ [])) {x = len} {y = length (take len item)}
      (omega (arith, length-take len item))
    ∙ take-append_self (take len item) (0 ∷ [])

-- What a push of `x` may do to the items: it appends `x`, or it refuses `x` and counts the drop.
-- A refusal has a reason: the ring is full, or an oversize item found no memory.
pub data Pushed (r : AgentRing) (x : List ℕ) (no_memory : Type 0) (o : Outcome) : Type 0 where
  queued :
      r.count < ring_cap
      → o.0 ≡ pos 0
      → items o.1 ≡ items r ++ x ∷ []
      → o.1.dropped ≡ r.dropped
      → Pushed r x no_memory o
  refused :
      (ring_cap ≤ r.count) ⊎ no_memory
      → o.0 ≡ negsuc 0
      → items o.1 ≡ items r
      → o.1.dropped ≡ (r.dropped + 1) % 2 ^ 64
      → Pushed r x no_memory o

abbrev pub NoMemory : Option ℕ → ℕ → Type 0
NoMemory m len = (m ≡ none) × (ring_inline ≤ len)

module _ {r : AgentRing} (v : IsValid r) where
  push_oversize-Pushed :
      (m : Option ℕ) (item : List ℕ) (len : ℕ)
      → len ≤ length item
      → r.count < ring_cap
      → ring_inline ≤ len
      → Pushed r (take len item) (NoMemory m len) (push_oversize r m item len)
  unfolding push_oversize items
  push_oversize-Pushed none item len h room big =
      refused (inr (refl, big)) refl (ap (map content) (live_unused v _ room)) refl
  push_oversize-Pushed (some a) item len h room big =
      queued room refl (items-fill v _ room ∙ ap (λ x. items r ++ x ∷ []) (content-heap item len h))
        refl

  push_inline-Pushed :
      (m : Option ℕ) (item : List ℕ) (len : ℕ)
      → len ≤ length item
      → r.count < ring_cap
      → len < ring_inline
      → Pushed r (take len item) (NoMemory m len) (push_inline r item len)
  unfolding push_inline
  push_inline-Pushed m item len h room small =
      queued room refl
        (items-fill v _ room ∙ ap (λ x. items r ++ x ∷ []) (content-inline v item len h small)) refl

  -- `agent_ring_push_copy` appends a copy of the `len` bytes, or refuses them, leaves the items as
  -- they are and counts the drop. It refuses only where the ring is full, or where the item does not
  -- fit the inline buffer and `malloc` fails.
  pub push_copy-Pushed :
      (m : Option ℕ) (item : List ℕ) (len : ℕ)
      → len ≤ length item
      → Pushed r (take len item) (NoMemory m len) (push_copy r m item len)
  unfolding push_copy items
  push_copy-Pushed m item len h =
      ring_push_cases r m item len (Pushed r (take len item) (NoMemory m len)) none
        (λ full. refused (inl full) refl refl refl) (λ x e room. cc)
        (push_oversize-Pushed m item len h) (push_inline-Pushed m item len h)

  -- `agent_ring_push_heap` appends the `len` bytes of the block, or refuses them where the ring is
  -- full, and only there.
  push_heap-Pushed : (b : Block) (len : ℕ) → Pushed r (take len b.bytes) ⊥ (push_heap r b len)
  unfolding push_heap ring_push items push_block
  push_heap-Pushed b len = elim (Bool-cases (leb ring_cap r.count)) [
    | inl e ↦ rw e (refused (inl (ground arith)) refl refl refl)
    | inr e ↦ rw e (queued (ground arith) refl (items-fill v _ (ground arith)) refl)
  ]

  pub live-pop :
      r.count ≢ 0
      → (s : Slot)
      → window zero_slot ring_cap (set r.slots r.head s) ((r.head + 1) % ring_cap) (r.count - 1)
        ≡ window zero_slot ring_cap r.slots ((r.head + 1) % ring_cap) (r.count - 1)
  live-pop p s =
      window-set_outside zero_slot ring_cap r.slots s (r.count - 1) ((r.head + 1) % ring_cap) 255
        r.head (around-lt ring_cap r.head 1 v.head_in) (omega arith) (omega arith) (omega arith)

  -- `agent_ring_peek` shows the oldest item, and `agent_ring_pop` removes exactly it; on an empty
  -- ring the one returns NULL and the other does nothing.
  pop-peek :
      ((items r ≡ []) × (peek r ≡ none) × (pop r ≡ (r, [])))
      ⊎ ((shown : List ℕ × ℕ) × (peek r ≡ some shown)
          × (items r ≡ take shown.1 shown.0 ∷ items (pop r).0))
  unfolding peek pop items
  pop-peek = elim (Bool-cases (r.count == 0)) [
    | inl e ↦ inl (ground arith, rw e refl, rw e refl)
    | inr e ↦ inr (
      (slot_bytes (slot_at r r.head).heap (slot_at r r.head).buf, (slot_at r r.head).len),
      rw e refl,
      rw e (
          ap (map content) (
            window_cons zero_slot ring_cap r.slots r.head r.count (ground arith)
            ∙ ap (λ l. slot_at r r.head ∷ l) (sym (live-pop (ground arith) _)))),
    )
  ]
