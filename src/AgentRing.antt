-- ===== src/AgentRing.antt =====
-- src/supervisor/agent_ring.c: the agent's bounded queue of outgoing items. A heap block is its
-- address with its bytes; a push or pop returns the blocks that it freed beside the new ring.
-- `malloc` is the environment's: a call that may allocate is given what it would return.
use retrace.Prelude.{
  ℕ, ◌+◌, ◌-◌, ◌%◌, ◌^◌, Option, none, some, List, [], ◌∷◌, ◌++◌, ltb, leb, ◌==◌, if◌then◌else◌,
  get_or, set, take, replicate,
}
use retrace.Prelude.Int.{ℤ, pos, negsuc}
use retrace.Prelude.Store.{write_at}
pub mod Valid
pub mod Fifo
pub mod Blocks
mod Tests

abbrev pub ring_cap : ℕ
ring_cap = 256

abbrev pub ring_inline : ℕ
ring_inline = 768

-- What `malloc` or a caller hands over, and `free` takes back.
pub record Block : Type 0 where
  pub addr : ℕ
  pub bytes : List ℕ

-- `struct agent_ring_slot`; no heap pointer is `none`.
pub record Slot : Type 0 where
  pub heap : Option Block
  pub len : ℕ
  pub buf : List ℕ

pub record AgentRing : Type 0 where
  pub slots : List Slot
  pub head : ℕ
  pub count : ℕ
  pub dropped : ℕ

abbrev pub zero_slot : Slot
zero_slot = record { heap = none; len = 0; buf = replicate ring_inline 0 }

unfoldable pub init : AgentRing
init = record { slots = replicate ring_cap zero_slot; head = 0; count = 0; dropped = 0 }

-- `free(p)`: NULL frees nothing.
abbrev pub free : Option Block → List Block
free none = []
free (some b) = b ∷ []

-- A status, the new ring and the freed blocks.
abbrev pub Outcome : Type 0
Outcome = ℤ × AgentRing × List Block

-- `ring->dropped++` on a `uint64_t`
abbrev pub drop_one : AgentRing → AgentRing
drop_one r = record r { dropped = (r.dropped + 1) % 2 ^ 64 }

-- the slot that a push fills
abbrev pub tail : AgentRing → ℕ
tail r = (r.head + r.count) % ring_cap

abbrev pub fill : AgentRing → Slot → AgentRing
fill r slot = record r { slots = set r.slots (tail r) slot; count = r.count + 1 }

abbrev pub slot_at : AgentRing → ℕ → Slot
slot_at r i = get_or r.slots i zero_slot

-- `malloc(len + 1)` and the copy of the item with its terminating zero. A failed allocation has
-- already reset `slot->heap`.
unfoldable pub push_oversize : AgentRing → Option ℕ → List ℕ → ℕ → Outcome
push_oversize r none item len = (
  negsuc 0,
  drop_one
      (record r { slots = set r.slots (tail r) (record (slot_at r (tail r)) { heap = none }) }),
  [],
)
push_oversize r (some addr) item len = (
  pos 0,
  fill r (record {
    heap = some (record { addr = addr; bytes = take len item ++ 0 ∷ [] });
    len = len;
    buf = (slot_at r (tail r)).buf;
  }),
  [],
)

unfoldable pub push_inline : AgentRing → List ℕ → ℕ → Outcome
push_inline r item len = (
  pos 0,
  fill r (record {
    heap = none;
    len = len;
    buf = set (write_at (slot_at r (tail r)).buf 0 (take len item)) len 0;
  }),
  [],
)

unfoldable pub push_block : AgentRing → Block → ℕ → Outcome
push_block r b len =
    (pos 0, fill r (record { heap = some b; len = len; buf = (slot_at r (tail r)).buf }), [])

-- `ring_push`, its three ways to store an item apart
unfoldable pub ring_push : AgentRing → Option Block → Option ℕ → List ℕ → ℕ → Outcome
ring_push r heap_item malloc item len =
    if leb ring_cap r.count then (negsuc 0, drop_one r, free heap_item) else elim heap_item [
      | some b ↦ push_block r b len
      | none ↦
          if ltb (ring_inline - 1) len
          then push_oversize r malloc item len
          else push_inline r item len
    ]

unfoldable pub push_copy : AgentRing → Option ℕ → List ℕ → ℕ → Outcome
unfolding ring_push
push_copy r malloc item len = ring_push r none malloc item len

-- The heap item's own bytes are the item; nothing is allocated.
unfoldable pub push_heap : AgentRing → Block → ℕ → Outcome
unfolding ring_push
push_heap r heap_item len = ring_push r (some heap_item) none heap_item.bytes len

abbrev pub slot_bytes : Option Block → List ℕ → List ℕ
slot_bytes none buf = buf
slot_bytes (some b) buf = b.bytes

-- The bytes behind the returned pointer, and what goes to `*len_out`.
unfoldable pub peek : AgentRing → Option (List ℕ × ℕ)
peek r =
    if r.count == 0
    then none
    else some (slot_bytes (slot_at r r.head).heap (slot_at r r.head).buf, (slot_at r r.head).len)

unfoldable pub pop : AgentRing → AgentRing × List Block
pop r = if r.count == 0 then (r, []) else (
  record r {
    slots = set r.slots r.head (record (slot_at r r.head) { heap = none });
    head = (r.head + 1) % ring_cap;
    count = r.count - 1;
  },
  free (slot_at r r.head).heap,
)
