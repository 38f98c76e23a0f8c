-- ===== src/AgentRing/Valid.antt =====
-- The invariant of `struct agent_ring`.
use retrace.Prelude.{
  ℕ, ◌-◌, ◌≤◌, ◌<◌, ◌≡◌, refl, ◌∙◌, Option, none, some, List, arith, length, length-set,
  length-replicate, All, All-set, All-get_or, All-replicate, take, Bool-cases, inl, inr, ◌==◌, leb,
  ltb,
}
use retrace.Prelude.Int.{negsuc}
use retrace.Prelude.Store.{write_at, length-write_at}
use retrace.AgentRing.{
  ring_cap, ring_inline, Block, Slot, AgentRing, zero_slot, init, tail, fill, slot_at, ring_push,
  pop, free, drop_one, Outcome, push_inline, push_oversize, push_block,
}

abbrev pub HasBuffer : Slot → Type 0
HasBuffer s = length s.buf ≡ ring_inline

pub record IsValid (r : AgentRing) : Type 0 where
  pub size : length r.slots ≡ ring_cap
  pub head_in : r.head < ring_cap
  pub count_in : r.count ≤ ring_cap
  pub buffers : All HasBuffer r.slots

zero_slot-HasBuffer : HasBuffer zero_slot
zero_slot-HasBuffer = length-replicate {A = ℕ} ring_inline 0

-- `agent_ring_init` gives a valid ring.
pub init-IsValid : IsValid init
unfolding init
init-IsValid = record {
  size = length-replicate ring_cap zero_slot;
  head_in = omega arith;
  count_in = omega arith;
  buffers = All-replicate HasBuffer ring_cap zero_slot zero_slot-HasBuffer;
}

pub slot_at-HasBuffer : {r : AgentRing} → IsValid r → (i : ℕ) → HasBuffer (slot_at r i)
slot_at-HasBuffer {r} v i = All-get_or HasBuffer r.slots i zero_slot v.buffers zero_slot-HasBuffer

pub fill-IsValid :
    {r : AgentRing} (s : Slot) → IsValid r → r.count < ring_cap → HasBuffer s → IsValid (fill r s)
fill-IsValid {r} s v h b = record {
  size = length-set r.slots (tail r) s ∙ v.size;
  head_in = v.head_in;
  count_in = omega arith;
  buffers = All-set HasBuffer r.slots (tail r) s v.buffers b;
}

-- The four ways through `ring_push`.
module _ (r : AgentRing) (m : Option ℕ) (item : List ℕ) (len : ℕ) (P : Outcome → Type 0) where
  pub ring_push_cases :
      (b : Option Block)
      → (ring_cap ≤ r.count → P (negsuc 0, drop_one r, free b))
      → ((x : Block) → b ≡ some x → r.count < ring_cap → P (push_block r x len))
      → (r.count < ring_cap → ring_inline ≤ len → P (push_oversize r m item len))
      → (r.count < ring_cap → len < ring_inline → P (push_inline r item len))
      → P (ring_push r b m item len)
  unfolding ring_push
  ring_push_cases (some x) full block big small = elim (Bool-cases (leb ring_cap r.count)) [
    | inl e ↦ rw e (full (ground arith))
    | inr e ↦ rw e (block x refl (ground arith))
  ]
  ring_push_cases none full block big small = elim (Bool-cases (leb ring_cap r.count)) [
    | inl e ↦ rw e (full (ground arith))
    | inr e ↦ elim (Bool-cases (ltb (ring_inline - 1) len)) [
      | inl f ↦ rw (e, f) (big (ground arith) (ground arith))
      | inr f ↦ rw (e, f) (small (ground arith) (ground arith))
    ]
  ]

module _ {r : AgentRing} (v : IsValid r) where
  push_block-IsValid : (b : Block) (len : ℕ) → r.count < ring_cap → IsValid (push_block r b len).1
  unfolding push_block
  push_block-IsValid b len h = fill-IsValid _ v h (slot_at-HasBuffer v (tail r))

  push_inline-IsValid :
      (item : List ℕ) (len : ℕ) → r.count < ring_cap → IsValid (push_inline r item len).1
  unfolding push_inline
  push_inline-IsValid item len h = fill-IsValid _ v h (
      length-set (write_at (slot_at r (tail r)).buf 0 (take len item)) len 0
      ∙ length-write_at (slot_at r (tail r)).buf 0 (take len item)
      ∙ slot_at-HasBuffer v (tail r))

  push_oversize-IsValid :
      (m : Option ℕ) (item : List ℕ) (len : ℕ)
      → r.count < ring_cap
      → IsValid (push_oversize r m item len).1
  unfolding push_oversize
  push_oversize-IsValid none item len h = record {
    size = length-set r.slots (tail r) _ ∙ v.size;
    head_in = v.head_in;
    count_in = v.count_in;
    buffers = All-set HasBuffer r.slots (tail r) _ v.buffers (slot_at-HasBuffer v (tail r));
  }
  push_oversize-IsValid (some a) item len h = fill-IsValid _ v h (slot_at-HasBuffer v (tail r))

  drop_one-IsValid : IsValid (drop_one r)
  drop_one-IsValid = record {
    size = v.size;
    head_in = v.head_in;
    count_in = v.count_in;
    buffers = v.buffers;
  }

  -- A push keeps the invariant, whatever it stores, drops or fails to allocate.
  pub ring_push-IsValid :
      (b : Option Block) (m : Option ℕ) (item : List ℕ) (len : ℕ)
      → IsValid (ring_push r b m item len).1
  ring_push-IsValid b m item len =
      ring_push_cases r m item len (λ o. IsValid o.1) b (λ full. drop_one-IsValid)
        (λ x e h. push_block-IsValid x len h) (λ h big. push_oversize-IsValid m item len h)
        (λ h small. push_inline-IsValid item len h)

  -- `agent_ring_pop` keeps the invariant.
  pub pop-IsValid : IsValid (pop r).0
  unfolding pop
  pop-IsValid = elim (Bool-cases (r.count == 0)) [
    | inl e ↦ rw e v
    | inr e ↦ rw e (record {
      size = length-set r.slots r.head _ ∙ v.size;
      head_in = omega arith;
      count_in = omega arith;
      buffers = All-set HasBuffer r.slots r.head _ v.buffers (slot_at-HasBuffer v r.head);
    })
  ]
