-- ===== src/AgentRing/Blocks.antt =====
-- Ownership of the heap blocks: each is in the ring once, or was freed, and none is lost.
use mathlib.Core.List.{append_assoc, append-nil}
use retrace.Prelude.{
  ℕ, ◌≤◌, ◌<◌, ◌≡◌, refl, sym, ap, ◌∙◌, Option, none, some, List, [], ◌∷◌, ◌++◌, arith, take, set,
  Bool-cases, inl, inr, ◌==◌, leb, if◌then◌else◌,
}
use retrace.Prelude.Int.{ℤ, pos, negsuc}
use retrace.Prelude.Cyclic.{window_cons}
use retrace.AgentRing.{
  ring_cap, ring_inline, Block, Slot, AgentRing, zero_slot, fill, free, tail, slot_at, ring_push,
  push_copy, push_heap, pop, push_inline, push_oversize, push_block,
}
use retrace.AgentRing.Valid.{IsValid, ring_push_cases}
use retrace.AgentRing.Fifo.{live, live-fill, live_unused, live-pop}

held : List Slot → List Block
held [] = []
held (s ∷ slots) = free s.heap ++ held slots

held-append : (xs ys : List Slot) → held (xs ++ ys) ≡ held xs ++ held ys
unfolding held
held-append [] ys = refl
held-append (s ∷ xs) ys =
    ap (λ l. free s.heap ++ l) (held-append xs ys)
    ∙ sym (append_assoc (free s.heap) (held xs) (held ys))

-- The blocks that the queued items own, oldest first.
unfoldable pub blocks : AgentRing → List Block
unfolding held
blocks r = held (live r)

-- What a push by copy with status `rc` adds: the block allocated for an oversize item.
abbrev pub allocated : ℤ → Option ℕ → List ℕ → ℕ → List Block
allocated (negsuc _) m item len = []
allocated (pos _) none item len = []
allocated (pos _) (some addr) item len =
    if leb ring_inline len then record { addr = addr; bytes = take len item ++ 0 ∷ [] } ∷ [] else []

module _ {r : AgentRing} (v : IsValid r) where
  blocks-fill : (s : Slot) → r.count < ring_cap → blocks (fill r s) ≡ blocks r ++ free s.heap
  unfolding blocks
  blocks-fill s h =
      ap held (live-fill v s h)
      ∙ held-append (live r) (s ∷ [])
      ∙ ap (λ l. held (live r) ++ l) (append-nil (free s.heap))

  blocks_unused :
      (s : Slot)
      → r.count < ring_cap
      → blocks (record r { slots = set r.slots (tail r) s }) ≡ blocks r
  unfolding blocks
  blocks_unused s h = ap held (live_unused v s h)

  -- A block that is pushed is queued or freed: the blocks of the ring afterwards, with those freed,
  -- are the blocks before with the new one behind them.
  pub blocks-push_heap :
      (b : Block) (len : ℕ) → let o = push_heap r b len in blocks o.1 ++ o.2 ≡ blocks r ++ b ∷ []
  unfolding push_heap ring_push push_block
  blocks-push_heap b len = elim (Bool-cases (leb ring_cap r.count)) [
    | inl e ↦ rw e (unfold blocks in refl)
    | inr e ↦ rw e (append-nil _ ∙ blocks-fill _ (ground arith))
  ]

  push_oversize-blocks :
      (m : Option ℕ) (item : List ℕ) (len : ℕ)
      → r.count < ring_cap
      → ring_inline ≤ len
      → let o = push_oversize r m item len in
        (o.2 ≡ []) × (blocks o.1 ≡ blocks r ++ allocated o.0 m item len)
  unfolding push_oversize blocks
  push_oversize-blocks none item len h big = (refl, blocks_unused _ h ∙ sym (append-nil _))
  push_oversize-blocks (some a) item len h big = (refl, blocks-fill _ h ∙ ground arith)

  push_inline-blocks :
      (m : Option ℕ) (item : List ℕ) (len : ℕ)
      → r.count < ring_cap
      → len < ring_inline
      → let o = push_inline r item len in
        (o.2 ≡ []) × (blocks o.1 ≡ blocks r ++ allocated o.0 m item len)
  unfolding push_inline
  push_inline-blocks none item len h small = (refl, blocks-fill _ h)
  push_inline-blocks (some a) item len h small = (refl, blocks-fill _ h ∙ ground arith)

  -- A push by copy frees nothing, and adds one block: the one allocated for an oversize item that
  -- was queued. It adds none for an inline item or a refused one.
  pub blocks-push_copy :
      (m : Option ℕ) (item : List ℕ) (len : ℕ)
      → let o = push_copy r m item len in
        (o.2 ≡ []) × (blocks o.1 ≡ blocks r ++ allocated o.0 m item len)
  unfolding push_copy blocks
  blocks-push_copy m item len =
      ring_push_cases r m item len
        (λ o. (o.2 ≡ []) × (blocks o.1 ≡ blocks r ++ allocated o.0 m item len)) none
        (λ full. (refl, sym (append-nil _))) (λ x e. cc) (push_oversize-blocks m item len)
        (push_inline-blocks m item len)

  -- `agent_ring_pop` frees exactly the block of the item that it removes: the freed blocks, followed
  -- by those still queued, are the blocks before.
  pub blocks-pop : (pop r).1 ++ blocks (pop r).0 ≡ blocks r
  unfolding pop blocks
  blocks-pop = elim (Bool-cases (r.count == 0)) [
    | inl e ↦ rw e refl
    | inr e ↦ rw e (
        ap (λ l. free (slot_at r r.head).heap ++ held l) (live-pop v (ground arith) _)
        ∙ ap held (sym (window_cons zero_slot ring_cap r.slots r.head r.count (ground arith))))
  ]
