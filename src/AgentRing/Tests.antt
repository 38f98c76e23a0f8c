-- ===== src/AgentRing/Tests.antt =====
-- A ring with an inline item and a heap item.
use retrace.Prelude.{◌≡◌, none, some, [], ◌∷◌, ◌++◌, arith, codes}
use retrace.AgentRing.{Block, AgentRing, init, ring_push, push_copy, push_heap}
use retrace.AgentRing.Valid.{IsValid, init-IsValid, ring_push-IsValid}
use retrace.AgentRing.Fifo.{Pushed, NoMemory, push_copy-Pushed}
use retrace.AgentRing.Blocks.{blocks, blocks-push_heap}

abbrev event : Block
event = record { addr = 4096; bytes = codes "{}" }

-- `hi` copied inline, then a heap item behind it
abbrev with_hi : AgentRing
with_hi = (ring_push init none none (codes "hi") 2).1

abbrev with_both : AgentRing
with_both = (ring_push with_hi (some event) none (codes "{}") 2).1

with_hi-IsValid : IsValid with_hi
with_hi-IsValid = ring_push-IsValid init-IsValid none none (codes "hi") 2

with_both-IsValid : IsValid with_both
with_both-IsValid = ring_push-IsValid with_hi-IsValid (some event) none (codes "{}") 2

push_copy-Pushed_example :
    Pushed with_hi (codes "more") (NoMemory none 4) (push_copy with_hi none (codes "more") 4)
push_copy-Pushed_example = push_copy-Pushed with_hi-IsValid none (codes "more") 4 (omega arith)

blocks-push_heap_example :
    let o = push_heap with_hi event 2 in blocks o.1 ++ o.2 ≡ blocks with_hi ++ event ∷ []
blocks-push_heap_example = blocks-push_heap with_hi-IsValid event 2
