-- ===== src/LogRing.antt =====
-- src/core/log_ring.c: the ring of log entries of one thread, with one producer and one consumer, and
-- the registry of the rings. An operation is one function; allocations are arguments.
use Prim.Native.Nat.{bit_and}
use retrace.Prelude.{
  ℕ, zero, suc, ◌+◌, ◌-◌, ◌%◌, ◌^◌, Bool, true, false, Option, none, some, List, [], ◌∷◌, ◌++◌, ltb,
  ◌==◌, if◌then◌else◌, get_or, set, CStr, not, ◌||◌,
}
use retrace.Prelude.Int.{ℤ, pos, negsuc}
pub mod Items
pub mod Draining
pub mod Capacity
pub mod Cycle
pub mod Interleaving
pub mod Threads
mod Tests

abbrev pub default_cap : ℕ
default_cap = 1024

abbrev pub cap_min : ℕ
cap_min = 64

abbrev pub cap_max : ℕ
cap_max = 65536

pub record LogEntry : Type 0 where
  pub ts_ms : ℕ
  pub module_id : ℕ
  pub sev : ℕ
  pub text : Option CStr

pub record LogRing : Type 0 where
  pub mask : ℕ
  pub dropped : ℕ
  pub head : ℕ
  pub tail : ℕ
  pub entries : List LogEntry

abbrev pub no_entry : LogEntry
no_entry = record { ts_ms = 0; module_id = 0; sev = 0; text = none }

-- `ring_alloc`: whether the ring is allocated, and the entries if they are, with what they hold.
unfoldable pub ring_alloc : ℕ → Bool → Option (List LogEntry) → Option LogRing
ring_alloc capacity shell raw =
    if capacity == 0 || not (bit_and capacity (capacity - 1) == 0)
    then none
    else if not shell
    then none
    else elim raw [
      | none ↦ none
      | some entries ↦
          some (record { mask = capacity - 1; dropped = 0; head = 0; tail = 0; entries = entries })
    ]

abbrev pub without_text : LogEntry → LogEntry
without_text e = record { ts_ms = e.ts_ms; module_id = e.module_id; sev = e.sev; text = none }

abbrev pub text_of : LogEntry → List CStr
text_of e = elim e.text [ none ↦ [] | some s ↦ s ∷ [] ]

-- The texts that `ring_free` frees, in order; none if the fuel runs out.
unfoldable pub free_texts : ℕ → LogRing → ℕ → Option (List CStr)
free_texts zero r t = if t == r.head then some [] else none
free_texts (suc fuel) r t =
    let rest = free_texts fuel r (bit_and (t + 1) r.mask) in
    if t == r.head then some [] else elim rest [
      | none ↦ none
      | some texts ↦ some (text_of (get_or r.entries t no_entry) ++ texts)
    ]

unfoldable pub ring_free : LogRing → Option (List CStr)
unfolding free_texts
ring_free r = free_texts r.mask r r.tail

-- `ring_configured_cap`: the variable's value if it is set, through `atoi` if there is one
unfoldable pub ring_configured_cap : (CStr → ℤ) → Bool → Option CStr → ℕ
ring_configured_cap atoi has_atoi none = default_cap
ring_configured_cap atoi has_atoi (some []) = default_cap
ring_configured_cap atoi has_atoi (some (c ∷ env)) =
    if not has_atoi then default_cap else elim (atoi (c ∷ env)) [
      | negsuc n ↦ default_cap
      | pos v ↦
          if ltb v cap_min || ltb cap_max v
          then default_cap
          else if not (bit_and v (v - 1) == 0)
          then default_cap
          else v
    ]

-- `retrace_log_ring_push` behind the copy of the text
unfoldable pub push_entry : LogRing → LogEntry → ℤ × LogRing
push_entry r e =
    let next = bit_and (r.head + 1) r.mask in
    if next == r.tail
    then (
      negsuc 0,
      record {
        mask = r.mask;
        dropped = (r.dropped + 1) % 2 ^ 32;
        head = r.head;
        tail = r.tail;
        entries = r.entries;
      },
    )
    else (
      pos 0,
      record {
        mask = r.mask;
        dropped = r.dropped;
        head = next;
        tail = r.tail;
        entries = set r.entries r.head e;
      },
    )

-- `retrace_log_ring_push`; `copied` says whether the text's copy is allocated
unfoldable pub push : Option LogRing → ℕ → ℕ → ℕ → Option CStr → Bool → ℤ × Option LogRing
unfolding push_entry
push none module_id sev ts_ms text copied = (negsuc 0, none)
push (some r) module_id sev ts_ms none copied = (negsuc 0, some r)
push (some r) module_id sev ts_ms (some text) copied =
    let pushed =
      push_entry r (record { ts_ms = ts_ms; module_id = module_id; sev = sev; text = some text }) in
    if copied then (pushed.0, some pushed.1) else (negsuc 0, some r)

-- What a drain has after some rounds: the index, the entries, the count and the context.
pub record Drain {ℓ} (C : Type ℓ) : Type ℓ where
  pub at : ℕ
  pub entries : List LogEntry
  pub count : ℕ
  pub ctx : C

module _ {ℓ} {C : Type ℓ} (cb : LogEntry → C → Bool × C) where
  -- The loop of `retrace_log_ring_drain`; `cb` says whether to go on. None if the fuel runs out.
  unfoldable pub drain_loop : ℕ → ℕ → ℕ → Drain C → Option (Drain C)
  drain_loop zero mask h d = if d.at == h then some d else none
  drain_loop (suc fuel) mask h d =
      let e = get_or d.entries d.at no_entry in
      let seen = cb e d.ctx in
      let rest = drain_loop fuel mask h (record {
        at = bit_and (d.at + 1) mask;
        entries = set d.entries d.at (without_text e);
        count = d.count + 1;
        ctx = seen.1;
      }) in
      if d.at == h
      then some d
      else if seen.0
      then rest
      else some (record { at = d.at; entries = d.entries; count = d.count; ctx = seen.1 })

  -- `retrace_log_ring_drain` of a ring
  unfoldable pub drain : LogRing → C → Option (ℕ × LogRing × C)
  unfolding drain_loop
  drain r ctx =
      let start : Drain C = record { at = r.tail; entries = r.entries; count = 0; ctx = ctx } in
      elim (drain_loop r.mask r.mask r.head start) [
        | none ↦ none
        | some d ↦ some (
          d.count,
          record {
            mask = r.mask;
            dropped = r.dropped;
            head = r.head;
            tail = d.at;
            entries = d.entries;
          },
          d.ctx,
        )
      ]

-- `retrace_log_ring_walk` over the registered rings
unfoldable pub ring_walk {ℓ} : {C : Type ℓ} → (LogRing → C → C) → List (Option LogRing) → C → C
ring_walk cb [] ctx = ctx
ring_walk cb (none ∷ rings) ctx = ring_walk cb rings ctx
ring_walk cb (some r ∷ rings) ctx = ring_walk cb rings (cb r ctx)

-- `retrace_log_ring_total_dropped`, over the registered rings
unfoldable pub total_dropped : List (Option LogRing) → ℕ
total_dropped [] = 0
total_dropped (none ∷ rings) = total_dropped rings
total_dropped (some r ∷ rings) = (r.dropped + total_dropped rings) % 2 ^ 64
