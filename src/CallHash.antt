-- ===== src/CallHash.antt =====
-- src/core/call_hash.c: the running hash of each thread's calls. The registry's nodes are listed in
-- the order of their allocation, and a thread's key is the index of its node. Whether an allocation
-- and a store of a key succeed are arguments.
use Prim.Native.Nat.{bit_xor}
use retrace.Prelude.{
  ℕ, suc, ◌+◌, ◌-◌, ◌*◌, ◌%◌, ◌^◌, Bool, true, false, Option, none, some, List, [], ◌∷◌, ◌++◌, ◌==◌,
  if◌then◌else◌, length, get_or, set, CStr, codes, not, ◌&&◌,
}
use retrace.Prelude.Int.{ℤ, pos, negsuc}
pub mod Threads
mod Tests

abbrev pub fnv_offset : ℕ
fnv_offset = 14695981039346656037

abbrev pub fnv_prime : ℕ
fnv_prime = 1099511628211

pub record ThreadHash : Type 0 where
  pub hash : ℕ
  pub observed : Bool

pub record State : Type 0 where
  pub enabled : Bool
  pub nodes : List ThreadHash
  pub keys : ℕ → Option ℕ
  pub last : ℕ

abbrev pub new_hash : ThreadHash
new_hash = record { hash = fnv_offset; observed = false }

abbrev pub is_on : Option CStr → Bool
is_on none = false
is_on (some []) = false
is_on (some (c ∷ s)) = not (c == b'0')

-- `retrace_call_hash_init`, for the variable's value and the outcomes of the two `rc_` calls
unfoldable pub init : Option CStr → Bool → Bool → State → ℤ × State
init env mutex_ok key_ok s =
    let on : State = record {
      enabled = is_on env;
      nodes = s.nodes;
      keys = s.keys;
      last = s.last;
    } in
    if mutex_ok && key_ok
    then (pos 0, record { enabled = is_on env; nodes = []; keys = λ t. none; last = s.last })
    else (negsuc 0, on)

abbrev pub with_key : ℕ → ℕ → (ℕ → Option ℕ) → ℕ → Option ℕ
with_key thread i keys t = if t == thread then some i else keys t

-- `hash_key_destructor`, of the thread that exits
unfoldable hash_key_destructor : ℕ → State → State
hash_key_destructor thread s = record s { keys = λ t. if t == thread then none else s.keys t }

-- `thread_hash_get`
unfoldable pub thread_hash_get : ℕ → Bool → Bool → State → Option ℕ × State
thread_hash_get thread malloc_ok set_ok s = elim (s.keys thread) [
  | some i ↦ (some i, s)
  | none ↦
      let i = length s.nodes in
      let nodes = s.nodes ++ new_hash ∷ [] in
      if not malloc_ok
      then (none, s)
      else if set_ok
      then (
        some i,
        record {
          enabled = s.enabled;
          nodes = nodes;
          keys = with_key thread i s.keys;
          last = s.last;
        },
      )
      else (none, record { enabled = s.enabled; nodes = nodes; keys = s.keys; last = s.last })
]

-- `h ^= x; h *= FNV_PRIME` on a `uint64_t`
abbrev pub mix : ℕ → ℕ → ℕ
mix h x = bit_xor h x * fnv_prime % 2 ^ 64

unfoldable pub mix_name : CStr → ℕ → ℕ
mix_name [] h = h
mix_name (c ∷ s) h = mix_name s (mix h c)

-- `(uint64_t)arg_count`
abbrev pub as_u64 : ℤ → ℕ
as_u64 (pos n) = n % 2 ^ 64
as_u64 (negsuc n) = 2 ^ 64 - suc n

-- The hash after a call.
unfoldable pub mix_call : CStr → ℤ → ℕ → ℕ
unfolding mix_name
mix_call func arg_count h = mix (mix_name func h) (as_u64 arg_count)

-- The stores of an observed call into the node `i`.
unfoldable pub store_call : ℕ → CStr → ℤ → State → State
unfolding mix_call
store_call i func arg_count s =
    let h = mix_call func arg_count (get_or s.nodes i new_hash).hash in
    record {
      enabled = s.enabled;
      nodes = set s.nodes i (record { hash = h; observed = true });
      keys = s.keys;
      last = h;
    }

-- What `observe` does with the outcome of `thread_hash_get`.
unfoldable pub store_in : Option ℕ × State → CStr → ℤ → State
unfolding store_call
store_in (none, s) func arg_count = s
store_in (some i, s) func arg_count = store_call i func arg_count s

-- `retrace_call_hash_observe`
unfoldable pub observe : ℕ → Bool → Bool → Option CStr → ℤ → State → State
unfolding thread_hash_get store_in
observe thread malloc_ok set_ok none arg_count s = s
observe thread malloc_ok set_ok (some func) arg_count s =
    if not s.enabled then s else store_in (thread_hash_get thread malloc_ok set_ok s) func arg_count

-- `retrace_call_hash_get`
unfoldable pub get : ℕ → Bool → Bool → State → ℕ × State
unfolding thread_hash_get
get thread malloc_ok set_ok s =
    let got = thread_hash_get thread malloc_ok set_ok s in
    elim got.0 [
      | none ↦ (0, got.1)
      | some i ↦
          let th = get_or got.1.nodes i new_hash in (if th.observed then th.hash else 0, got.1)
    ]

-- `retrace_call_hash_walk`: the callback on the hashes, the newest node first
unfoldable pub walk_hashes {ℓ} : {C : Type ℓ} → (ℕ → C → C) → List ThreadHash → C → C
walk_hashes cb [] ctx = ctx
walk_hashes cb (n ∷ nodes) ctx =
    let newer = walk_hashes cb nodes ctx in if n.observed then cb n.hash newer else newer

-- `retrace_call_hash_deinit`, which leaves the keys and the flag
unfoldable pub deinit : State → State
deinit s = record { enabled = s.enabled; nodes = []; keys = s.keys; last = s.last }
