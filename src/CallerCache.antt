-- ===== src/CallerCache.antt =====
-- src/core/caller_cache.c: the table of symbol information by return address. An address is a
-- number, NULL is 0, and an entry with the address 0 is empty. Every call holds the lock throughout.
use retrace.Prelude.{
  ℕ, zero, suc, ◌+◌, ◌%◌, ◌^◌, Bool, true, false, ◌||◌, Option, none, some, List, [], ◌∷◌, ◌==◌,
  if◌then◌else◌, get_or, set, replicate, map,
}
pub mod Laws
mod Tests

abbrev pub cache_size : ℕ
cache_size = 256

module _ {ℓ} {A : Type ℓ} where
  -- the first index that holds the address
  unfoldable pub find_index : ℕ → List (ℕ × A) → Option ℕ
  find_index a [] = none
  find_index a ((b, _) ∷ es) =
      if b == a then some 0 else elim (find_index a es) [ none ↦ none | some i ↦ some (suc i) ]

  unfoldable pub info_at : List (ℕ × A) → ℕ → Option A
  info_at [] i = none
  info_at ((_, v) ∷ es) zero = some v
  info_at (_ ∷ es) (suc i) = info_at es i

  -- The slot that an insertion takes: the address's own, else the first empty one, else slot 0.
  unfoldable pub slot_for : ℕ → List (ℕ × A) → ℕ
  unfolding find_index
  slot_for a es = elim (find_index a es) [
    | some i ↦ i
    | none ↦ elim (find_index 0 es) [ some i ↦ i | none ↦ 0 ]
  ]

pub record Cache {ℓ} (A : Type ℓ) : Type ℓ where
  pub entries : List (ℕ × A)
  pub hits : ℕ
  pub misses : ℕ

module _ {ℓ} {A : Type ℓ} where
  -- `unsigned long` counters
  abbrev pub hit : Cache A → Cache A
  hit c = record c { hits = (c.hits + 1) % 2 ^ 64 }

  abbrev pub miss : Cache A → Cache A
  miss c = record c { misses = (c.misses + 1) % 2 ^ 64 }

  -- `retrace_caller_cache_lookup` with a non-NULL `out`: what is written there, if anything.
  unfoldable pub lookup : ℕ → Cache A → Option A × Cache A
  unfolding find_index info_at
  lookup a c = if a == 0 then (none, c) else elim (find_index a c.entries) [
    | none ↦ (none, miss c)
    | some i ↦ (info_at c.entries i, hit c)
  ]

  -- `retrace_caller_cache_insert` with a non-NULL `info`
  unfoldable pub insert : ℕ → A → Cache A → Cache A
  unfolding slot_for
  insert a v c =
      if a == 0 then c else record c { entries = set c.entries (slot_for a c.entries) (a, v) }

  unfoldable pub clear : Cache A → Cache A
  clear c = record { entries = map (λ e. (0, e.1)) c.entries; hits = 0; misses = 0 }

  unfoldable pub stats : Cache A → ℕ × ℕ
  stats c = (c.hits, c.misses)
