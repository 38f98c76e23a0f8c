-- ===== src/CallerCache/Laws.antt =====
-- The cache as a map: an insertion is found again, disturbs at most one other address, and keeps
-- every stored fact true.
use native.Mathlib.Decide.{ℕ_discrete}
use retrace.Prelude.{
  ℕ, zero, suc, ◌+◌, ◌%◌, ◌^◌, ◌<◌, ◌≡◌, ◌≢◌, refl, Option, none, some, List, [], ◌∷◌, arith, ◌==◌,
  if◌then◌else◌, length, set, All, All-set, Bool-cases, Option-cases, ◌⊎◌, inl, inr,
}
use retrace.CallerCache.{find_index, info_at, slot_for, Cache, lookup, insert, stats}

module _ {ℓ} {A : Type ℓ} where
  abbrev pub addr_at : List (ℕ × A) → ℕ → ℕ
  addr_at [] i = 0
  addr_at ((b, _) ∷ es) zero = b
  addr_at (_ ∷ es) (suc i) = addr_at es i

  -- What the table holds for an address: the information of its first entry.
  unfoldable pub cached : ℕ → List (ℕ × A) → Option A
  cached a [] = none
  cached a ((b, v) ∷ es) = if b == a then some v else cached a es

  find_index-some :
      (a : ℕ) (es : List (ℕ × A)) (i : ℕ)
      → find_index a es ≡ some i
      → (i < length es) × (addr_at es i ≡ a) × (info_at es i ≡ cached a es)
  unfolding find_index info_at cached
  find_index-some a [] i h = absurd (cc h)
  find_index-some a ((b, v) ∷ es) zero h = ground (arith, Option-cases (find_index a es))
  find_index-some a ((b, v) ∷ es) (suc i) h = ground (arith, find_index-some a es i)

  find_index-none : (a : ℕ) (es : List (ℕ × A)) → find_index a es ≡ none → cached a es ≡ none
  unfolding find_index cached
  find_index-none a [] h = refl
  find_index-none a ((b, v) ∷ es) h = ground (arith, find_index-none a es)

  -- A write to the first entry of an address, or of an address that has none.
  cached-set_self :
      (a : ℕ) (v : A) (es : List (ℕ × A)) (i : ℕ)
      → i < length es
      → (find_index a es ≡ some i) ⊎ (find_index a es ≡ none)
      → cached a (set es i (a, v)) ≡ some v
  unfolding find_index cached
  cached-set_self a v [] i h f = absurd (omega arith)
  cached-set_self a v ((b, w) ∷ es) zero h f = ground arith
  cached-set_self a v ((b, w) ∷ es) (suc i) h f =
      ground (arith, cached-set_self a v es i (omega arith))

  cached-set_other :
      (a b : ℕ) (v : A) (es : List (ℕ × A)) (i : ℕ)
      → a ≢ b
      → addr_at es i ≢ b
      → cached b (set es i (a, v)) ≡ cached b es
  unfolding cached
  cached-set_other a b v [] i n m = refl
  cached-set_other a b v ((d, w) ∷ es) zero n m = ground arith
  cached-set_other a b v ((d, w) ∷ es) (suc i) n m = ground (arith, cached-set_other a b v es i n m)

  slot_for_cases :
      (a : ℕ) (es : List (ℕ × A))
      → 0 < length es
      → (slot_for a es < length es)
        × ((find_index a es ≡ some (slot_for a es)) ⊎ (find_index a es ≡ none))
        × ((addr_at es (slot_for a es) ≡ a)
            ⊎ (addr_at es (slot_for a es) ≡ 0)
            ⊎ ((slot_for a es ≡ 0) × (find_index a es ≡ none) × (find_index 0 es ≡ none)))
  unfolding slot_for
  slot_for_cases a es h = elim (Option-cases (find_index a es)) [
    | inr (i, e) ↦
        let f = find_index-some a es i e in
        let s : slot_for a es ≡ i = rw (e, slot_for) refl in rw s (f.0, inl e, inl f.1)
    | inl e ↦ elim (Option-cases (find_index 0 es)) [
      | inr (i, z) ↦
          let f = find_index-some 0 es i z in
          let s : slot_for a es ≡ i = rw (e, z, slot_for) refl in rw s (f.0, inr e, inr (inl f.1))
      | inl z ↦
          let s : slot_for a es ≡ 0 = rw (e, z, slot_for) refl in
          rw s (h, inr e, inr (inr (refl, e, z)))
    ]
  ]

  info_at-lt : (es : List (ℕ × A)) (i : ℕ) → i < length es → (v : A) × (info_at es i ≡ some v)
  unfolding info_at
  info_at-lt [] i h = absurd (omega arith)
  info_at-lt ((b, v) ∷ es) zero h = (v, refl)
  info_at-lt (e ∷ es) (suc i) h = info_at-lt es i (omega arith)

  -- `retrace_caller_cache_lookup` answers what the table holds, leaves the table, and counts one hit
  -- or one miss; NULL is not looked up and not counted.
  pub lookup_lem :
      (a : ℕ) (c : Cache A)
      → ((lookup a c).1.entries ≡ c.entries)
        × ((lookup a c).0 ≡ (if a == 0 then none else cached a c.entries))
        × (stats (lookup a c).1 ≡ (
            if a == 0 then (c.hits, c.misses) else elim (cached a c.entries) [
              | none ↦ (c.hits, (c.misses + 1) % 2 ^ 64)
              | some _ ↦ ((c.hits + 1) % 2 ^ 64, c.misses)
            ]))
  unfolding lookup stats
  lookup_lem a c = elim (Option-cases (find_index a c.entries)) [
    | inl e ↦ ground (arith, find_index-none a c.entries e)
    | inr (i, e) ↦
        let f = find_index-some a c.entries i e in
        let (v, w) = info_at-lt c.entries i f.0 in ground (arith, f, w)
  ]

  -- An inserted address is found with its new information.
  pub cached-insert_self :
      (a : ℕ) (v : A) (c : Cache A)
      → a ≢ 0
      → 0 < length c.entries
      → cached a (insert a v c).entries ≡ some v
  unfolding insert
  cached-insert_self a v c n h =
      let s = slot_for_cases a c.entries h in
      ground (arith, cached-set_self a v c.entries (slot_for a c.entries) s.0 s.1)

  -- An insertion changes what is held for another address only if the table is full, and then only
  -- for the address in slot 0.
  pub cached-insert_other :
      (a b : ℕ) (v : A) (c : Cache A)
      → a ≢ b
      → b ≢ 0
      → 0 < length c.entries
      → (cached b (insert a v c).entries ≡ cached b c.entries)
        ⊎ ((addr_at c.entries 0 ≡ b) × (cached a c.entries ≡ none) × (cached 0 c.entries ≡ none))
  unfolding insert
  cached-insert_other a b v c n m h =
      let s = slot_for_cases a c.entries h in
      let keep = cached-set_other a b v c.entries (slot_for a c.entries) n in
      elim s.2 [
        | inl own ↦ inl (ground (arith, keep (omega arith)))
        | inr (inl free) ↦ inl (ground (arith, keep (omega arith)))
        | inr (inr (zeroth, absent, full)) ↦ elim (ℕ_discrete (addr_at c.entries 0) b) [
          | yes e ↦ inr (e, find_index-none a c.entries absent, find_index-none 0 c.entries full)
          | no e ↦ inl (ground (arith, keep (rw zeroth e)))
        ]
      ]

module _ {A : Type 0} where
  -- Every entry in use is true of the world that `world` describes.
  abbrev pub IsTrue : (ℕ → Option A) → Cache A → Type 0
  IsTrue world c = All (λ e. e.0 ≢ 0 → world e.0 ≡ some e.1) c.entries

  pub cached_true :
      (world : ℕ → Option A) (a : ℕ) (v : A) (es : List (ℕ × A))
      → a ≢ 0
      → All (λ e. e.0 ≢ 0 → world e.0 ≡ some e.1) es
      → cached a es ≡ some v
      → world a ≡ some v
  unfolding cached
  cached_true world a v [] n h e = cc
  cached_true world a v ((b, w) ∷ es) n h e = ground (arith, h.0, cached_true world a v es n h.1)

  pub insert-IsTrue :
      (world : ℕ → Option A) (a : ℕ) (v : A) (c : Cache A)
      → world a ≡ some v
      → IsTrue world c
      → IsTrue world (insert a v c)
  unfolding insert
  insert-IsTrue world a v c e h = elim (Bool-cases (a == 0)) [
    | inl z ↦ rw z h
    | inr z ↦ rw z (All-set _ c.entries (slot_for a c.entries) (a, v) h (λ n. e))
  ]

  pub lookup-IsTrue :
      (world : ℕ → Option A) (a : ℕ) (c : Cache A) → IsTrue world c → IsTrue world (lookup a c).1
  lookup-IsTrue world a c h = rw (lookup_lem a c).0 h
