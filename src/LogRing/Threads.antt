-- ===== src/LogRing/Threads.antt =====
-- src/core/log_ring.c: the ring of the calling thread, and the registry of the rings. A ring is known
-- by its number; `live` lists those that are allocated, `nodes` those in the registry, and `key` is
-- the ring of the thread's key. The mutex of the registry makes its append one step.
use retrace.Prelude.{
  ◌<◌, All, sym, subst, ◌⊎◌, some-inj, some≢none, Option-cases, ℕ, ◌+◌, ◌≡◌, refl, ap, ◌∙◌, Bool,
  true, false, Option, none, some, List, [], ◌∷◌, arith, ◌==◌, if◌then◌else◌, inl, inr, Bool-cases,
}
use retrace.LogRing.{LogEntry, LogRing, default_cap, ring_alloc}

pub record Rings : Type 0 where
  pub made : ℕ
  pub live : List ℕ
  pub nodes : List ℕ
  pub key : Option ℕ

-- What the allocations and the setting of the key answer in one call.
pub record Grants : Type 0 where
  pub shell : Bool
  pub entries : Option (List LogEntry)
  pub node : Bool
  pub set_key : Bool

abbrev pub without : ℕ → List ℕ → List ℕ
without i [] = []
without i (j ∷ l) = if i == j then without i l else j ∷ without i l

-- `registry_add`: without memory for a node the ring is freed.
unfoldable pub registry_add : Bool → ℕ → Rings → Rings
registry_add true i s = record s { nodes = i ∷ s.nodes }
registry_add false i s = record s { live = without i s.live }

unfoldable pub add_ring : Grants → Rings → Option ℕ × Rings
unfolding registry_add
add_ring g s =
    let i = s.made in
    let s' = registry_add g.node i (record s { made = i + 1; live = i ∷ s.live }) in
    if g.set_key then (some i, record s' { key = some i }) else (none, s')

-- What follows on the value of the key, and on the ring that was allocated.
unfoldable pub with_alloc : Option LogRing → Grants → Rings → Option ℕ × Rings
unfolding add_ring
with_alloc none g s = (none, s)
with_alloc (some r) g s = add_ring g s

unfoldable pub with_key : Option ℕ → ℕ → Grants → Rings → Option ℕ × Rings
unfolding with_alloc ring_alloc
with_key (some i) cap g s = (some i, s)
with_key none cap g s =
    with_alloc (ring_alloc (if cap == 0 then default_cap else cap) g.shell g.entries) g s

-- `retrace_log_ring_get`
unfoldable pub ring_get : ℕ → Grants → Rings → Option ℕ × Rings
unfolding with_key
ring_get cap g s = with_key s.key cap g s

-- `ring_key_destructor`
unfoldable pub ring_key_destructor : Rings → Rings
ring_key_destructor s = record s { key = none }

-- What happens to the registry: a thread calls `retrace_log_ring_get`, the thread exits, or another
-- thread goes on, whose key holds the given ring.
pub data Event : Type 0 where
  get : ℕ → Grants → Event
  thread_exit : Event
  switch : Option ℕ → Event

unfoldable pub happens : Event → Rings → Rings
unfolding ring_get ring_key_destructor
happens (get cap g) s = (ring_get cap g s).1
happens thread_exit s = ring_key_destructor s
happens (switch key) s = record s { key = key }

unfoldable pub history : List Event → Rings → Rings
unfolding happens
history [] s = s
history (e ∷ events) s = history events (happens e s)

abbrev pub no_rings : Rings
no_rings = record { made = 0; live = []; nodes = []; key = none }

abbrev pub holds : ℕ → List ℕ → Bool
holds i [] = false
holds i (j ∷ l) = if i == j then true else holds i l

holds-without : (i : ℕ) (l : List ℕ) → holds i (without i l) ≡ false
holds-without i [] = refl
holds-without i (j ∷ l) = elim (Bool-cases (i == j)) [
  | inl e ↦ rw e (holds-without i l)
  | inr e ↦ rw (e, e) (holds-without i l)
]

without-fresh : (n : ℕ) (l : List ℕ) → All (λ i. i < n) l → without n l ≡ l
without-fresh n [] h = refl
without-fresh n (j ∷ l) h =
    let apart : (n == j) ≡ false = ground (arith, h.0) in
    rw apart (ap (λ x. j ∷ x) (without-fresh n l h.1))

All-suc : (n : ℕ) (l : List ℕ) → All (λ i. i < n) l → All (λ i. i < n + 1) l
All-suc n [] h = tt
All-suc n (i ∷ l) h = (omega (arith, h.0), All-suc n l h.1)

-- The rings of the registry are those that are allocated, and each was made before.
abbrev IsKept : Rings → Type 0
IsKept s = (s.nodes ≡ s.live) × All (λ i. i < s.made) s.live

abbrev made_next : Rings → Rings
made_next s = record s { made = s.made + 1; live = s.made ∷ s.live }

registry_add-IsKept :
    (node : Bool) (s : Rings)
    → IsKept s
    → let s' = registry_add node s.made (made_next s) in IsKept s' × (holds s.made s'.live ≡ node)
unfolding registry_add
registry_add-IsKept true s (same, older) =
    ((ap (λ l. s.made ∷ l) same, (omega arith, All-suc s.made s.live older)), ground arith)
registry_add-IsKept false s (same, older) =
    let gone : without s.made (s.made ∷ s.live) ≡ s.live =
      let self : (s.made == s.made) ≡ true = ground arith in
      rw self (without-fresh s.made s.live older) in
    (
      (
        same ∙ sym gone,
        subst (λ l. All (λ i. i < s.made + 1) l) (sym gone) (All-suc s.made s.live older),
      ),
      holds-without s.made (s.made ∷ s.live),
    )

-- A thread that had no ring: it gets none, or the one that is made now.
abbrev Fresh : Grants → Rings → Option ℕ × Rings → Type 0
Fresh g s r =
    IsKept r.1
    × ((r.0 ≡ none)
        ⊎ ((r.0 ≡ some s.made) × (r.1.key ≡ some s.made) × (holds s.made r.1.live ≡ g.node)))

add_ring-Fresh : (g : Grants) (s : Rings) → IsKept s → Fresh g s (add_ring g s)
unfolding add_ring
add_ring-Fresh g s k =
    let (kept, held) = registry_add-IsKept g.node s k in
    elim (Bool-cases g.set_key) [
      | inl t ↦ rw t (kept, inr (refl, refl, held))
      | inr t ↦ rw t (kept, inl refl)
    ]

with_none-Fresh : (cap : ℕ) (g : Grants) (s : Rings) → IsKept s → Fresh g s (with_key none cap g s)
unfolding with_key with_alloc
with_none-Fresh cap g s k =
    elim (Option-cases (ring_alloc (if cap == 0 then default_cap else cap) g.shell g.entries)) [
      | inl a ↦ rw a (k, inl refl)
      | inr (r, a) ↦ rw a (add_ring-Fresh g s k)
    ]

ring_get-Fresh :
    (cap : ℕ) (g : Grants) (s : Rings) → s.key ≡ none → IsKept s → Fresh g s (ring_get cap g s)
unfolding ring_get
ring_get-Fresh cap g s e k =
    subst (λ x. Fresh g s (with_key x cap g s)) (sym e) (with_none-Fresh cap g s k)

ring_get-again :
    (cap : ℕ) (g : Grants) (s : Rings) (i : ℕ) → s.key ≡ some i → ring_get cap g s ≡ (some i, s)
unfolding ring_get with_key
ring_get-again cap g s i e = rw e refl

happens-IsKept : (e : Event) (s : Rings) → IsKept s → IsKept (happens e s)
unfolding happens ring_key_destructor
happens-IsKept (get cap g) s k = elim (Option-cases s.key) [
  | inl e ↦ (ring_get-Fresh cap g s e k).0
  | inr (i, e) ↦ subst IsKept (sym (ap (λ x. x.1) (ring_get-again cap g s i e))) k
]
happens-IsKept thread_exit s k = k
happens-IsKept (switch key) s k = k

history-IsKept : (events : List Event) (s : Rings) → IsKept s → IsKept (history events s)
unfolding history
history-IsKept [] s k = k
history-IsKept (e ∷ events) s k = history-IsKept events (happens e s) (happens-IsKept e s k)

-- After any sequence of calls of `retrace_log_ring_get` by any threads and of thread exits: where a
-- thread whose key is not set calls it and is given a ring, the registry lists exactly the allocated
-- rings, the ring is one of them exactly where there was memory for its node, and else it has been
-- freed; and the next call of the thread gives the same ring, whatever is allocated.
pub ring_get-registry :
    (events : List Event) (cap later_cap : ℕ) (g later : Grants) (i : ℕ)
    → (history events no_rings).key ≡ none
    → (ring_get cap g (history events no_rings)).0 ≡ some i
    → let s' = (ring_get cap g (history events no_rings)).1 in
      (s'.nodes ≡ s'.live)
      × (holds i s'.live ≡ g.node)
      × (ring_get later_cap later s' ≡ (some i, s'))
ring_get-registry events cap later_cap g later i e given =
    let s = history events no_rings in
    let s' = (ring_get cap g s).1 in
    let (kept, answer) = ring_get-Fresh cap g s e (history-IsKept events no_rings (refl, tt)) in
    elim answer [
      | inl nothing ↦ absurd (some≢none (sym given ∙ nothing))
      | inr (made, key, held) ↦
          let same : s.made ≡ i = some-inj (sym made ∙ given) in
          (
            kept.0,
            ap (λ x. holds x s'.live) (sym same) ∙ held,
            ring_get-again later_cap later s' i (key ∙ ap some same),
          )
    ]
