-- ===== src/LogRing/Cycle.antt =====
-- Distances on a ring of `c` cells, for the positions of src/core/log_ring.c.
use native.Mathlib.Decide.{dec_lt}
use native.Mathlib.Nat.{mod-eq_of_lt, mod-eq-sub-mod}
use retrace.Prelude.{ℕ, ◌+◌, ◌-◌, ◌%◌, ◌≤◌, ◌<◌, ◌≡◌, ◌≢◌, sym, ap, ◌∙◌, arith, inl, inr, ◌⊎◌}

abbrev pub dist : ℕ → ℕ → ℕ → ℕ
dist c a b = (b + c - a) % c

abbrev pub next : ℕ → ℕ → ℕ
next c a = (a + 1) % c

pub dist_cases :
    (c a b : ℕ)
    → a < c
    → b < c
    → ((a ≤ b) × (dist c a b + a ≡ b)) ⊎ ((b < a) × (dist c a b + a ≡ b + c))
dist_cases c a b p q = elim (dec_lt b a) [
  | yes l ↦ inr (l, omega (arith, mod-eq_of_lt {n = b + c - a} {m = c} (omega arith)))
  | no l ↦ inl (
    omega (arith, l),
    omega (
      arith,
      mod-eq-sub-mod {n = b + c - a} {m = c} (omega arith),
      mod-eq_of_lt {n = b + c - a - c} {m = c} (omega arith),
    ),
  )
]

pub next_cases :
    (c a : ℕ) → a < c → ((a + 1 < c) × (next c a ≡ a + 1)) ⊎ ((a + 1 ≡ c) × (next c a ≡ 0))
next_cases c a p = elim (dec_lt (a + 1) c) [
  | yes l ↦ inl (l, mod-eq_of_lt l)
  | no l ↦ let e : a + 1 ≡ c = omega (arith, l, p) in inr (e, ap (λ i. i % c) e ∙ grind arith)
]

module _ (c a b : ℕ) (ha : a < c) (hb : b < c) where
  pub dist-lt : dist c a b < c
  dist-lt = elim (dist_cases c a b ha hb) [
    | inl h ↦ omega (arith, h.0, h.1)
    | inr h ↦ omega (arith, h.0, h.1)
  ]

  pub next-lt : next c a < c
  next-lt = elim (next_cases c a ha) [
    | inl h ↦ omega (arith, h.0, h.1)
    | inr h ↦ omega (arith, h.0, h.1)
  ]

  pub dist-zero : dist c a b ≡ 0 → a ≡ b
  dist-zero e = elim (dist_cases c a b ha hb) [
    | inl h ↦ omega (arith, e, h.1)
    | inr h ↦ omega (arith, e, h.0, h.1)
  ]

  pub dist-next_left : a ≢ b → dist c (next c a) b + 1 ≡ dist c a b
  dist-next_left n =
      let old = dist_cases c a b ha hb in
      let new = dist_cases c (next c a) b next-lt hb in
      elim (next_cases c a ha) [
        | inl h ↦ omega (arith, h.0, h.1, old, new, n)
        | inr h ↦ omega (arith, h.0, h.1, old, new, n, hb)
      ]

  pub dist-next_right : dist c a b + 1 < c → dist c a (next c b) ≡ dist c a b + 1
  dist-next_right room =
      let low = step_lt b hb in
      let old = dist_cases c a b ha hb in
      let new = dist_cases c a (next c b) ha low in
      elim (next_cases c b hb) [
        | inl h ↦ omega (arith, h.0, h.1, old, new, room)
        | inr h ↦ omega (arith, h.0, h.1, old, new, room, ha)
      ]
    where
      step_lt : (x : ℕ) → x < c → next c x < c
      step_lt x h = elim (next_cases c x h) [
        | inl e ↦ omega (arith, e.0, e.1)
        | inr e ↦ omega (arith, e.0, e.1)
      ]

pub dist_self : (c a : ℕ) → a < c → dist c a a ≡ 0
dist_self c a h = elim (dist_cases c a a h h) [
  | inl e ↦ omega (arith, e.1)
  | inr e ↦ omega (arith, e.0)
]

-- All but one of the cells ahead of the next one is the cell itself.
pub around_back : (m t : ℕ) → t < m + 1 → t ≡ (next (m + 1) t + m) % (m + 1)
around_back m t h = elim (next_cases (m + 1) t h) [
  | inl e ↦
      let full = mod-eq-sub-mod {n = t + 1 + m} {m = m + 1} (omega arith) in
      let low = mod-eq_of_lt {n = t + 1 + m - (m + 1)} {m = m + 1} (omega (arith, h)) in
      sym (ap (λ i. (i + m) % (m + 1)) e.1 ∙ full ∙ low ∙ omega arith)
  | inr e ↦ sym (
      ap (λ i. (i + m) % (m + 1)) e.1
      ∙ mod-eq_of_lt {n = 0 + m} {m = m + 1} (omega arith)
      ∙ omega (arith, e.0))
]
