-- ===== src/LogRing/Capacity.antt =====
-- Which capacities a ring can have.
use Prim.Native.Nat.{bit_and}
use native.Mathlib.Nat.{one-le-pow}
use retrace.Prelude.{
  ◌%◌, ℕ, ◌+◌, ◌-◌, ◌^◌, ◌≡◌, ◌≢◌, refl, sym, ap, subst, Bool, true, ◌||◌, Option, none, some, List,
  [], ◌∷◌, arith, ltb, ◌==◌, length, CStr, Bool-cases, inl, inr, ◌⊎◌,
}
use retrace.Prelude.Bits.{pow_two_of_bit_and, bit_and_pow_two}
use retrace.Prelude.Cyclic.{window}
use retrace.Prelude.Int.{ℤ, pos, negsuc}
use retrace.LogRing.{LogEntry, LogRing, no_entry, cap_min, cap_max, ring_alloc, ring_configured_cap}
use retrace.LogRing.Items.{items, IsValid}

abbrev fresh : ℕ → List LogEntry → LogRing
fresh c es = record { mask = c - 1; dropped = 0; head = 0; tail = 0; entries = es }

turn : (m : ℕ) → (0 + (m + 1) - 0) % (m + 1) ≡ 0
turn m = grind arith

-- With memory, a ring is allocated for exactly the powers of two, and it is valid and empty.
pub ring_alloc_lem :
    (c : ℕ) (es : List LogEntry)
    → length es ≡ c
    → ((k : ℕ) × (r : LogRing) × (c ≡ 2 ^ k)
        × (ring_alloc c true (some es) ≡ some r)
        × IsValid k r
        × (items r ≡ []))
      ⊎ (((k : ℕ) → c ≢ 2 ^ k) × (ring_alloc c true (some es) ≡ none))
unfolding ring_alloc
ring_alloc_lem c es size = elim (Bool-cases (c == 0)) [
  | inl z ↦ inr ((λ k e. ground (arith, one-le-pow k 2)), rw (ring_alloc, z) refl)
  | inr z ↦ elim (Bool-cases (bit_and c (c - 1) == 0)) [
    | inl b ↦
        let (k, pow) =
          pow_two_of_bit_and c c (omega arith) (λ e. ground (arith, z)) (ground arith) in
        inl (
          k,
          fresh c es,
          pow,
          rw (ring_alloc, z, b) refl,
          record {
            cap = omega (arith, one-le-pow k 2);
            size = omega (arith, size, one-le-pow k 2);
            head_in = omega arith;
            tail_in = omega arith;
          },
          ap (window no_entry (c - 1 + 1) es 0) {x = (0 + (c - 1 + 1) - 0) % (c - 1 + 1)} {y = 0}
              (turn (c - 1)),
        )
    | inr b ↦ inr (
      (λ k e. ground (arith, subst (λ t. bit_and t (t - 1) ≡ 0) (sym e) (bit_and_pow_two k))),
      rw (ring_alloc, z, b) refl,
    )
  ]
]

-- The configured capacity is a power of two, whatever the variable holds.
pub ring_configured_cap-pow :
    (atoi : CStr → ℤ) (has_atoi : Bool) (env : Option CStr)
    → (k : ℕ) × (ring_configured_cap atoi has_atoi env ≡ 2 ^ k)
unfolding ring_configured_cap
ring_configured_cap-pow atoi has_atoi none = (10, refl)
ring_configured_cap-pow atoi has_atoi (some []) = (10, refl)
ring_configured_cap-pow atoi has_atoi (some (c ∷ env)) = elim (Bool-cases has_atoi) [
  | inl h ↦ rw h (of_value (atoi (c ∷ env)) refl)
  | inr h ↦ rw h (10, refl)
]
  where
    of_value :
        (z : ℤ)
        → atoi (c ∷ env) ≡ z
        → (k : ℕ) × (ring_configured_cap atoi true (some (c ∷ env)) ≡ 2 ^ k)
    of_value (negsuc n) e = (10, rw (ring_configured_cap, e) refl)
    of_value (pos v) e = elim (Bool-cases (ltb v cap_min || ltb cap_max v)) [
      | inl out ↦ (10, rw (ring_configured_cap, e, out) refl)
      | inr fits ↦ elim (Bool-cases (bit_and v (v - 1) == 0)) [
        | inr b ↦ (10, rw (ring_configured_cap, e, fits, b) refl)
        | inl b ↦
            let nz : v ≢ 0 = λ q. ground (arith, fits) in
            let (k, pow) = pow_two_of_bit_and v v (omega arith) nz (ground arith) in
            (k, rw (ring_configured_cap, e, fits, b) pow)
      ]
    ]
