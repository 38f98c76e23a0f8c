-- ===== src/ConfigCache/Probe.antt =====
-- Walks over the buckets: they end, and what a new entry changes on them.
use native.Mathlib.Nat.{mod-eq_of_lt}
use mathlib.Core.Option.{some-injective}
use native.Mathlib.Decide.{dec_lt, ℕ_discrete}
use retrace.Prelude.{
  ℕ, zero, suc, ◌+◌, ◌-◌, ◌%◌, ◌^◌, ◌<◌, ◌≡◌, ◌≢◌, refl, sym, ap, ◌∙◌, true, false, Option, none,
  some, List, arith, ◌==◌, length, get_or, set, get_or-set_self, get_or-set_ne, CStr, str_eq,
  Bool-cases, inl, inr,
}
use retrace.Prelude.Bits.{bit_and_mask}
use retrace.Prelude.Cyclic.{around-suc, around-lt}
use retrace.ConfigCache.{next, find_empty, name_of, script_of, probe}

module _ (nb k : ℕ) (pow : nb ≡ 2 ^ k) where
  pub next_lem : (b : ℕ) → next nb b ≡ (b + 1) % nb
  next_lem b = rw pow (bit_and_mask k (b + 1))

  -- The bucket `m` steps on from `b` is empty.
  abbrev pub EmptyAt : List ℕ → ℕ → ℕ → Type 0
  EmptyAt t b m = get_or t ((b + m) % nb) 0 ≡ 0

  EmptyAt-next : (t : List ℕ) (b m : ℕ) → EmptyAt t b (suc m) → EmptyAt t (next nb b) m
  EmptyAt-next t b m h = rw (next_lem b, around-suc nb b m) h

  pub find_empty-ends :
      (f : ℕ) (t : List ℕ) (b m : ℕ)
      → b < nb
      → m < f
      → EmptyAt t b m
      → (p : ℕ) × (find_empty f t nb b ≡ some p) × (get_or t p 0 ≡ 0) × (p < nb)
  unfolding find_empty
  find_empty-ends zero t b m hb hm e = absurd (omega arith)
  find_empty-ends (suc f) t b zero hb hm e =
      let here : get_or t b 0 ≡ 0 =
        ap (λ c. get_or t c 0)
          (sym (ap (λ c. c % nb) {x = b + 0} {y = b} (omega arith) ∙ mod-eq_of_lt hb))
        ∙ e in
      (b, rw here refl, here, hb)
  find_empty-ends (suc f) t b (suc m) hb hm e = elim (Bool-cases (get_or t b 0 == 0)) [
    | inl h ↦ (b, rw h refl, ground arith, hb)
    | inr h ↦ rw h (
        find_empty-ends f t (next nb b) m (rw (next_lem b) (around-lt nb b 1 hb)) (omega arith)
          (EmptyAt-next t b m e))
  ]

  -- An empty bucket is met from anywhere within one round.
  pub meets :
      (t : List ℕ) (b j : ℕ)
      → b < nb
      → j < nb
      → get_or t j 0 ≡ 0
      → (m : ℕ) × (m < nb) × EmptyAt t b m
  meets t b j hb hj e = elim (dec_lt j b) [
    | no h ↦ (
      j - b,
      omega arith,
      ap (λ c. get_or t c 0)
            (ap (λ c. c % nb) {x = b + (j - b)} {y = j} (omega arith) ∙ mod-eq_of_lt hj)
          ∙ e,
    )
    | yes h ↦ (
      j + nb - b,
      omega arith,
      ap (λ c. get_or t c 0)
            (ap (λ c. c % nb) {x = b + (j + nb - b)} {y = j + nb} (omega arith)
              ∙ grind (arith, mod-eq_of_lt))
          ∙ e,
    )
  ]

module _ {ℓ} {A : Type ℓ} (es : List (CStr × A)) (nb : ℕ) (x : CStr) where
  -- No bucket leads to an entry of the name.
  abbrev pub NoMatch : List ℕ → Type 0
  NoMatch t = (b : ℕ) → get_or t b 0 ≢ 0 → str_eq (name_of es (get_or t b 0 - 1)) x ≡ false

  -- One round of the walk.
  module _ (f : ℕ) (t : List ℕ) (b : ℕ) where
    probe_empty : get_or t b 0 ≡ 0 → probe (suc f) es t nb x b ≡ some none
    unfolding probe
    probe_empty e = rw e refl

    probe_match :
        get_or t b 0 ≢ 0
        → str_eq (name_of es (get_or t b 0 - 1)) x ≡ true
        → probe (suc f) es t nb x b ≡ some (script_of es (get_or t b 0 - 1))
    unfolding probe
    probe_match n e = elim (Bool-cases (get_or t b 0 == 0)) [
      | inl z ↦ absurd (n (ground arith))
      | inr z ↦ rw (z, e) refl
    ]

    probe-next :
        get_or t b 0 ≢ 0
        → str_eq (name_of es (get_or t b 0 - 1)) x ≡ false
        → probe (suc f) es t nb x b ≡ probe f es t nb x (next nb b)
    unfolding probe
    probe-next n e = elim (Bool-cases (get_or t b 0 == 0)) [
      | inl z ↦ absurd (n (ground arith))
      | inr z ↦ rw (z, e) refl
    ]

  pub probe-none :
      (k : ℕ) (pow : nb ≡ 2 ^ k) (f : ℕ) (t : List ℕ) (b m : ℕ)
      → b < nb
      → m < f
      → EmptyAt nb k pow t b m
      → NoMatch t
      → probe f es t nb x b ≡ some none
  probe-none k pow zero t b m hb hm e no_match = absurd (omega arith)
  probe-none k pow (suc f) t b zero hb hm e no_match = probe_empty f t b (
      ap (λ c. get_or t c 0)
        (sym (ap (λ c. c % nb) {x = b + 0} {y = b} (omega arith) ∙ mod-eq_of_lt hb))
      ∙ e)
  probe-none k pow (suc f) t b (suc m) hb hm e no_match = elim (ℕ_discrete (get_or t b 0) 0) [
    | yes z ↦ probe_empty f t b z
    | no n ↦
        probe-next f t b n (no_match b n)
        ∙ probe-none k pow f t (next nb b) m (rw (next_lem nb k pow b) (around-lt nb b 1 hb))
            (omega arith) (EmptyAt-next nb k pow t b m e) no_match
  ]

  -- A walk that finds a script finds it too when an empty bucket has been taken.
  pub probe-set_found :
      (f : ℕ) (t : List ℕ) (p v b : ℕ) (a : Option A)
      → get_or t p 0 ≡ 0
      → ¬ (a ≡ none)
      → probe f es t nb x b ≡ some a
      → probe f es (set t p v) nb x b ≡ some a
  probe-set_found zero t p v b a e n h = unfold probe in cc
  probe-set_found (suc f) t p v b a e n h = elim (ℕ_discrete (get_or t b 0) 0) [
    | yes z ↦ absurd (n (some-injective _ _ (sym h ∙ probe_empty f t b z)))
    | no nz ↦
        let same : get_or (set t p v) b 0 ≡ get_or t b 0 =
          get_or-set_ne t p b v 0 (λ q. nz (ap (λ c. get_or t c 0) (sym q) ∙ e)) in
        elim (Bool-cases (str_eq (name_of es (get_or t b 0 - 1)) x)) [
          | inl y ↦
              probe_match f (set t p v) b (rw same nz) (rw same y)
              ∙ ap (λ c. some (script_of es (c - 1))) same
              ∙ sym (probe_match f t b nz y)
              ∙ h
          | inr y ↦
              probe-next f (set t p v) b (rw same nz) (rw same y)
              ∙ probe-set_found f t p v (next nb b) a e n (sym (probe-next f t b nz y) ∙ h)
        ]
  ]

  -- A walk for a name that is not there finds the entry put into the first empty bucket.
  pub probe-set_new :
      (f : ℕ) (t : List ℕ) (p i b : ℕ)
      → find_empty f t nb b ≡ some p
      → p < length t
      → get_or t p 0 ≡ 0
      → NoMatch t
      → str_eq (name_of es i) x ≡ true
      → probe f es (set t p (suc i)) nb x b ≡ some (script_of es i)
  unfolding find_empty
  probe-set_new zero t p i b h hp e no_match y = cc
  probe-set_new (suc f) t p i b h hp e no_match y = elim (ℕ_discrete (get_or t b 0) 0) [
    | yes z ↦
        let here : b ≡ p = ground arith in
        let v : get_or (set t p (suc i)) b 0 ≡ suc i =
          ap (λ c. get_or (set t p (suc i)) c 0) here ∙ get_or-set_self t p (suc i) 0 hp in
        let w : get_or (set t p (suc i)) b 0 - 1 ≡ i = omega arith in
        probe_match f (set t p (suc i)) b (omega arith) (rw w y) ∙ ap (λ c. some (script_of es c)) w
    | no nz ↦
        let same : get_or (set t p (suc i)) b 0 ≡ get_or t b 0 =
          get_or-set_ne t p b (suc i) 0 (λ q. nz (ap (λ c. get_or t c 0) (sym q) ∙ e)) in
        probe-next f (set t p (suc i)) b (rw same nz) (rw same (no_match b nz))
        ∙ probe-set_new f t p i (next nb b) (ground arith) hp e no_match y
  ]
