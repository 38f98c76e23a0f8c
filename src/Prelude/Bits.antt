-- ===== src/Prelude/Bits.antt =====
-- `&` with a low mask, `|` of disjoint fields, and the power-of-two test, as arithmetic.
use Prim.Native.Nat.{
  ℕ, zero, suc, ◌+◌, ◌-◌, ◌*◌, ◌/◌, ◌%◌, ◌^◌, ◌≤◌, ◌<◌, min, max, digits, bitwise, bit_and, bit_or,
  bit_and-bitwise, bit_or-bitwise,
}
use mathlib.Core.Path.{◌≡◌, refl, ap}
use mathlib.Core.Logic.{◌≢◌, ◌⊎◌, inl, inr}
use native.Mathlib.Nat.{pow-suc, one-le-pow}
use native.Mathlib.Omega.{arith}

-- The fuel of `digits` does not matter where it is enough.
module _ (rest : ℕ → ℕ) (op : ℕ → ℕ → ℕ) where
  enough_digits : (n m x y : ℕ) → x ≤ n → x ≤ m → digits rest op n x y ≡ digits rest op m x y
  enough_digits zero zero zero y p q = refl
  enough_digits zero (suc m) zero y p q = refl
  enough_digits (suc n) zero zero y p q = refl
  enough_digits (suc n) (suc m) zero y p q = refl
  enough_digits zero m (suc x) y p q = absurd (omega arith)
  enough_digits (suc n) zero (suc x) y p q = absurd (omega arith)
  enough_digits (suc n) (suc m) (suc x) y p q =
      ap (λ t. t * 2 + op (suc x % 2) (y % 2))
        (enough_digits n m (suc x / 2) (y / 2) (omega arith) (omega arith))

  digit_apart :
      (x y : ℕ)
      → bitwise rest op (suc x) y ≡ 2 * bitwise rest op (suc x / 2) (y / 2) + op (suc x % 2) (y % 2)
  digit_apart x y =
      let same = enough_digits x (suc x / 2) (suc x / 2) (y / 2) (omega arith) (omega arith) in
      omega (arith, same)

bit_and_low : (a b : ℕ) → bit_and a b ≡ bit_and (a / 2) (b / 2) * 2 + min (a % 2) (b % 2)
bit_and_low zero b = simp bit_and-bitwise (omega arith)
bit_and_low (suc a) b = simp bit_and-bitwise (omega (arith, digit_apart (λ y. 0) min a b))

bit_or_low : (a b : ℕ) → bit_or a b ≡ bit_or (a / 2) (b / 2) * 2 + max (a % 2) (b % 2)
bit_or_low zero b = simp bit_or-bitwise (omega arith)
bit_or_low (suc a) b = simp bit_or-bitwise (omega (arith, digit_apart (λ y. y) max a b))

zero-bit_or : (b : ℕ) → bit_or 0 b ≡ b
zero-bit_or b = simp bit_or-bitwise

bit_and-zero : (n a : ℕ) → a ≤ n → bit_and a 0 ≡ 0
bit_and-zero n zero h = refl
bit_and-zero zero (suc a) h = absurd (omega arith)
bit_and-zero (suc n) (suc a) h =
    omega (arith, bit_and_low (suc a) 0, bit_and-zero n (suc a / 2) (omega arith))

bit_and_self : (n a : ℕ) → a ≤ n → bit_and a a ≡ a
bit_and_self n zero h = refl
bit_and_self zero (suc a) h = absurd (omega arith)
bit_and_self (suc n) (suc a) h =
    omega (arith, bit_and_low (suc a) (suc a), bit_and_self n (suc a / 2) (omega arith))

twice : (q k : ℕ) → q * 2 ^ suc k ≡ 2 * (q * 2 ^ k)
twice q k = omega (arith, ap (λ (t : ℕ). q * t) (pow-suc 2 k))

-- `r | (q << k)` is a sum where `r` has `k` bits.
pub bit_or_field : (k r q : ℕ) → r < 2 ^ k → bit_or r (q * 2 ^ k) ≡ r + q * 2 ^ k
bit_or_field zero zero q h = rw zero-bit_or (omega arith)
bit_or_field zero (suc r) q h = absurd (omega arith)
bit_or_field (suc k) r q h =
    ground (arith, bit_or_low r (q * 2 ^ suc k), twice q k, pow-suc 2 k, bit_or_field k (r / 2) q)

masked : (k r q : ℕ) → r < 2 ^ k → bit_and (r + q * 2 ^ k) (2 ^ k - 1) ≡ r
masked zero r q h = omega (arith, bit_and-zero (r + q * 1) (r + q * 1))
masked (suc k) r q h = ground (
  arith,
  bit_and_low (r + q * 2 ^ suc k) (2 ^ suc k - 1),
  twice q k,
  pow-suc 2 k,
  masked k (r / 2) q,
)

-- `a & (2^k - 1)` is the remainder by `2^k`.
pub bit_and_mask : (k a : ℕ) → bit_and a (2 ^ k - 1) ≡ a % 2 ^ k
bit_and_mask k a = ground (arith, one-le-pow k 2, masked k (a % 2 ^ k) (a / 2 ^ k))

parity : (c : ℕ) → (c ≡ 2 * (c / 2)) ⊎ (c ≡ 2 * (c / 2) + 1)
parity c = grind arith

-- Lowest digits of `c & (c - 1)`, for the two parities of `c`.
pred_even : (d : ℕ) → 0 < d → bit_and (2 * d) (2 * d - 1) ≡ bit_and d (d - 1) * 2
pred_even d h = ground (arith, bit_and_low (2 * d) (2 * d - 1))

pred_odd : (d : ℕ) → bit_and (2 * d + 1) (2 * d + 1 - 1) ≡ d * 2
pred_odd d = ground (arith, bit_and_low (2 * d + 1) (2 * d + 1 - 1), bit_and_self d d)

-- `c & (c - 1)` is zero only at the powers of two.
pub pow_two_of_bit_and : (n c : ℕ) → c ≤ n → c ≢ 0 → bit_and c (c - 1) ≡ 0 → (k : ℕ) × (c ≡ 2 ^ k)
pow_two_of_bit_and zero c h p e = absurd (omega arith)
pow_two_of_bit_and (suc n) c h p e = elim (parity c) [
  | inl even ↦
      let (k, q) =
        pow_two_of_bit_and n (c / 2) (omega arith) (omega arith)
          (ground (arith, pred_even (c / 2), ap (λ t. bit_and t (t - 1)) even)) in
      (suc k, omega (arith, pow-suc 2 k))
  | inr odd ↦ (0, ground (arith, pred_odd (c / 2), ap (λ t. bit_and t (t - 1)) odd))
]

pub bit_and_pow_two : (k : ℕ) → bit_and (2 ^ k) (2 ^ k - 1) ≡ 0
bit_and_pow_two k = ground (arith, masked k 0 1, one-le-pow k 2)
