-- ===== src/Sockaddr/Numerals.antt =====
-- src/core/sockaddr_inspect.c: printed numbers, and the port that is read back.
use native.Mathlib.Omega.{pow_step}
use retrace.Prelude.{
  ℕ, zero, suc, ◌+◌, ◌-◌, ◌*◌, ◌/◌, ◌%◌, ◌^◌, ◌≤◌, ◌<◌, ◌≡◌, refl, sym, ap, ◌∙◌, inl, inr, true,
  false, ◌||◌, some, [], ◌∷◌, ◌++◌, arith, ◌==◌, ltb, CStr, Bool-cases,
}
use mathlib.Core.List.{append_assoc, append-nil}
use retrace.Sockaddr.{digit, print_in}
use retrace.Sockaddr.Match.{find_char, is_digit, port_loop, parse_port}

-- A decimal digit goes into the number that is read.
port_loop-digit :
    (v d : ℕ) (s : CStr)
    → d < 10
    → v * 10 + d ≤ 65535
    → port_loop v (digit d ∷ s) ≡ port_loop (v * 10 + d) s
unfolding port_loop digit
port_loop-digit v d s low fits =
    let low_test : ltb d 10 ≡ true = ground arith in
    let value : 48 + d - 48 ≡ d = omega arith in
    let is : is_digit (48 + d) ≡ true = ground arith in
    let small : ltb 65535 (v * 10 + d) ≡ false = ground arith in
    rw (low_test, value, is, small) refl

print_in-step :
    (fuel n : ℕ)
    → 10 ≤ n
    → print_in 10 (suc fuel) n ≡ print_in 10 fuel (n / 10) ++ digit (n % 10) ∷ []
unfolding print_in
print_in-step fuel n h = let more : ltb n 10 ≡ false = ground arith in rw more refl

-- What is printed of `n` in decimal is read as `n`.
port_loop-print_in :
    (fuel n : ℕ) (s : CStr)
    → n < 10 ^ fuel
    → n ≤ 65535
    → port_loop 0 (print_in 10 fuel n ++ s) ≡ port_loop n s
unfolding print_in
port_loop-print_in zero n s h fits = ap (λ v. port_loop v s) {x = 0} {y = n} (omega arith)
port_loop-print_in (suc fuel) n s h fits = elim (Bool-cases (ltb n 10)) [
  | inl t ↦
      let low : n < 10 = ground arith in
      rw t (
        port_loop-digit 0 n s low (omega arith)
        ∙ ap (λ v. port_loop v s) {x = 0 * 10 + n} {y = n} (omega arith))
  | inr t ↦
      let high : 10 ≤ n = ground arith in
      let front : n / 10 < 10 ^ fuel = omega (arith, h, pow_step 10 fuel) in
      let whole : n / 10 * 10 + n % 10 ≡ n = omega arith in
      rw t (
        ap (port_loop 0) (append_assoc (print_in 10 fuel (n / 10)) (digit (n % 10) ∷ []) s)
        ∙ port_loop-print_in fuel (n / 10) (digit (n % 10) ∷ s) front (omega arith)
        ∙ port_loop-digit (n / 10) (n % 10) s (omega arith) (omega (arith, whole))
        ∙ ap (λ v. port_loop v s) whole)
]

pub print_in-cons : (base fuel n : ℕ) → (c : ℕ) × (s : CStr) × (print_in base (suc fuel) n ≡ c ∷ s)
unfolding print_in
print_in-cons base fuel n = elim (Bool-cases (ltb n base)) [
  | inl t ↦ (digit n, [], rw t refl)
  | inr t ↦ rw t (front (print_in base fuel (n / base)))
]
  where
    front : (l : CStr) → (c : ℕ) × (s : CStr) × (l ++ digit (n % base) ∷ [] ≡ c ∷ s)
    front [] = (digit (n % base), [], refl)
    front (c ∷ l) = (c, l ++ digit (n % base) ∷ [], refl)

parse_port-loop : (c : ℕ) (s : CStr) → parse_port (c ∷ s) ≡ port_loop 0 (c ∷ s)
unfolding parse_port port_loop
parse_port-loop c s = elim (Bool-cases (is_digit c)) [ inl t ↦ rw t refl | inr t ↦ rw t refl ]

pub parse_port-print_in : (n : ℕ) → n ≤ 65535 → parse_port (print_in 10 5 n) ≡ some n
unfolding port_loop
parse_port-print_in n h =
    let (c, s, e) = print_in-cons 10 4 n in
    ap parse_port e
    ∙ parse_port-loop c s
    ∙ ap (port_loop 0) (sym e ∙ sym (append-nil (print_in 10 5 n)))
    ∙ port_loop-print_in 5 n [] (omega arith) h

pub find_char-append : (c : ℕ) (s t : CStr) → find_char c (s ++ t) ≡ find_char c s || find_char c t
unfolding find_char
find_char-append c [] t = refl
find_char-append c (d ∷ s) t = elim (Bool-cases (d == c)) [
  | inl e ↦ rw e refl
  | inr e ↦ rw e (find_char-append c s t)
]

digit-no_colon : (d : ℕ) → (digit d == 58) ≡ false
unfolding digit
digit-no_colon d = elim (Bool-cases (ltb d 10)) [
  | inl t ↦ rw t (ground arith)
  | inr t ↦ rw t (ground arith)
]

pub print_in-no_colon : (base fuel n : ℕ) → find_char 58 (print_in base fuel n) ≡ false
unfolding print_in find_char
print_in-no_colon base zero n = refl
print_in-no_colon base (suc fuel) n = elim (Bool-cases (ltb n base)) [
  | inl t ↦ rw (t, digit-no_colon n) refl
  | inr t ↦
      rw
        (
          t,
          find_char-append 58 (print_in base fuel (n / base)) (digit (n % base) ∷ []),
          print_in-no_colon base fuel (n / base),
          digit-no_colon (n % base),
        )
        refl
]
