-- ===== src/FilterDsl/Operands.antt =====
-- What an operand of the parser leaves: a place within the text, and the same nodes.
use retrace.Prelude.{
  ℕ, zero, suc, ◌+◌, ◌-◌, ◌*◌, ◌≤◌, ◌≡◌, refl, inl, inr, Bool, true, false, not, ◌&&◌, ◌||◌, none,
  some, [], ◌∷◌, arith, leb, ◌==◌, if◌then◌else◌, CStr, codes, length, drop, get_or, Bool-cases,
  Option-cases,
}
use retrace.FilterDsl.Ast.{Operand, num, Parser, Outcome, ok, error, undefined, no_fuel, ◌>>=◌}
use retrace.FilterDsl.Lexing.{
  run, advance, expected_operand, is_alpha, at_keyword, skip_ws, perr, is_digit, is_ident_char,
  string_body, digits, signed, arena_push, node_new, node_cap, parse_string, parse_number,
  parse_name, operand_at, parse_operand,
}

-- The outcome is a value with the property, an error at a place within `n` bytes, or undefined
-- behaviour; it is never a lack of fuel.
abbrev pub Post : {A : Type 0} → ℕ → (A → Type 0) → Outcome A → Type 0
Post n Q (ok a) = Q a
Post n Q (error place msg) = place ≤ n
Post n Q undefined = Unit
Post n Q no_fuel = ⊥

pub Post-bind :
    {A B : Type 0} (n : ℕ) (Q : A → Type 0) (R : B → Type 0) (r : Outcome A) (k : A → Outcome B)
    → Post n Q r
    → ((a : A) → Q a → Post n R (k a))
    → Post n R (r >>= k)
unfolding ◌>>=◌
Post-bind n Q R (ok a) k q h = h a q
Post-bind n Q R (error place msg) k q h = q
Post-bind n Q R undefined k q h = tt
Post-bind n Q R no_fuel k q h = q

pub Post-if :
    {A : Type 0} (n : ℕ) (Q : A → Type 0) (b : Bool) (x y : Outcome A)
    → ((b ≡ true) → Post n Q x)
    → ((b ≡ false) → Post n Q y)
    → Post n Q (if b then x else y)
Post-if n Q true x y f g = f refl
Post-if n Q false x y f g = g refl

-- In a text of `total` bytes, with at most `left` to read, and `nodes` nodes made.
abbrev pub At : ℕ → ℕ → ℕ → Parser → Type 0
At total left nodes p =
    (length p.text ≤ left)
    × (p.pos + length p.text ≡ total)
    × (p.node_cnt ≡ nodes)
    × (nodes ≤ node_cap)

length-drop : (n : ℕ) (s : CStr) → length (drop n s) ≡ length s - n
length-drop zero s = omega arith
length-drop (suc n) [] = omega arith
length-drop (suc n) (c ∷ s) = omega (arith, length-drop n s)

run-le : (f : ℕ → Bool) (s : CStr) → run f s ≤ length s
unfolding run
run-le f [] = omega arith
run-le f (c ∷ s) = ground (arith, run-le f s)

pub advance-At :
    (total left nodes n : ℕ) (p : Parser)
    → n ≤ length p.text
    → At total left nodes p
    → At total (left - n) nodes (advance n p)
unfolding advance
advance-At total left nodes n p h (a, b, c, d) =
    (omega (arith, length-drop n p.text), omega (arith, length-drop n p.text), c, d)

pub At-le : (total m n nodes : ℕ) (p : Parser) → m ≤ n → At total m nodes p → At total n nodes p
At-le total m n nodes p h (a, b, c, d) = (omega arith, b, c, d)

pub advance-At_le :
    (total left nodes n : ℕ) (p : Parser)
    → n ≤ length p.text
    → At total left nodes p
    → At total left nodes (advance n p)
advance-At_le total left nodes n p h a =
    At-le total (left - n) left nodes (advance n p) (omega arith)
      (advance-At total left nodes n p h a)

pub skip_ws-At :
    (total left nodes : ℕ) (p : Parser) → At total left nodes p → At total left nodes (skip_ws p)
unfolding skip_ws
skip_ws-At total left nodes p a = advance-At_le total left nodes _ p (run-le _ p.text) a

-- A byte that is not the end of the text stands at the head.
pub head_there : (s : CStr) (c : ℕ) → (get_or s 0 0 == suc c) ≡ true → 1 ≤ length s
head_there [] c e = ground arith
head_there (x ∷ s) c e = omega arith

module _ (malloc_ok : ℕ → Bool) (total left nodes : ℕ) where
  abbrev Here : Parser → Type 0
  Here = At total left nodes

  abbrev pub OperandPost : Operand × Parser → Type 0
  OperandPost op = At total left nodes op.1

  perr-Post :
      {A : Type 0} (Q : A → Type 0) (p : Parser) (msg : CStr) → Here p → Post total Q (perr p msg)
  unfolding perr
  perr-Post Q p msg (a, b, c, d) = omega arith

  arena_push-Post : (n : ℕ) (p : Parser) → Here p → Post total Here (arena_push malloc_ok n p)
  unfolding arena_push perr
  arena_push-Post n p (a, b, c, d) =
      Post-if total Here (leb (p.arena_len + n) p.arena_cap) _ _ (λ _. (a, b, c, d))
        λ _.
          Post-if total Here (not (malloc_ok (p.arena_cap * 2 + n + 64))) _ _ (λ _. omega arith)
            λ _. Post-if total Here (p.arena_len == 0) _ undefined (λ _. (a, b, c, d)) (λ _. tt)

  room : (n : ℕ) → not (n == 16) ≡ true → n ≡ nodes → nodes ≤ 16 → nodes + 1 ≤ 16
  room n e h k = ground arith

  pub node_new-Post :
      (p : Parser) → Here p → Post total (At total left (nodes + 1)) (node_new malloc_ok p)
  unfolding node_new perr
  node_new-Post p (a, b, c, d) =
      Post-if total (At total left (nodes + 1)) (not (p.node_cnt == 16)) _ _
        (λ e. (a, b, omega arith, room p.node_cnt e c d))
        λ _.
          Post-if total (At total left (nodes + 1)) (malloc_ok 3840) undefined _ (λ _. tt)
            (λ _. omega arith)

  place : (p : Parser) → Here p → p.pos + length p.text ≤ total
  place p (a, b, c, d) = omega arith

  from_Here : (p : Parser) → Here p → Here (if get_or p.text 0 0 == b'-' then advance 1 p else p)
  from_Here p h = elim (Bool-cases (get_or p.text 0 0 == b'-')) [
    | inl e ↦ rw e (advance-At_le total left nodes 1 p (head_there p.text 44 e) h)
    | inr e ↦ rw e h
  ]

  digits-Post :
      (neg : Bool) (q : Parser)
      → Here q
      → Post total OperandPost (elim (digits 0 q.text) [
        | none ↦ undefined
        | some v ↦ ok (num (signed neg v), advance (run is_digit q.text) q)
      ])
  digits-Post neg q h = elim (Option-cases (digits 0 q.text)) [
    | inl e ↦ rw e tt
    | inr (v, e) ↦ rw e (advance-At_le total left nodes _ q (run-le is_digit q.text) h)
  ]

  parse_string-Post : (p : Parser) → Here p → Post total OperandPost (parse_string malloc_ok p)
  unfolding parse_string
  parse_string-Post p h = elim (Option-cases (string_body (drop 1 p.text))) [
    | inl e ↦ rw (e, parse_string) (place p h)
    | inr (br, e) ↦
        rw (e, parse_string)
          (Post-bind total Here OperandPost _ _
            (arena_push-Post (length br.0 + 1) _
              (advance-At_le total left nodes (length p.text - length br.1) p (omega arith) h))
            (λ q a. a))
  ]

  parse_number-Post : (p : Parser) → Here p → Post total OperandPost (parse_number malloc_ok p)
  unfolding parse_number
  parse_number-Post p h =
      let neg = get_or p.text 0 0 == b'-' in
      let from = if neg then advance 1 p else p in
      Post-if total OperandPost (run is_digit from.text == 0) (perr p _) _
        (λ _. perr-Post OperandPost p (codes "bad number") h)
        (λ _. digits-Post neg from (from_Here p h))

  parse_name-Post : (p : Parser) → Here p → Post total OperandPost (parse_name malloc_ok p)
  unfolding parse_name
  parse_name-Post p h =
      Post-bind total Here OperandPost _ _
        (arena_push-Post _ _ (advance-At_le total left nodes _ p (run-le is_ident_char p.text) h))
        (λ q a. a)

  operand_at-Post : (p : Parser) → Here p → Post total OperandPost (operand_at malloc_ok p)
  unfolding operand_at
  operand_at-Post p h =
      let c = get_or p.text 0 0 in
      Post-if total OperandPost (c == b'"') (parse_string malloc_ok p) _
        (λ _. parse_string-Post p h)
        λ _.
          Post-if total OperandPost (is_digit c || c == b'-' && is_digit (get_or p.text 1 0))
            (parse_number malloc_ok p) _ (λ _. parse_number-Post p h)
            λ _.
              Post-if total OperandPost
                (at_keyword (codes "and") p.text
                  || at_keyword (codes "or") p.text
                  || at_keyword (codes "not") p.text)
                (perr p expected_operand) _ (λ _. perr-Post OperandPost p expected_operand h)
                λ _.
                  Post-if total OperandPost (is_alpha c || c == b'_') (parse_name malloc_ok p)
                    (perr p expected_operand) (λ _. parse_name-Post p h)
                    (λ _. perr-Post OperandPost p expected_operand h)

  pub parse_operand-Post :
      (p : Parser) → Here p → Post total OperandPost (parse_operand malloc_ok p)
  unfolding parse_operand
  parse_operand-Post p h = operand_at-Post (skip_ws p) (skip_ws-At total left nodes p h)
