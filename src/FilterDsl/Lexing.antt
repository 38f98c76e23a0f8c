-- ===== src/FilterDsl/Lexing.antt =====
-- core/filter_dsl.c: the character classes, the arena and the node array, and `parse_operand`.
-- `malloc_ok` says which sizes the allocator of the platform grants.
use retrace.Prelude.{
  ℕ, zero, suc, ◌+◌, ◌-◌, ◌*◌, ◌^◌, Bool, true, false, not, ◌&&◌, ◌||◌, Option, none, some, [], ◌∷◌,
  ltb, leb, ◌==◌, if◌then◌else◌, CStr, codes, str_eq, length, get_or, take, drop,
}
use retrace.Prelude.Int.{ℤ, pos, negsuc}
use retrace.FilterDsl.Ast.{
  Operand, num, str, param, func, ret, caller, Parser, Outcome, ok, error, undefined, ◌>>=◌,
}

unfoldable pub is_digit : ℕ → Bool
is_digit c = leb b'0' c && leb c b'9'

unfoldable pub is_alpha : ℕ → Bool
is_alpha c = (leb b'a' c && leb c b'z') || (leb b'A' c && leb c b'Z')

unfoldable pub is_ident_char : ℕ → Bool
unfolding is_alpha is_digit
is_ident_char c = is_alpha c || is_digit c || c == b'_'

-- The length of the run of bytes with the property at the head of the text.
unfoldable pub run : (ℕ → Bool) → CStr → ℕ
run f [] = 0
run f (c ∷ s) = if f c then suc (run f s) else 0

-- `p->pos += n`
unfoldable pub advance : ℕ → Parser → Parser
advance n p = record p { text = drop n p.text; pos = p.pos + n }

unfoldable pub skip_ws : Parser → Parser
unfolding run advance
skip_ws p = advance (run (λ c. c == b' ' || c == b'\t') p.text) p

-- `strncmp(s, kw, strlen(kw)) == 0`
unfoldable pub has_prefix : CStr → CStr → Bool
has_prefix [] s = true
has_prefix (k ∷ kw) [] = false
has_prefix (k ∷ kw) (c ∷ s) = k == c && has_prefix kw s

unfoldable pub at_keyword : CStr → CStr → Bool
unfolding has_prefix is_ident_char
at_keyword kw s = has_prefix kw s && not (is_ident_char (get_or s (length kw) 0))

-- `perr` with the place `at`.
unfoldable pub perr : {A : Type 0} → Parser → CStr → Outcome A
perr p msg = error p.pos msg

-- Up to the closing quote with the escapes removed, and what follows the quote.
abbrev pub with_byte : ℕ → Option (CStr × CStr) → Option (CStr × CStr)
with_byte c none = none
with_byte c (some (body, rest)) = some (c ∷ body, rest)

unfoldable pub string_body : CStr → Option (CStr × CStr)
string_body [] = none
string_body (c ∷ []) = if c == b'"' then some ([], []) else none
string_body (c ∷ d ∷ s) =
    let quoted = with_byte d (string_body s) in
    let plain = with_byte c (string_body (d ∷ s)) in
    if c == b'"' then some ([], d ∷ s) else if c == b'\\' then quoted else plain

-- The value of the digits; `none` is an overflow of `long long`.
unfoldable pub digits : ℕ → CStr → Option ℕ
unfolding is_digit
digits v [] = some v
digits v (c ∷ s) =
    let more = digits (v * 10 + (c - b'0')) s in
    if is_digit c then (if ltb (v * 10 + (c - b'0')) (2 ^ 63) then more else none) else some v

-- The kind of a name.
unfoldable pub name_operand : CStr → Operand
name_operand name =
    if str_eq name (codes "func")
    then func name
    else if str_eq name (codes "ret")
    then ret name
    else if str_eq name (codes "caller")
    then caller name
    else param name

-- `neg ? -v : v`
unfoldable pub signed : Bool → ℕ → ℤ
signed true zero = pos 0
signed true (suc n) = negsuc n
signed false n = pos n

-- `node_cap`, and `sizeof(struct fnode)` with 64-bit pointers.
abbrev pub node_cap : ℕ
node_cap = 16

abbrev pub node_size : ℕ
node_size = 80

abbrev pub expected_operand : CStr
expected_operand = codes "expected operand (name, number, or \"string\")"

-- `retrace_real_impls.malloc` grants the size.
module _ (malloc_ok : ℕ → Bool) where
  -- A growth that moves slices which the operands point to leaves them behind.
  unfoldable pub arena_push : ℕ → Parser → Outcome Parser
  unfolding perr
  arena_push n p =
      let want = p.arena_cap * 2 + n + 64 in
      if leb (p.arena_len + n) p.arena_cap
      then ok (record p { arena_len = p.arena_len + n })
      else if not (malloc_ok want)
      then perr p (codes "out of memory")
      else if p.arena_len == 0
      then ok (record p { arena_cap = want; arena_len = n })
      else undefined

  -- A growth moves the nodes that the parser and the nodes point to.
  unfoldable pub node_new : Parser → Outcome Parser
  unfolding perr
  node_new p =
      if not (p.node_cnt == node_cap)
      then ok (record p { node_cnt = p.node_cnt + 1 })
      else if malloc_ok ((node_cap * 2 + 16) * node_size)
      then undefined
      else perr p (codes "out of memory")

  -- From the opening quote.
  unfoldable pub parse_string : Parser → Outcome (Operand × Parser)
  unfolding string_body arena_push advance
  parse_string p = elim (string_body (drop 1 p.text)) [
    | none ↦ error (p.pos + length p.text) (codes "unterminated string")
    | some (body, rest) ↦
        arena_push (length body + 1) (advance (length p.text - length rest) p) >>= λ p'.
        ok (str body, p')
  ]

  unfoldable pub parse_number : Parser → Outcome (Operand × Parser)
  unfolding digits signed run advance is_digit perr
  parse_number p =
      let neg = get_or p.text 0 0 == b'-' in
      let from = if neg then advance 1 p else p in
      let n = run is_digit from.text in
      if n == 0 then perr p (codes "bad number") else elim (digits 0 from.text) [
        | none ↦ undefined
        | some v ↦ ok (num (signed neg v), advance n from)
      ]

  unfoldable pub parse_name : Parser → Outcome (Operand × Parser)
  unfolding arena_push name_operand run is_ident_char advance
  parse_name p =
      let n = run is_ident_char p.text in
      arena_push (n + 1) (advance n p) >>= λ p'. ok (name_operand (take n p.text), p')

  unfoldable pub operand_at : Parser → Outcome (Operand × Parser)
  unfolding parse_string parse_number parse_name is_digit is_alpha at_keyword perr
  operand_at p =
      let c = get_or p.text 0 0 in
      if c == b'"'
      then parse_string p
      else if is_digit c || c == b'-' && is_digit (get_or p.text 1 0)
      then parse_number p
      else if at_keyword (codes "and") p.text
          || at_keyword (codes "or") p.text
          || at_keyword (codes "not") p.text
      then perr p expected_operand
      else if is_alpha c || c == b'_'
      then parse_name p
      else perr p expected_operand

  unfoldable pub parse_operand : Parser → Outcome (Operand × Parser)
  unfolding operand_at skip_ws
  parse_operand p = operand_at (skip_ws p)
