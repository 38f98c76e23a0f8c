-- ===== src/Redact.antt =====
-- core/redact.c: the patterns of secrets, and the replacement of the tokens of a log text that match
-- one. The state is the table of patterns up to `g_pattern_count`; what stands behind is not read.
use retrace.Prelude.{
  ℕ, zero, suc, ◌+◌, ◌-◌, Bool, true, false, not, ◌&&◌, ◌||◌, Option, none, some, List, [], ◌∷◌,
  ◌++◌, ltb, leb, ◌==◌, if◌then◌else◌, CStr, length, take, drop, replicate, min,
}
use retrace.Glob.{Move, eat, star, miss, glob}
pub mod Patterns
pub mod Wildcards
pub mod Tokens
mod Tests

abbrev pub patterns_max : ℕ
patterns_max = 32

abbrev pub pattern_len : ℕ
pattern_len = 128

abbrev pub replacements_max : ℕ
replacements_max = 64

unfoldable pub is_token_char : ℕ → Bool
is_token_char c =
    (leb b'a' c && leb c b'z')
    || (leb b'A' c && leb c b'Z')
    || (leb b'0' c && leb c b'9')
    || c == b'_'
    || c == b'='
    || c == b'.'
    || c == b':'
    || c == b'+'
    || c == b'@'
    || c == b'%'
    || c == b'~'
    || c == b'-'

-- `len == 0 || len >= REDACT_PATTERN_LEN` is skipped.
unfoldable pub fits : CStr → Bool
fits s = not (length s == 0) && ltb (length s) pattern_len

-- The loop of `retrace_redact_set`, with the patterns that are in the table.
unfoldable pub set_loop : ℕ → List (Option CStr) → List CStr
unfolding fits
set_loop count [] = []
set_loop count (none ∷ rest) = if ltb count patterns_max then set_loop count rest else []
set_loop count (some s ∷ rest) =
    let kept = s ∷ set_loop (count + 1) rest in
    let skipped = set_loop count rest in
    if not (ltb count patterns_max) then [] else if fits s then kept else skipped

-- `retrace_redact_set`
unfoldable pub set_patterns : Option (List (Option CStr)) → List CStr
unfolding set_loop
set_patterns none = []
set_patterns (some l) = set_loop 0 l

-- Up to the next comma, and from there.
unfoldable pub field : CStr → CStr
field [] = []
field (c ∷ s) = if c == b',' then [] else c ∷ field s

unfoldable pub after_field : CStr → CStr
after_field [] = []
after_field (c ∷ s) = if c == b',' then s else after_field s

-- The loop of `retrace_redact_set_csv`; no fuel is `none`.
abbrev pub with_field : CStr → Option (List CStr) → Option (List CStr)
with_field s none = none
with_field s (some l) = some (s ∷ l)

unfoldable pub csv_loop : ℕ → ℕ → CStr → Option (List CStr)
unfolding field after_field fits
csv_loop zero count p = none
csv_loop (suc f) count [] = some []
csv_loop (suc f) count (c ∷ s) =
    let kept = with_field (field (c ∷ s)) (csv_loop f (count + 1) (after_field (c ∷ s))) in
    let skipped = csv_loop f count (after_field (c ∷ s)) in
    if not (ltb count patterns_max) then some [] else if fits (field (c ∷ s)) then kept else skipped

-- `retrace_redact_set_csv`
unfoldable pub set_csv : Option CStr → Option (List CStr)
unfolding csv_loop
set_csv none = some []
set_csv (some csv) = csv_loop (length csv + 1) 0 csv

-- `retrace_redact_active`
unfoldable pub active : List CStr → Bool
active [] = false
active (_ ∷ _) = true

-- The body of the loop of `glob_whole`.
unfoldable pub move : CStr → ℕ → Move
move [] c = miss
move (x ∷ p) c = if x == b'*' then star p else if x == c then eat p else miss

unfoldable pub glob_whole : CStr → CStr → Option Bool
unfolding move glob
glob_whole tok pat = glob move pat tok

-- The loop over the patterns.
unfoldable pub is_hit : List CStr → CStr → Option Bool
unfolding glob_whole
is_hit [] tok = some false
is_hit (pat ∷ pats) tok = elim (glob_whole tok pat) [
  | none ↦ none
  | some b ↦ if b then some true else is_hit pats tok
]

-- The token at the head of the text, and what follows it.
unfoldable pub token : CStr → CStr
unfolding is_token_char
token [] = []
token (c ∷ s) = if is_token_char c then c ∷ token s else []

unfoldable pub after_token : CStr → CStr
unfolding is_token_char
after_token [] = []
after_token (c ∷ s) = if is_token_char c then after_token s else c ∷ s

-- `reps` stars.
unfoldable pub stars : CStr → CStr
stars tok = replicate (if ltb (length tok) 3 then length tok else 3) b'*'

-- What the scan has passed stays in front.
abbrev pub behind : CStr → Option (CStr × ℕ) → Option (CStr × ℕ)
behind pre none = none
behind pre (some (s, budget)) = some (pre ++ s, budget)

module _ (pats : List CStr) where
  -- What is done with a token, given whether it is a hit.
  unfoldable pub replace : Option Bool → CStr → (ℕ → Option (CStr × ℕ)) → ℕ → Option (CStr × ℕ)
  unfolding stars
  replace none tok next budget = none
  replace (some true) tok next budget = behind (stars tok) (next (budget - 1))
  replace (some false) tok next budget = behind tok (next budget)

  -- The loop from `cur`, with the budget that is left at its end.
  unfoldable pub apply_loop : ℕ → ℕ → CStr → Option (CStr × ℕ)
  unfolding is_token_char is_hit token after_token replace
  apply_loop zero budget s = none
  apply_loop (suc f) budget [] = some ([], budget)
  apply_loop (suc f) budget (c ∷ s) =
      let passed = behind (c ∷ []) (apply_loop f budget s) in
      let tok = token (c ∷ s) in
      let replaced =
        replace (is_hit pats tok) tok (λ b. apply_loop f b (after_token (c ∷ s))) budget in
      if budget == 0
      then some (c ∷ s, budget)
      else if not (is_token_char c)
      then passed
      else replaced

  -- `retrace_redact_apply` on a buffer that is not NULL.
  unfoldable pub apply : CStr → Option (CStr × ℕ)
  unfolding apply_loop active
  apply s =
      if active pats
      then apply_loop (length s + 1) replacements_max s
      else some (s, replacements_max)
