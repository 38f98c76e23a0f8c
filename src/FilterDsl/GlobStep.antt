-- ===== src/FilterDsl/GlobStep.antt =====
-- core/filter_dsl.c: `retrace_filter_glob_match`. The body of its loop is `move`; the loop itself is
-- that of `Glob`. `char_le` is the order of plain `char`, which is the platform's.
use retrace.Prelude.{
  ℕ, Bool, true, false, not, ◌&&◌, ◌||◌, Option, none, some, [], ◌∷◌, ◌==◌, if◌then◌else◌, CStr,
}
use retrace.Glob.{Move, eat, star, miss, glob}

-- `p[1] != '\0'`
unfoldable pub goes_on : CStr → Bool
goes_on [] = false
goes_on (_ ∷ _) = true

unfoldable pub negated : Option (Bool × CStr) → Option (Bool × CStr)
negated none = none
negated (some (matched, q)) = some (not matched, q)

-- `p += 2; t++`
unfoldable pub escaped : CStr → ℕ → Move
escaped [] c = miss
escaped (e ∷ p) c = if c == e then eat p else miss

-- After the scan of a class: an unterminated class is a literal `[`.
unfoldable pub after_class : Option (Bool × CStr) → CStr → ℕ → Move
after_class none p c = if c == b'[' then eat p else miss
after_class (some (true, q)) p c = eat q
after_class (some (false, q)) p c = miss

module _ (char_le : ℕ → ℕ → Bool) where
  unfoldable pub in_range : ℕ → ℕ → ℕ → Bool
  in_range a b c = char_le a c && char_le c b

  -- `while (*q != ']' && *q != '\0')`: whether the class matched, and what follows its `]`.
  unfoldable pub class_loop : ℕ → Bool → CStr → Option (Bool × CStr)
  unfolding in_range
  class_loop c matched [] = none
  class_loop c matched (a ∷ []) =
      let single = class_loop c (matched || c == a) [] in
      if a == b']' then some (matched, []) else single
  class_loop c matched (a ∷ b ∷ []) =
      let single = class_loop c (matched || c == a) (b ∷ []) in
      if a == b']' then some (matched, b ∷ []) else single
  class_loop c matched (a ∷ b ∷ d ∷ q) =
      let range = class_loop c (matched || in_range a d c) q in
      let single = class_loop c (matched || c == a) (b ∷ d ∷ q) in
      if a == b']'
      then some (matched, b ∷ d ∷ q)
      else if b == b'-' && not (d == b']')
      then range
      else single

  -- A `]` that stands first is a literal.
  unfoldable pub class_first : ℕ → CStr → Option (Bool × CStr)
  unfolding class_loop
  class_first c [] = none
  class_first c (x ∷ q) =
      if x == b']' then class_loop c (c == b']') q else class_loop c false (x ∷ q)

  -- The whole `[...]` branch, from the byte after `[`: `matched != negate`, and the rest.
  unfoldable pub class_at : ℕ → CStr → Option (Bool × CStr)
  unfolding class_first negated
  class_at c [] = none
  class_at c (x ∷ q) =
      if x == b'!' || x == b'^' then negated (class_first c q) else class_first c (x ∷ q)

  unfoldable pub move : CStr → ℕ → Move
  unfolding goes_on escaped class_at after_class
  move [] c = miss
  move (x ∷ p) c =
      if x == b'?'
      then eat p
      else if x == b'\\' && goes_on p
      then escaped p c
      else if x == b'['
      then after_class (class_at c p) p c
      else if x == c
      then eat p
      else if x == b'*'
      then star p
      else miss

  -- A NULL pattern or text does not match; the outer `none` is a loop that does not end.
  unfoldable pub glob_match : Option CStr → Option CStr → Option Bool
  unfolding move glob
  glob_match (some pattern) (some text) = glob move pattern text
  glob_match none _ = some false
  glob_match (some _) none = some false
