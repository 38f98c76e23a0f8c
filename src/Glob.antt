-- ===== src/Glob.antt =====
-- The iterative glob loop of core/filter_dsl.c (`retrace_filter_glob_match`) and of core/redact.c
-- (`glob_whole`). Both walk the pattern and the text with one saved star; they differ in what a
-- step at a text byte does, which is the parameter `move`.
use retrace.Prelude.{
  ℕ, zero, suc, ◌+◌, ◌*◌, Bool, true, false, Option, none, some, List, [], ◌∷◌, ◌==◌, if◌then◌else◌,
  CStr, length,
}
pub mod Matching
pub mod Law
pub mod Deciding
pub mod Ending

-- The byte `*`.
abbrev pub asterisk : ℕ
asterisk = 42

-- What the loop does at the text byte: the rest of the pattern after the byte is consumed, the
-- pattern after a star, or a mismatch.
pub data Move : Type 0 where
  eat : CStr → Move
  star : CStr → Move
  miss : Move

-- `star_p + 1` and `star_t`, when a star was seen.
abbrev pub Saved : Type 0
Saved = Option (CStr × CStr)

abbrev pub Round : Type 0
Round = CStr → CStr → Saved → Option Bool

-- `p = star_p + 1; t = ++star_t`, or the early `return 0`; a read past the text is `none`.
unfoldable pub retry : Saved → Round → Option Bool
retry none next = some false
retry (some (bp, [])) next = none
retry (some (bp, _ ∷ bt)) next = next bp bt (some (bp, bt))

-- The stars that are left, and then the end of the pattern.
unfoldable pub only_stars : CStr → Bool
only_stars [] = true
only_stars (c ∷ p) = if c == asterisk then only_stars p else false

-- One round at the text byte `c`.
unfoldable pub turn : Move → CStr → CStr → Saved → Round → Option Bool
turn (eat q) t rest saved next = next q rest saved
turn (star q) t rest saved next = next q t (some (q, t))
turn miss t rest saved next = retry saved next

module _ (move : CStr → ℕ → Move) where
  -- The loop; no fuel is `none`.
  unfoldable pub loop : ℕ → CStr → CStr → Saved → Option Bool
  loop zero p t saved = none
  loop (suc f) p [] saved = some (only_stars p)
  loop (suc f) p (c ∷ t) saved = turn (move p c) (c ∷ t) t saved (loop f)

  unfoldable pub glob : CStr → CStr → Option Bool
  unfolding loop turn retry only_stars
  glob p t = loop ((length t + 1) * (length p + 1)) p t none
