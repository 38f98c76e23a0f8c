-- ===== src/CallerMatch.antt =====
-- src/core/caller_match.c: does a call's return address match a caller specification? `dladdr` is the
-- platform's (`rc_dladdr`); its answer for an address is an argument of every definition, and `none`
-- stands for failure. The answer of a matcher is the `int` that the source returns.
use retrace.Prelude.{
  ℕ, ◌+◌, ◌-◌, ◌%◌, ◌^◌, Bool, true, false, ◌||◌, Option, none, some, List, [], ◌∷◌, ◌==◌,
  if◌then◌else◌, CStr, codes, str_eq,
}
use retrace.Prelude.Int.{ℤ, pos, negsuc}
use retrace.CallerCache
use retrace.CallerCache.{Cache}
pub mod Base
pub mod Answers
mod Tests

-- `rc_dl_info_t`; a NULL module base is 0.
pub record DlInfo : Type 0 where
  pub sname : Option CStr
  pub fname : Option CStr
  pub fbase : ℕ

abbrev pub InfoCache : Type 0
InfoCache = Cache DlInfo

-- The loop of `path_basename`: `best` is what follows the last `/` so far.
unfoldable pub basename_from : CStr → CStr → CStr
basename_from [] best = best
basename_from (c ∷ p) best = basename_from p (if c == b'/' then p else best)

unfoldable pub path_basename : CStr → CStr
unfolding basename_from
path_basename path = basename_from path path

-- `expected == NULL || expected[0] == '\0'`
abbrev pub is_blank : Option CStr → Bool
is_blank none = true
is_blank (some s) = str_eq s []

abbrev pub same_text : Option CStr → Option CStr → Bool
same_text (some a) (some b) = str_eq a b
same_text _ _ = false

unfoldable pub match_address : ℕ → ℕ → ℤ
match_address ret_addr expected =
    if ret_addr == 0 then negsuc 0 else if ret_addr == expected then pos 1 else pos 0

-- What `match_symbol` answers for the information, and for none.
unfoldable pub symbol_verdict : Option CStr → Option DlInfo → ℤ
symbol_verdict expected none = negsuc 0
symbol_verdict expected (some info) =
    if is_blank info.sname then pos 0 else if same_text info.sname expected then pos 1 else pos 0

-- `(char *)ret_addr - (char *)dli_fbase` as an unsigned 64-bit offset
abbrev pub offset_in : ℕ → ℕ → ℕ
offset_in ret_addr fbase = (ret_addr + 2 ^ 64 - fbase) % 2 ^ 64

unfoldable pub module_verdict : ℕ → Option CStr → ℕ → Option DlInfo → ℤ
unfolding path_basename
module_verdict ret_addr expected offset none = negsuc 0
module_verdict ret_addr expected offset (some info) = elim info.fname [
  | none ↦ pos 0
  | some fname ↦
      if info.fbase == 0
      then pos 0
      else if same_text (some (path_basename fname)) expected
      then (if offset_in ret_addr info.fbase == offset then pos 1 else pos 0)
      else pos 0
]

module _ (dladdr : ℕ → Option DlInfo) where
  unfoldable pub cached_dladdr : ℕ → InfoCache → Option DlInfo × InfoCache
  cached_dladdr ret_addr c =
      let (found, c') = CallerCache.lookup ret_addr c in
      elim found [
        | some info ↦ (some info, c')
        | none ↦ elim (dladdr ret_addr) [
          | none ↦ (none, c')
          | some info ↦ (some info, CallerCache.insert ret_addr info c')
        ]
      ]

  unfoldable pub match_symbol : ℕ → Option CStr → InfoCache → ℤ × InfoCache
  unfolding symbol_verdict
  match_symbol ret_addr expected c =
      if ret_addr == 0 || is_blank expected
      then (negsuc 0, c)
      else let (info, c') = cached_dladdr ret_addr c in (symbol_verdict expected info, c')

  unfoldable pub match_module_offset : ℕ → Option CStr → ℕ → InfoCache → ℤ × InfoCache
  unfolding module_verdict
  match_module_offset ret_addr expected offset c =
      if ret_addr == 0 || is_blank expected
      then (negsuc 0, c)
      else let (info, c') = cached_dladdr ret_addr c in
        (module_verdict ret_addr expected offset info, c')

-- `enum retrace_caller_match_kind`
pub data MatchKind : Type 0 where
  unknown address symbol module_offset : MatchKind

unfoldable pub kind_from_string : Option CStr → MatchKind
kind_from_string none = unknown
kind_from_string (some s) =
    if str_eq s (codes "address")
    then address
    else if str_eq s (codes "symbol")
    then symbol
    else if str_eq s (codes "offset_in_module")
    then module_offset
    else unknown
