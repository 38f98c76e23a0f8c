-- ===== src/Sockaddr/Match.antt =====
-- src/core/sockaddr_inspect.c: the match of an inspected address against a text.
use retrace.Prelude.{
  ℕ, ◌+◌, ◌-◌, ◌*◌, ◌%◌, ◌^◌, Bool, true, false, ◌&&◌, ◌||◌, Option, none, some, [], ◌∷◌, ◌==◌, ltb,
  leb, if◌then◌else◌, CStr, str_eq, length,
}
use retrace.Prelude.Int.{ℤ, pos, negsuc}
use retrace.Sockaddr.{Info, Group, unknown, inet, inet6, unix, ip_len}

-- `find_char`
unfoldable pub find_char : ℕ → CStr → Bool
find_char c [] = false
find_char c (d ∷ s) = (d == c) || find_char c s

-- `find_byte`: the text before the byte and the text behind it.
unfoldable pub find_byte : ℕ → CStr → Option (CStr × CStr)
find_byte c [] = none
find_byte c (d ∷ s) =
    let further = elim (find_byte c s) as (λ x. Option (CStr × CStr)) [
      | none ↦ none
      | some (before, behind) ↦ some (d ∷ before, behind)
    ] in
    if d == c then some ([], s) else further

abbrev pub is_digit : ℕ → Bool
is_digit c = leb 48 c && leb c 57

-- The loop of `parse_port` and what follows it.
unfoldable pub port_loop : ℕ → CStr → Option ℕ
port_loop v [] = some v
port_loop v (c ∷ s) =
    let v' = v * 10 + (c - 48) in
    let rest = port_loop v' s in if is_digit c then (if ltb 65535 v' then none else rest) else none

unfoldable pub parse_port : CStr → Option ℕ
unfolding port_loop
parse_port [] = none
parse_port (c ∷ s) = if is_digit c then port_loop 0 (c ∷ s) else none

-- The port, or `none` for the wildcard; the outer `none` is a malformed one.
unfoldable pub port_part : CStr → Option (Option ℕ)
unfolding parse_port
port_part s =
    if str_eq s (42 ∷ [])
    then some none
    else elim (parse_port s) [ none ↦ none | some v ↦ some (some v) ]

unfoldable pub after_close : CStr → Option (Option ℕ)
unfolding port_part
after_close [] = some none
after_close (c ∷ s) = if c == 58 then port_part s else none

-- The tests on the length of the host.
unfoldable pub host_part : CStr → Option (Option ℕ) → Option (CStr × Option ℕ)
host_part host none = none
host_part host (some port) =
    if (length host == 0) || leb ip_len (length host) then none else some (host, port)

unfoldable pub bracketed : Option (CStr × CStr) → Option (CStr × Option ℕ)
unfolding host_part after_close
bracketed none = none
bracketed (some (host, behind)) = host_part host (after_close behind)

unfoldable pub plain : CStr → Option (CStr × CStr) → Option (CStr × Option ℕ)
unfolding host_part port_part
plain spec none = host_part spec (some none)
plain spec (some (host, behind)) = host_part host (port_part behind)

-- `parse_host_port` into `ip_len` bytes: the host, and the port if there is one.
unfoldable pub parse_host_port : CStr → Option (CStr × Option ℕ)
unfolding bracketed plain find_byte
parse_host_port [] = plain [] none
parse_host_port (c ∷ spec) =
    if c == 91 then bracketed (find_byte 93 spec) else plain (c ∷ spec) (find_byte 58 (c ∷ spec))

abbrev pub port_matches : Info → Option ℕ → Bool
port_matches info none = true
port_matches info (some p) = info.port == p % 2 ^ 16

unfoldable pub match_parsed : Info → Option (CStr × Option ℕ) → ℤ
match_parsed info none = negsuc 0
match_parsed info (some (host, port)) =
    if (str_eq host (42 ∷ []) || str_eq host info.ip) && port_matches info port
    then pos 1
    else pos 0

-- The branch on the group of the address.
unfoldable pub match_group : Group → Info → CStr → ℤ
unfolding match_parsed parse_host_port find_char
match_group unix info spec =
    if find_char 58 spec then pos 0 else if str_eq spec info.path then pos 1 else pos 0
match_group unknown info spec =
    if find_char 58 spec then match_parsed info (parse_host_port spec) else pos 0
match_group inet info spec = match_parsed info (parse_host_port spec)
match_group inet6 info spec = match_parsed info (parse_host_port spec)

-- `retrace_sockaddr_match`
unfoldable pub sockaddr_match : Option Info → Option CStr → ℤ
unfolding match_group
sockaddr_match none spec = negsuc 0
sockaddr_match (some info) none = negsuc 0
sockaddr_match (some info) (some spec) =
    if str_eq spec (42 ∷ []) then pos 1 else match_group info.group info spec
