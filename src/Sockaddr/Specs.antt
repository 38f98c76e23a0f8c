-- ===== src/Sockaddr/Specs.antt =====
-- src/core/sockaddr_inspect.c: what a "host:port" text means for an internet address.
use mathlib.Core.List.{append_assoc, append-nil}
use mathlib.Core.Bool.{false≢true}
use retrace.Prelude.{
  ℕ, ◌%◌, ◌^◌, ◌≤◌, ◌<◌, ◌≡◌, ◌≢◌, refl, sym, ap, ap₂, ◌∙◌, inl, inr, ◌⊎◌, Bool, true, false, ◌&&◌,
  ◌||◌, Option, none, some, [], ◌∷◌, ◌++◌, arith, ◌==◌, if◌then◌else◌, CStr, str_eq, str_eq→≡,
  length, Bool-cases,
}
use retrace.Prelude.Int.{pos}
use retrace.Sockaddr.{ip_len, inet, inet6, Info, print_in}
use retrace.Sockaddr.Match.{
  find_char, find_byte, parse_port, port_part, after_close, host_part, bracketed, plain,
  parse_host_port, port_matches, match_parsed, match_group, sockaddr_match,
}
use retrace.Sockaddr.Numerals.{parse_port-print_in}

-- A host is "*", a name or an address, or an address in brackets.
pub data Host : Type 0 where
  any : Host
  named : CStr → Host
  literal : CStr → Host

-- A port may be left out, be "*", or a number.
pub data Port : Type 0 where
  absent : Port
  any_port : Port
  number : ℕ → Port

abbrev pub host_name : Host → CStr
host_name any = 42 ∷ []
host_name (named h) = h
host_name (literal h) = h

abbrev pub host_text : Host → CStr
host_text any = 42 ∷ []
host_text (named h) = h
host_text (literal h) = 91 ∷ h ++ 93 ∷ []

abbrev pub port_text : Port → CStr
port_text absent = []
port_text any_port = 58 ∷ 42 ∷ []
port_text (number p) = 58 ∷ print_in 10 5 p

abbrev pub render : Host → Port → CStr
render host port = host_text host ++ port_text port

abbrev pub IsName : CStr → Type 0
IsName h = (length h ≢ 0) × (length h < ip_len) × (str_eq h (42 ∷ []) ≡ false)

-- A name has no colon and does not begin with a bracket, and a literal has no closing bracket.
abbrev pub IsHost : Host → Type 0
IsHost any = Unit {0}
IsHost (named h) = IsName h × (find_char 58 h ≡ false) × ((t : CStr) → h ≢ 91 ∷ t)
IsHost (literal h) = IsName h × (find_char 93 h ≡ false)

abbrev pub IsPort : Port → Type 0
IsPort absent = Unit {0}
IsPort any_port = Unit {0}
IsPort (number p) = p ≤ 65535

abbrev pub port_value : Port → Option ℕ
port_value absent = none
port_value any_port = none
port_value (number p) = some p

abbrev pub host_holds : Host → CStr → Bool
host_holds any ip = true
host_holds (named h) ip = str_eq h ip
host_holds (literal h) ip = str_eq h ip

abbrev pub port_holds : Port → ℕ → Bool
port_holds absent port = true
port_holds any_port port = true
port_holds (number p) port = port == p

pub find_byte-append :
    (c : ℕ) (s t : CStr) → find_char c s ≡ false → find_byte c (s ++ c ∷ t) ≡ some (s, t)
unfolding find_byte find_char
find_byte-append c [] t h = ground arith
find_byte-append c (d ∷ s) t h = elim (Bool-cases (d == c)) [
  | inl e ↦ absurd (false≢true (sym (rw e at h)))
  | inr e ↦ rw (e, find_byte-append c s t (rw e at h)) refl
]

find_byte-none : (c : ℕ) (s : CStr) → find_char c s ≡ false → find_byte c s ≡ none
unfolding find_byte find_char
find_byte-none c [] h = refl
find_byte-none c (d ∷ s) h = elim (Bool-cases (d == c)) [
  | inl e ↦ absurd (false≢true (sym (rw e at h)))
  | inr e ↦ rw (e, find_byte-none c s (rw e at h)) refl
]

port_part-number : (p : ℕ) → p ≤ 65535 → port_part (print_in 10 5 p) ≡ some (some p)
unfolding port_part parse_port str_eq
port_part-number p h = elim (Bool-cases (str_eq (print_in 10 5 p) (42 ∷ []))) [
  | inl e ↦
      let star = str_eq→≡ (print_in 10 5 p) (42 ∷ []) e in
      let read : none ≡ some p = ap parse_port (sym star) ∙ parse_port-print_in p h in cc
  | inr e ↦ rw (e, parse_port-print_in p h) refl
]

host_part-IsName :
    (h : CStr) (port : Option ℕ)
    → length h ≢ 0
    → length h < ip_len
    → host_part h (some port) ≡ some (h, port)
unfolding host_part
host_part-IsName h port n l = ground arith

-- The part of the text behind a host without brackets.
plain-port_text :
    (h : CStr) (port : Port)
    → IsPort port
    → length h ≢ 0
    → length h < ip_len
    → find_char 58 h ≡ false
    → plain (h ++ port_text port) (find_byte 58 (h ++ port_text port)) ≡ some (h, port_value port)
unfolding plain port_part str_eq
plain-port_text h absent p n l f =
    rw append-nil (ap (plain h) (find_byte-none 58 h f) ∙ host_part-IsName h none n l)
plain-port_text h any_port p n l f =
    ap (plain (h ++ port_text any_port)) (find_byte-append 58 h (42 ∷ []) f)
    ∙ host_part-IsName h none n l
plain-port_text h (number q) p n l f =
    ap (plain (h ++ port_text (number q))) (find_byte-append 58 h (print_in 10 5 q) f)
    ∙ ap (host_part h) (port_part-number q p)
    ∙ host_part-IsName h (some q) n l

after_close-port_text :
    (port : Port) → IsPort port → after_close (port_text port) ≡ some (port_value port)
unfolding after_close port_part str_eq
after_close-port_text absent p = refl
after_close-port_text any_port p = refl
after_close-port_text (number q) p = port_part-number q p

parse-named :
    (h : CStr) (port : Port)
    → IsHost (named h)
    → IsPort port
    → parse_host_port (render (named h) port) ≡ some (h, port_value port)
unfolding parse_host_port
parse-named [] port ((n, l, s), f, b) p = absurd (n refl)
parse-named (c ∷ h) port ((n, l, s), f, b) p =
    let open_bracket : (c == 91) ≡ false = elim (Bool-cases (c == 91)) [
      | inl e ↦ let same : c ≡ 91 = ground arith in absurd (b h (ap (λ x. x ∷ h) same))
      | inr e ↦ e
    ] in
    rw open_bracket (plain-port_text (c ∷ h) port p n l f)

parse-literal :
    (h : CStr) (port : Port)
    → IsHost (literal h)
    → IsPort port
    → parse_host_port (render (literal h) port) ≡ some (h, port_value port)
unfolding parse_host_port bracketed
parse-literal h port ((n, l, s), f) p =
    ap (λ t. bracketed (find_byte 93 t)) (append_assoc h (93 ∷ []) (port_text port))
    ∙ ap bracketed (find_byte-append 93 h (port_text port) f)
    ∙ ap (host_part h) (after_close-port_text port p)
    ∙ host_part-IsName h (port_value port) n l

-- The printed form of a host and a port is parsed into them.
pub parse_host_port-render :
    (host : Host) (port : Port)
    → IsHost host
    → IsPort port
    → parse_host_port (render host port) ≡ some (host_name host, port_value port)
unfolding parse_host_port find_char
parse_host_port-render any port h p =
    plain-port_text (42 ∷ []) port p (omega arith) (omega arith) refl
parse_host_port-render (named h) port w p = parse-named h port w p
parse_host_port-render (literal h) port w p = parse-literal h port w p

-- The bare star needs no test of its own for an internet address.
internet :
    (info : Info) (spec : CStr)
    → (info.group ≡ inet) ⊎ (info.group ≡ inet6)
    → sockaddr_match (some info) (some spec) ≡ match_parsed info (parse_host_port spec)
unfolding sockaddr_match match_group parse_host_port match_parsed str_eq
internet info spec g = elim (Bool-cases (str_eq spec (42 ∷ []))) [
  | inl e ↦
      let star = str_eq→≡ spec (42 ∷ []) e in
      rw e (ap (λ s. match_parsed info (parse_host_port s)) (sym star))
  | inr e ↦ rw e (elim g [
    | inl v4 ↦ ap (λ x. match_group x info spec) v4
    | inr v6 ↦ ap (λ x. match_group x info spec) v6
  ])
]

host-holds :
    (host : Host) (ip : CStr)
    → IsHost host
    → (str_eq (host_name host) (42 ∷ []) || str_eq (host_name host) ip) ≡ host_holds host ip
unfolding str_eq
host-holds any ip h = refl
host-holds (named h) ip w = ap (λ b. b || str_eq h ip) w.0.2
host-holds (literal h) ip w = ap (λ b. b || str_eq h ip) w.0.2

port-holds :
    (port : Port) (info : Info)
    → IsPort port
    → port_matches info (port_value port) ≡ port_holds port info.port
port-holds absent info p = refl
port-holds any_port info p = refl
port-holds (number q) info p =
    let same : q % 2 ^ 16 ≡ q = omega (arith, p) in ap (λ x. info.port == x) same

-- The text of a host and a port matches an internet address exactly where the host is "*" or is the
-- printed address, and the port is left out, is "*", or is the address's port.
pub sockaddr_match-render :
    (info : Info) (host : Host) (port : Port)
    → (info.group ≡ inet) ⊎ (info.group ≡ inet6)
    → IsHost host
    → IsPort port
    → sockaddr_match (some info) (some (render host port))
      ≡ (if host_holds host info.ip && port_holds port info.port then pos 1 else pos 0)
unfolding match_parsed
sockaddr_match-render info host port g h p =
    internet info (render host port) g
    ∙ ap (match_parsed info) (parse_host_port-render host port h p)
    ∙ ap₂ (λ a b. if a && b then pos 1 else pos 0) (host-holds host info.ip h)
        (port-holds port info p)
