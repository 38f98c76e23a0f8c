-- ===== src/Sockaddr.antt =====
-- src/core/sockaddr_inspect.c: the flat view of a socket address. Match.antt has its match against a
-- "host:port" text. The numbers of the address families and the sizes of their structures are the
-- platform's; the fields of the structures are views of the same memory.
use retrace.Prelude.{
  ℕ, zero, suc, ◌+◌, ◌-◌, ◌*◌, ◌/◌, ◌%◌, ◌^◌, Bool, true, false, ◌&&◌, ◌||◌, not, Option, none,
  some, List, [], ◌∷◌, ◌++◌, ◌==◌, ltb, leb, min, if◌then◌else◌, CStr, str_eq, length, take,
}
use retrace.Prelude.Int.{ℤ, pos, negsuc}
pub mod Match
pub mod Numerals
pub mod Specs
pub mod Colons
pub mod Tests

pub record Platform : Type 0 where
  pub af_inet : ℕ
  pub af_inet6 : ℕ
  pub af_unix : ℕ
  pub size_family : ℕ
  pub size_in : ℕ
  pub size_in6 : ℕ
  pub size_un : ℕ
  pub size_sun_path : ℕ

-- The bytes of the fields, in network order.
pub record Sockaddr : Type 0 where
  pub sa_family : ℕ
  pub sin_port : ℕ × ℕ
  pub sin_addr : ℕ × ℕ × ℕ × ℕ
  pub sin6_port : ℕ × ℕ
  pub sin6_addr : List (ℕ × ℕ)
  pub sun_path : List ℕ

pub data Group : Type 0 where
  unknown : Group
  inet : Group
  inet6 : Group
  unix : Group

-- `struct retrace_sockaddr_info`
pub record Info : Type 0 where
  pub family : ℕ
  pub group : Group
  pub expected_len : ℕ
  pub ip : CStr
  pub port : ℕ
  pub path : CStr

-- `RETRACE_SOCKADDR_IP_LEN`, `RETRACE_SOCKADDR_PATH_LEN`
abbrev pub ip_len : ℕ
ip_len = 64

abbrev path_len : ℕ
path_len = 108

-- `%u` and `%x` of `snprintf`, for numbers below the base to the power of the fuel.
unfoldable pub digit : ℕ → ℕ
digit d = if ltb d 10 then 48 + d else 87 + d

unfoldable pub print_in : ℕ → ℕ → ℕ → CStr
print_in base zero n = []
print_in base (suc fuel) n =
    let front = print_in base fuel (n / base) in
    if ltb n base then digit n ∷ [] else front ++ digit (n % base) ∷ []

abbrev pub ntohs : ℕ × ℕ → ℕ
ntohs (high, low) = high * 256 + low

-- `format_ipv4` into `ip_len` bytes
unfoldable format_ipv4 : ℕ × ℕ × ℕ × ℕ → CStr
unfolding print_in
format_ipv4 (a, b, c, d) =
    print_in 10 3 a ++ 46 ∷ print_in 10 3 b ++ 46 ∷ print_in 10 3 c ++ 46 ∷ print_in 10 3 d

-- The loop of `format_ipv6`, which stops where a group does not fit.
unfoldable pub group_text : Bool → ℕ → CStr
unfolding print_in
group_text first w = if first then print_in 16 4 w else 58 ∷ print_in 16 4 w

unfoldable pub ipv6_loop : Bool → List (ℕ × ℕ) → CStr → CStr
unfolding group_text
ipv6_loop first [] buf = buf
ipv6_loop first (w ∷ words) buf =
    let text = group_text first (ntohs w) in
    let rest = ipv6_loop false words (buf ++ text) in
    if leb (ip_len - length buf) (length text)
    then buf ++ take (ip_len - length buf - 1) text
    else rest

unfoldable pub format_ipv6 : List (ℕ × ℕ) → CStr
unfolding ipv6_loop
format_ipv6 words = ipv6_loop true words []

abbrev up_to_nul : List ℕ → CStr
up_to_nul [] = []
up_to_nul (c ∷ s) = let rest = up_to_nul s in if c == 0 then [] else c ∷ rest

abbrev too_short : ℕ → ℕ → Bool
too_short addrlen size = not (addrlen == 0) && ltb addrlen size

module _ (p : Platform) where
  open p use {af_inet, af_inet6, af_unix, size_family, size_in, size_in6, size_un, size_sun_path}

  unfoldable unix_path : ℕ → List ℕ → CStr
  unix_path addrlen sun_path =
      let given = addrlen - size_family in
      let path = if not (addrlen == 0) && ltb given size_sun_path then given else size_sun_path in
      up_to_nul (take (min path (path_len - 1)) sun_path)

  -- The three families; `none` is the result -1.
  unfoldable pub inspect_inet : ℕ → Sockaddr → Option Info
  unfolding format_ipv4
  inspect_inet addrlen sa =
      if too_short addrlen size_in
      then none
      else some (record {
        family = sa.sa_family;
        group = inet;
        expected_len = size_in;
        ip = format_ipv4 sa.sin_addr;
        port = ntohs sa.sin_port;
        path = [];
      })

  unfoldable pub inspect_inet6 : ℕ → Sockaddr → Option Info
  unfolding format_ipv6
  inspect_inet6 addrlen sa =
      if too_short addrlen size_in6
      then none
      else some (record {
        family = sa.sa_family;
        group = inet6;
        expected_len = size_in6;
        ip = format_ipv6 sa.sin6_addr;
        port = ntohs sa.sin6_port;
        path = [];
      })

  unfoldable pub inspect_unix : ℕ → Sockaddr → Option Info
  unfolding unix_path
  inspect_unix addrlen sa =
      if too_short addrlen size_family
      then none
      else some (record {
        family = sa.sa_family;
        group = unix;
        expected_len = size_un;
        ip = [];
        port = 0;
        path = unix_path addrlen sa.sun_path;
      })

  -- `retrace_sockaddr_inspect`
  unfoldable pub inspect : Option Sockaddr → ℕ → Option Info
  unfolding inspect_inet inspect_inet6 inspect_unix
  inspect none addrlen = none
  inspect (some sa) addrlen =
      if too_short addrlen size_family
      then none
      else if sa.sa_family == af_inet
      then inspect_inet addrlen sa
      else if sa.sa_family == af_inet6
      then inspect_inet6 addrlen sa
      else if sa.sa_family == af_unix
      then inspect_unix addrlen sa
      else some (record {
        family = sa.sa_family;
        group = unknown;
        expected_len = 0;
        ip = [];
        port = 0;
        path = [];
      })
