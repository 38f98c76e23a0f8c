-- ===== src/AddrDeny/Tests.antt =====
-- A connect to 10.0.0.1, port 443, under a list of two rules.
use retrace.Prelude.{
  ℕ, ◌≡◌, refl, inl, Option, some, List, [], ◌∷◌, arith, CStr, codes, str_eq, if◌then◌else◌,
}
use retrace.Prelude.Int.{ℤ, pos, negsuc}
use retrace.FilterDsl.Eval.{ThreadContext}
use retrace.Sockaddr.{Sockaddr, digit, inspect}
use retrace.Sockaddr.Match.{find_char}
use retrace.Sockaddr.Tests.{linux, https, https_info}
use retrace.Sockaddr.Specs.{Host, any, named, Port, any_port, number}
use retrace.AddrDeny.{find_sockaddr, minus, ia_addr_deny}
use retrace.AddrDeny.Denials.{rendered, some_rule, ia_addr_deny-rendered}

abbrev rules : List (Host × Port)
rules = (named (codes "192.168.0.7"), any_port) ∷ (any, number 443) ∷ []

abbrev connect : ThreadContext
connect = record {
  ret_val = pos 0;
  ret_addr = 0;
  params =
      record { name = codes "sockfd"; modifiers = 0; ref_type_name = []; val = pos 3 }
      ∷ record { name = codes "addr"; modifiers = 1; ref_type_name = []; val = pos 4096 }
      ∷ [];
}

abbrev at_address : ℤ → Option Sockaddr
at_address a = some https

abbrev policy : ℕ → CStr → Option (List (Option CStr))
policy o key = some (rendered rules)

ia_addr_deny-rendered_example : ia_addr_deny linux 111 at_address policy (some 0) connect ≡ (
    if some_rule rules https_info
    then (negsuc 0, record connect { ret_val = minus 111 })
    else (pos 0, connect))
unfolding inspect digit str_eq find_char find_sockaddr
ia_addr_deny-rendered_example =
    ia_addr_deny-rendered linux 111 at_address policy 0 connect https_info rules refl refl refl
      (inl refl)
      ((((omega arith, omega arith, refl), refl, λ t h. ground arith), tt), ((tt, omega arith), tt))
