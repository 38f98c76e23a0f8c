-- ===== src/AddrDeny/Denials.antt =====
-- src/core/actions/addr_deny.c: which calls a list of hosts and ports refuses.
use retrace.Prelude.{
  ℕ, ◌≡◌, refl, ap, ◌∙◌, inl, inr, ◌⊎◌, Bool, false, ◌&&◌, ◌||◌, Option, some, List, [], ◌∷◌,
  if◌then◌else◌, CStr, codes, All, Bool-cases,
}
use retrace.Prelude.Int.{ℤ, pos, negsuc, eqb_ℤ}
use retrace.FilterDsl.Eval.{ThreadContext}
use retrace.Sockaddr.{Platform, Sockaddr, inet, inet6, Info, inspect}
use retrace.Sockaddr.Specs.{
  Host, Port, render, IsHost, IsPort, host_holds, port_holds, sockaddr_match-render,
}
use retrace.AddrDeny.{find_sockaddr, is_refused, minus, decide, police, ia_addr_deny}

-- The texts of a list of hosts and ports.
abbrev pub rendered : List (Host × Port) → List (Option CStr)
rendered [] = []
rendered (rule ∷ rules) = some (render rule.0 rule.1) ∷ rendered rules

-- Some rule of the list holds of the address.
abbrev pub some_rule : List (Host × Port) → Info → Bool
some_rule [] info = false
some_rule (rule ∷ rules) info =
    (host_holds rule.0 info.ip && port_holds rule.1 info.port) || some_rule rules info

abbrev pub IsRule : Host × Port → Type 0
IsRule rule = IsHost rule.0 × IsPort rule.1

is_refused-rendered :
    (rules : List (Host × Port)) (info : Info)
    → (info.group ≡ inet) ⊎ (info.group ≡ inet6)
    → All IsRule rules
    → is_refused (some info) (rendered rules) ≡ some_rule rules info
unfolding is_refused
is_refused-rendered [] info g w = refl
is_refused-rendered (rule ∷ rules) info g w =
    let verdict = sockaddr_match-render info rule.0 rule.1 g w.0.0 w.0.1 in
    let rest = is_refused-rendered rules info g w.1 in
    elim (Bool-cases (host_holds rule.0 info.ip && port_holds rule.1 info.port)) [
      | inl t ↦ rw (is_refused, verdict, t) refl
      | inr t ↦ rw (is_refused, verdict, t) rest
    ]

-- A call whose address parameter leads to an internet address, under a list of well-formed hosts and
-- ports: it is refused with the negated error number where some host and port of the list hold of the
-- address, and else goes on unchanged.
pub ia_addr_deny-rendered :
    (p : Platform) (econnrefused : ℕ) (sockaddr_at : ℤ → Option Sockaddr) {Object : Type 0}
    (get_strings : Object → CStr → Option (List (Option CStr))) (action_params : Object)
    (t_ctx : ThreadContext) (info : Info) (rules : List (Host × Port))
    → get_strings action_params (codes "deny_addrs") ≡ some (rendered rules)
    → eqb_ℤ (find_sockaddr t_ctx.params) (pos 0) ≡ false
    → inspect p (sockaddr_at (find_sockaddr t_ctx.params)) 0 ≡ some info
    → (info.group ≡ inet) ⊎ (info.group ≡ inet6)
    → All IsRule rules
    → ia_addr_deny p econnrefused sockaddr_at get_strings (some action_params) t_ctx ≡ (
        if some_rule rules info
        then (negsuc 0, record t_ctx { ret_val = minus econnrefused })
        else (pos 0, t_ctx))
unfolding ia_addr_deny police decide
ia_addr_deny-rendered p econnrefused sockaddr_at get_strings action_params t_ctx info rules l n i g
      w =
    ap (λ o. police p econnrefused sockaddr_at o t_ctx) l
    ∙ ap
        (λ b.
          if b
          then (pos 0, t_ctx)
          else decide p econnrefused sockaddr_at
              (inspect p (sockaddr_at (find_sockaddr t_ctx.params)) 0) (rendered rules) t_ctx)
        n
    ∙ ap (λ o. decide p econnrefused sockaddr_at o (rendered rules) t_ctx) i
    ∙ ap
        (λ b.
          if b then (negsuc 0, record t_ctx { ret_val = minus econnrefused }) else (pos 0, t_ctx))
        (is_refused-rendered rules info g w)
