-- ===== src/AddrDeny.antt =====
-- src/core/actions/addr_deny.c: the action that refuses a call by the socket address among its
-- parameters. `get_strings` is `json_object_get_array` with `json_array_get_string` of each item, and
-- `sockaddr_at` the address that a pointer leads to.
use retrace.Prelude.{
  ℕ, zero, suc, Bool, true, false, ◌||◌, Option, none, some, List, [], ◌∷◌, if◌then◌else◌, CStr,
  codes, str_eq,
}
use retrace.Prelude.Int.{ℤ, pos, negsuc, eqb_ℤ}
use retrace.FilterDsl.Eval.{FuncParam, ThreadContext}
use retrace.Sockaddr.{Platform, Sockaddr, Info, inspect}
use retrace.Sockaddr.Match.{sockaddr_match}
pub mod Denials
mod Tests

unfoldable pub is_addr_param_name : CStr → Bool
unfolding str_eq
is_addr_param_name name =
    str_eq name (codes "addr") || str_eq name (codes "dest_addr") || str_eq name (codes "src_addr")

-- `find_sockaddr`, as the value of the parameter; NULL where there is none.
unfoldable pub find_sockaddr : List FuncParam → ℤ
unfolding is_addr_param_name
find_sockaddr [] = pos 0
find_sockaddr (fp ∷ params) = if is_addr_param_name fp.name then fp.val else find_sockaddr params

-- The loop over the list: whether the call is denied. A malformed spec is passed over.
unfoldable pub is_refused : Option Info → List (Option CStr) → Bool
unfolding sockaddr_match
is_refused info [] = false
is_refused info (none ∷ specs) = is_refused info specs
is_refused info (some spec ∷ specs) =
    let rest = is_refused info specs in
    elim (sockaddr_match info (some spec)) [
      | negsuc n ↦ rest
      | pos zero ↦ rest
      | pos (suc n) ↦ true
    ]

abbrev pub minus : ℕ → ℤ
minus zero = pos 0
minus (suc n) = negsuc n

module _ (p : Platform) (econnrefused : ℕ) (sockaddr_at : ℤ → Option Sockaddr) where
  -- What follows on the inspected address.
  unfoldable pub decide : Option Info → List (Option CStr) → ThreadContext → ℤ × ThreadContext
  unfolding is_refused
  decide none deny_addrs t_ctx = (pos 0, t_ctx)
  decide (some info) deny_addrs t_ctx =
      if is_refused (some info) deny_addrs
      then (negsuc 0, record t_ctx { ret_val = minus econnrefused })
      else (pos 0, t_ctx)

  unfoldable pub police : Option (List (Option CStr)) → ThreadContext → ℤ × ThreadContext
  unfolding find_sockaddr decide inspect
  police none t_ctx = (negsuc 0, t_ctx)
  police (some deny_addrs) t_ctx =
      let sa = find_sockaddr t_ctx.params in
      if eqb_ℤ sa (pos 0)
      then (pos 0, t_ctx)
      else decide (inspect p (sockaddr_at sa) 0) deny_addrs t_ctx

  module _ {Object : Type 0} (get_strings : Object → CStr → Option (List (Option CStr))) where
    -- `ia_addr_deny`: the status, and the context with the value that is to be returned.
    unfoldable pub ia_addr_deny : Option Object → ThreadContext → ℤ × ThreadContext
    unfolding police
    ia_addr_deny none t_ctx = (negsuc 0, t_ctx)
    ia_addr_deny (some action_params) t_ctx =
        police (get_strings action_params (codes "deny_addrs")) t_ctx
