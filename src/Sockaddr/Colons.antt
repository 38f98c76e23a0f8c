-- ===== src/Sockaddr/Colons.antt =====
-- src/core/sockaddr_inspect.c: an IPv6 address is printed with all its groups, so no printed address
-- has two colons in a row.
use mathlib.Core.Bool.{false≢true}
use retrace.Prelude.{
  ℕ, zero, suc, ◌-◌, ◌≡◌, refl, sym, ap, ◌∙◌, inl, inr, Bool, true, false, ◌&&◌, some, List, [],
  ◌∷◌, ◌++◌, arith, ◌==◌, leb, if◌then◌else◌, CStr, str_eq, str_eq→≡, length, take, Bool-cases,
}
use retrace.Prelude.Int.{pos}
use retrace.Sockaddr.{
  ip_len, Platform, Sockaddr, inet6, Info, ntohs, print_in, group_text, ipv6_loop, format_ipv6,
  inspect, inspect_inet, inspect_inet6, inspect_unix,
}
use retrace.Sockaddr.Match.{find_char, sockaddr_match}
use retrace.Sockaddr.Numerals.{print_in-no_colon, print_in-cons}
use retrace.Sockaddr.Specs.{
  literal, Port, render, IsHost, IsPort, port_holds, sockaddr_match-render,
}

-- No two colons in a row, where `before` says that a colon stands before the text.
abbrev pub separated : Bool → CStr → Bool
separated before [] = true
separated before (c ∷ s) =
    let rest = separated (c == 58) s in if before && (c == 58) then false else rest

-- A colon ends the text, or stands before it where it is empty.
abbrev pub colon_last : Bool → CStr → Bool
colon_last before [] = before
colon_last before (c ∷ s) = colon_last (c == 58) s

separated-append :
    (before : Bool) (s t : CStr)
    → separated before s ≡ true
    → separated (colon_last before s) t ≡ true
    → separated before (s ++ t) ≡ true
separated-append before [] t h k = k
separated-append before (c ∷ s) t h k = elim (Bool-cases (before && (c == 58))) [
  | inl e ↦ absurd (false≢true (rw e at h))
  | inr e ↦ rw e (separated-append (c == 58) s t (rw e at h) k)
]

colon_last-append :
    (before : Bool) (s t : CStr) → colon_last before (s ++ t) ≡ colon_last (colon_last before s) t
colon_last-append before [] t = refl
colon_last-append before (c ∷ s) t = colon_last-append (c == 58) s t

separated-take :
    (before : Bool) (n : ℕ) (s : CStr)
    → separated before s ≡ true
    → separated before (take n s) ≡ true
separated-take before zero s h = refl
separated-take before (suc n) [] h = refl
separated-take before (suc n) (c ∷ s) h = elim (Bool-cases (before && (c == 58))) [
  | inl e ↦ absurd (false≢true (rw e at h))
  | inr e ↦ rw e (separated-take (c == 58) n s (rw e at h))
]

-- A text without a colon.
no_colon-separated : (before : Bool) (s : CStr) → find_char 58 s ≡ false → separated before s ≡ true
unfolding find_char
no_colon-separated before [] h = refl
no_colon-separated before (c ∷ s) h = elim (Bool-cases (c == 58)) [
  | inl e ↦ absurd (false≢true (sym (rw e at h)))
  | inr e ↦
      let unseen : (before && false) ≡ false = ground arith in
      rw (e, unseen) (no_colon-separated false s (rw e at h))
]

no_colon-last : (s : CStr) → find_char 58 s ≡ false → colon_last false s ≡ false
unfolding find_char
no_colon-last [] h = refl
no_colon-last (c ∷ s) h = elim (Bool-cases (c == 58)) [
  | inl e ↦ absurd (false≢true (sym (rw e at h)))
  | inr e ↦ rw e (no_colon-last s (rw e at h))
]

group_text-separated :
    (first : Bool) (w : ℕ)
    → (separated false (group_text first w) ≡ true)
      × (colon_last false (group_text first w) ≡ false)
unfolding group_text
group_text-separated true w =
    let none_in = print_in-no_colon 16 4 w in
    (no_colon-separated false (print_in 16 4 w) none_in, no_colon-last (print_in 16 4 w) none_in)
group_text-separated false w =
    let none_in = print_in-no_colon 16 4 w in
    let (c, s, e) = print_in-cons 16 3 w in
    let none_in' : find_char 58 (c ∷ s) ≡ false = ap (find_char 58) (sym e) ∙ none_in in
    (
      no_colon-separated true (print_in 16 4 w) none_in,
      ap (colon_last true) e ∙ no_colon-last (c ∷ s) none_in',
    )

ipv6_loop-separated :
    (first : Bool) (words : List (ℕ × ℕ)) (buf : CStr)
    → separated false buf ≡ true
    → colon_last false buf ≡ false
    → separated false (ipv6_loop first words buf) ≡ true
unfolding ipv6_loop
ipv6_loop-separated first [] buf h l = h
ipv6_loop-separated first (w ∷ words) buf h l =
    let text = group_text first (ntohs w) in
    let (sep, last) = group_text-separated first (ntohs w) in
    let after : (t : CStr) → separated false t ≡ true → separated (colon_last false buf) t ≡ true =
      λ t k. ap (λ b. separated b t) l ∙ k in
    elim (Bool-cases (leb (ip_len - length buf) (length text))) [
      | inl e ↦
          let cut = ip_len - length buf - 1 in
          rw e (
            separated-append false buf (take cut text) h
              (after (take cut text) (separated-take false cut text sep)))
      | inr e ↦ rw e (
          ipv6_loop-separated false words (buf ++ text)
            (separated-append false buf text h (after text sep))
            (colon_last-append false buf text ∙ ap (λ b. colon_last b text) l ∙ last))
    ]

double_colon : (before : Bool) (a b : CStr) → separated before (a ++ 58 ∷ 58 ∷ b) ≡ false
double_colon before (c ∷ a) b = elim (Bool-cases (before && (c == 58))) [
  | inl e ↦ rw e refl
  | inr e ↦ rw e (double_colon (c == 58) a b)
]
double_colon true [] b = refl
double_colon false [] b = refl

-- What is read as an IPv6 address has the printed groups.
inspect-ip :
    (p : Platform) (addrlen : ℕ) (sa : Sockaddr) (info : Info)
    → inspect p (some sa) addrlen ≡ some info
    → info.group ≡ inet6
    → info.ip ≡ format_ipv6 sa.sin6_addr
unfolding inspect inspect_inet inspect_inet6 inspect_unix
inspect-ip p addrlen sa info h g = ground arith

-- A text whose host is an IPv6 literal with "::" in it, the usual short form, matches no IPv6 address
-- that `retrace_sockaddr_inspect` reads, whatever the port.
pub sockaddr_match-compressed :
    (p : Platform) (addrlen : ℕ) (sa : Sockaddr) (info : Info) (a b : CStr) (port : Port)
    → inspect p (some sa) addrlen ≡ some info
    → info.group ≡ inet6
    → IsHost (literal (a ++ 58 ∷ 58 ∷ b))
    → IsPort port
    → sockaddr_match (some info) (some (render (literal (a ++ 58 ∷ 58 ∷ b)) port)) ≡ pos 0
unfolding format_ipv6
sockaddr_match-compressed p addrlen sa info a b port h group w q =
    let short = a ++ 58 ∷ 58 ∷ b in
    let ip = inspect-ip p addrlen sa info h group in
    let apart : str_eq short info.ip ≡ false = elim (Bool-cases (str_eq short info.ip)) [
      | inr e ↦ e
      | inl e ↦
          let same = str_eq→≡ short info.ip e ∙ ip in
          absurd (
            false≢true (
              sym (double_colon false a b)
              ∙ ap (separated false) same
              ∙ ipv6_loop-separated true sa.sin6_addr [] refl refl))
    ] in
    sockaddr_match-render info (literal short) port (inr group) w q
    ∙ ap (λ x. if x && port_holds port info.port then pos 1 else pos 0) apart
