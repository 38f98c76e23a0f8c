-- ===== src/Sockaddr/Tests.antt =====
-- The addresses 10.0.0.1, port 443, and ::1, port 80.
use retrace.Prelude.{◌≡◌, refl, inl, some, [], ◌∷◌, arith, codes, str_eq, ◌&&◌, if◌then◌else◌}
use retrace.Prelude.Int.{pos}
use retrace.Sockaddr.{Platform, Sockaddr, inet, inet6, Info, digit, inspect}
use retrace.Sockaddr.Match.{find_char, sockaddr_match}
use retrace.Sockaddr.Specs.{
  named, literal, number, render, host_holds, port_holds, sockaddr_match-render,
}
use retrace.Sockaddr.Colons.{sockaddr_match-compressed}

abbrev pub linux : Platform
linux = record {
  af_inet = 2;
  af_inet6 = 10;
  af_unix = 1;
  size_family = 2;
  size_in = 16;
  size_in6 = 28;
  size_un = 110;
  size_sun_path = 108;
}

abbrev pub https : Sockaddr
https = record {
  sa_family = 2;
  sin_port = (1, 187);
  sin_addr = (10, 0, 0, 1);
  sin6_port = (1, 187);
  sin6_addr = [];
  sun_path = [];
}

abbrev pub https_info : Info
https_info = record {
  family = 2;
  group = inet;
  expected_len = 16;
  ip = codes "10.0.0.1";
  port = 443;
  path = [];
}

pub https_inspected : inspect linux (some https) 0 ≡ some https_info
unfolding inspect digit
https_inspected = refl

abbrev localhost : Sockaddr
localhost = record {
  sa_family = 10;
  sin_port = (0, 80);
  sin_addr = (0, 0, 0, 0);
  sin6_port = (0, 80);
  sin6_addr = (0, 0) ∷ (0, 0) ∷ (0, 0) ∷ (0, 0) ∷ (0, 0) ∷ (0, 0) ∷ (0, 0) ∷ (0, 1) ∷ [];
  sun_path = [];
}

abbrev localhost_info : Info
localhost_info = record {
  family = 10;
  group = inet6;
  expected_len = 28;
  ip = codes "0:0:0:0:0:0:0:1";
  port = 80;
  path = [];
}

sockaddr_match-render_example :
    sockaddr_match (some https_info) (some (render (named (codes "10.0.0.1")) (number 443))) ≡ (
      if host_holds (named (codes "10.0.0.1")) https_info.ip
        && port_holds (number 443) https_info.port
      then pos 1
      else pos 0)
unfolding str_eq find_char
sockaddr_match-render_example =
    sockaddr_match-render https_info (named (codes "10.0.0.1")) (number 443) (inl refl)
      ((omega arith, omega arith, refl), refl, λ t h. ground arith) (omega arith)

sockaddr_match-compressed_example :
    sockaddr_match (some localhost_info) (some (render (literal (codes "::1")) (number 80))) ≡ pos 0
unfolding inspect digit str_eq find_char
sockaddr_match-compressed_example =
    sockaddr_match-compressed linux 0 localhost localhost_info [] (codes "1") (number 80) refl refl
      ((omega arith, omega arith, refl), refl) (omega arith)
