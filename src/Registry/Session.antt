-- ===== src/Registry/Session.antt =====
-- The minting of a session id.
use retrace.Prelude.{
  ℕ, ◌+◌, ◌-◌, ◌/◌, ◌%◌, Option, none, some, List, [], ◌∷◌, ltb, ◌==◌, if◌then◌else◌, replicate,
  CStr,
}

-- `hex[n]`
abbrev pub hex_digit : ℕ → ℕ
hex_digit n = if ltb n 10 then n + b'0' else n - 10 + b'a'

abbrev pub hex_bytes : List ℕ → CStr
hex_bytes [] = []
hex_bytes (b ∷ raw) = hex_digit (b / 16) ∷ hex_digit (b % 16) ∷ hex_bytes raw

-- A zero first byte is replaced by the low byte of `time(NULL) ^ getpid()`.
abbrev pub seeded : ℕ → List ℕ → List ℕ
seeded seed [] = []
seeded seed (b ∷ raw) = (if b == 0 then seed % 256 else b) ∷ raw

-- `retraced_registry_mint_session`: the 16 bytes of /dev/urandom if they could be read
unfoldable pub mint_session : Option (List ℕ) → ℕ → CStr
mint_session none seed = hex_bytes (seeded seed (replicate 16 0))
mint_session (some raw) seed = hex_bytes (seeded seed raw)
