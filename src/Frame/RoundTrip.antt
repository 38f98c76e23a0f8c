-- ===== src/Frame/RoundTrip.antt =====
-- What `retrace_rpc_frame_encode` writes, `retrace_rpc_frame_decode` reads back, and the other way.
use retrace.Prelude.{
  ℕ, zero, suc, ◌+◌, ◌/◌, ◌%◌, ◌^◌, ◌≤◌, ◌<◌, ◌≡◌, refl, ◌∙◌, true, some, List, ◌∷◌, arith, length,
  get_or, take, length-take, get_or-take, ltb, if◌then◌else◌, All,
}
use retrace.Prelude.Int.{pos}
use retrace.Prelude.Store.{write_at, length-write_at, get_or-write_at, get_or-write_at_below}
use retrace.Frame.Bytes.{u16_bytes, u32_bytes}
use retrace.Frame.{
  payload_max, header_sz, RpcFrame, write_header, frame_encode, frame_decode, header_of, has_magic,
  copy_payload,
}

abbrev twelve : ℕ → ℕ → ℕ → ℕ → ℕ → ℕ → ℕ → ℕ → ℕ → ℕ → ℕ → ℕ → List ℕ → List ℕ
twelve a b c d e f g h i j k l rest = a ∷ b ∷ c ∷ d ∷ e ∷ f ∷ g ∷ h ∷ i ∷ j ∷ k ∷ l ∷ rest

-- The header, byte by byte.
abbrev header : ℕ → ℕ → ℕ → List ℕ → List ℕ
header v t n rest =
    twelve b'R' b'T' b'R' b'D' (v % 256) (v / 256 % 256) (t % 256) (t / 256 % 256) (n % 256)
      (n / 2 ^ 8 % 256) (n / 2 ^ 16 % 256) (n / 2 ^ 24 % 256) rest

write_header_lem :
    (buf : List ℕ) (v t n : ℕ)
    → header_sz ≤ length buf
    → (rest : List ℕ) × (write_header buf v t n ≡ header v t n rest)
      × (length buf ≡ 12 + length rest)
unfolding write_header
write_header_lem (a ∷ b ∷ c ∷ d ∷ e ∷ f ∷ g ∷ h ∷ i ∷ j ∷ k ∷ l ∷ rest) v t n p =
    (rest, refl, omega arith)
write_header_lem _ v t n p = absurd (omega arith)

header_of-header :
    (v t n : ℕ) (rest : List ℕ)
    → v < 2 ^ 16
    → t < 2 ^ 16
    → n < 2 ^ 32
    → header_of (header v t n rest) ≡ record { version = v; type = t; length = n }
unfolding header_of
header_of-header v t n rest p q r = ground (
  arith,
  u16_bytes (v % 256) (v / 256 % 256),
  u16_bytes (t % 256) (t / 256 % 256),
  u32_bytes (n % 256) (n / 2 ^ 8 % 256) (n / 2 ^ 16 % 256) (n / 2 ^ 24 % 256),
)

-- The bytes before the payload stay what they are when the payload is written after them.
module _ (v t n : ℕ) (rest src : List ℕ) where
  same_byte :
      (j : ℕ)
      → j < 12
      → get_or (write_at (header v t n rest) 12 src) j 0 ≡ get_or (header v t n rest) j 0
  same_byte j h = get_or-write_at_below (header v t n rest) 12 src j 0 h

  header_of-write_at :
      header_of (write_at (header v t n rest) 12 src) ≡ header_of (header v t n rest)
  unfolding header_of
  header_of-write_at = simp (
    same_byte 4 (omega arith),
    same_byte 5 (omega arith),
    same_byte 6 (omega arith),
    same_byte 7 (omega arith),
    same_byte 8 (omega arith),
    same_byte 9 (omega arith),
    same_byte 10 (omega arith),
    same_byte 11 (omega arith),
  )

  has_magic-write_at : has_magic (write_at (header v t n rest) 12 src) ≡ true
  unfolding has_magic
  has_magic-write_at = simp (
    same_byte 0 (omega arith),
    same_byte 1 (omega arith),
    same_byte 2 (omega arith),
    same_byte 3 (omega arith),
  )

abbrev copied : List ℕ → List ℕ → ℕ → List ℕ
copied w bytes n = write_at w 12 (take n bytes)

copy_payload_lem :
    (w bytes : List ℕ) (n : ℕ)
    → (if ltb 0 n then copy_payload w (some bytes) n else w) ≡ copied w bytes n
unfolding copy_payload write_at
copy_payload_lem w bytes zero = refl
copy_payload_lem w bytes (suc n) = ground arith

frame_encode-fits :
    (out bytes : List ℕ) (room v t n : ℕ)
    → n ≤ payload_max
    → header_sz + n ≤ room
    → frame_encode (some out) room v t (some bytes) n
      ≡ (pos 0, some (copied (write_header out v t n) bytes n))
unfolding frame_encode
frame_encode-fits out bytes room v t n hn hc =
    ground (arith, copy_payload_lem (write_header out v t n) bytes n)

frame_decode-header :
    (v t n room : ℕ) (rest src : List ℕ) (old : RpcFrame)
    → v < 2 ^ 16
    → t < 2 ^ 16
    → n ≤ payload_max
    → header_sz ≤ room
    → frame_decode (some (write_at (header v t n rest) 12 src)) room (some old)
      ≡ (pos 0, some (record { version = v; type = t; length = n }))
unfolding frame_decode
frame_decode-header v t n room rest src old hv ht hn hc = ground (
  arith,
  header_of-header v t n rest,
  header_of-write_at v t n rest src,
  has_magic-write_at v t n rest src,
)

payload_kept :
    (w bytes : List ℕ) (n j : ℕ)
    → n ≤ length bytes
    → 12 + n ≤ length w
    → j < n
    → get_or (copied w bytes n) (12 + j) 0 ≡ get_or bytes j 0
payload_kept w bytes n j hb hw h =
    get_or-write_at w 12 (take n bytes) j 0 (omega (arith, length-take n bytes))
      (omega (arith, length-take n bytes))
    ∙ get_or-take n bytes j 0 h

abbrev pub IsEncoded : List ℕ → List ℕ → ℕ → ℕ → ℕ → ℕ → RpcFrame → List ℕ → Type 0
IsEncoded out bytes room v t n old buf =
    (frame_encode (some out) room v t (some bytes) n ≡ (pos 0, some buf))
    × (length buf ≡ length out)
    × (frame_decode (some buf) room (some old)
        ≡ (pos 0, some (record { version = v; type = t; length = n })))
    × ((j : ℕ) → j < n → get_or buf (12 + j) 0 ≡ get_or bytes j 0)

-- Every frame that fits the buffer and the payload cap is encoded with status 0. The buffer keeps
-- its length, then decodes to the frame's version, type and length, and holds the payload behind
-- the header.
pub frame_decode-encode :
    (out bytes : List ℕ) (room v t n : ℕ) (old : RpcFrame)
    → v < 2 ^ 16
    → t < 2 ^ 16
    → n ≤ payload_max
    → n ≤ length bytes
    → header_sz + n ≤ room
    → room ≤ length out
    → (buf : List ℕ) × IsEncoded out bytes room v t n old buf
frame_decode-encode out bytes room v t n old hv ht hn hb hc ho =
    let (rest, e, len) = write_header_lem out v t n (omega arith) in
    let w = header v t n rest in
    (
      copied w bytes n,
      (
        frame_encode-fits out bytes room v t n hn hc ∙ rw e,
        omega (arith, length-write_at w 12 (take n bytes)),
        frame_decode-header v t n room rest (take n bytes) old hv ht hn (omega arith),
        λ j. payload_kept w bytes n j hb (omega arith),
      ),
    )

-- A decoder that accepts has read the header of an encoder: writing the decoded fields over any
-- buffer of bytes leaves that buffer as it is, and the length is within the payload cap.
pub write_header-decode :
    (buf : List ℕ) (in_len : ℕ) (old f : RpcFrame)
    → All (λ b. b < 256) buf
    → in_len ≤ length buf
    → frame_decode (some buf) in_len (some old) ≡ (pos 0, some f)
    → (write_header buf f.version f.type f.length ≡ buf) × (f.length ≤ payload_max)
unfolding write_header frame_decode has_magic header_of
write_header-decode (a ∷ b ∷ c ∷ d ∷ e ∷ g ∷ h ∷ i ∷ j ∷ k ∷ l ∷ m ∷ rest) in_len old f bytes fits
      ok =
    ground (arith, u16_bytes e g, u16_bytes h i, u32_bytes j k l m)
write_header-decode _ in_len old f bytes fits ok = ground arith
