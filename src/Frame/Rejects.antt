-- ===== src/Frame/Rejects.antt =====
-- When the encoder and the decoder refuse, with which status, and what they leave untouched.
use retrace.Prelude.{ℕ, ◌+◌, ◌≤◌, ◌<◌, ◌≡◌, ◌⊎◌, true, false, Option, some, List, arith}
use retrace.Prelude.Int.{pos, negsuc}
use retrace.Frame.{
  payload_max, header_sz, RpcFrame, frame_encode, frame_decode, is_null, has_magic, header_of,
}

-- The three conditions under which a frame may be encoded into a buffer of `room` bytes.
abbrev pub Encodable : ℕ → Option (List ℕ) → ℕ → Type 0
Encodable room payload n =
    (n ≤ payload_max) × ((n ≡ 0) ⊎ (is_null payload ≡ false)) × (header_sz + n ≤ room)

-- Encoding into a buffer returns 0 where the frame is encodable. It returns -1 where the payload is
-- longer than the cap, or is missing though its length is not 0, whatever the room; and -2 where the
-- payload is none of this and the room is short. With both statuses the buffer is unchanged.
pub frame_encode-status :
    (out : List ℕ) (room v t n : ℕ) (payload : Option (List ℕ))
    → ((frame_encode (some out) room v t payload n).0 ≡ pos 0 × Encodable room payload n)
      ⊎ (frame_encode (some out) room v t payload n ≡ (negsuc 1, some out)
          × (n ≤ payload_max)
          × ((n ≡ 0) ⊎ (is_null payload ≡ false))
          × (room < header_sz + n))
      ⊎ (frame_encode (some out) room v t payload n ≡ (negsuc 0, some out)
          × ((payload_max < n) ⊎ ((0 < n) × (is_null payload ≡ true))))
unfolding frame_encode
frame_encode-status out room v t n payload = ground arith

-- The decoder's statuses in the order of its tests: -2 for a short buffer, -3 for another magic,
-- -4 for a length over the cap, else 0. The frame behind `out` is written in the last two cases only.
pub frame_decode-status :
    (buf : List ℕ) (in_len : ℕ) (old : RpcFrame)
    → let r = frame_decode (some buf) in_len (some old) in
      ((r ≡ (negsuc 1, some old)) × (in_len < header_sz))
      ⊎ ((r ≡ (negsuc 2, some old)) × (header_sz ≤ in_len) × (has_magic buf ≡ false))
      ⊎ ((r ≡ (negsuc 3, some (header_of buf))) × (payload_max < (header_of buf).length))
      ⊎ ((r ≡ (pos 0, some (header_of buf)))
          × (header_sz ≤ in_len)
          × (has_magic buf ≡ true)
          × ((header_of buf).length ≤ payload_max))
unfolding frame_decode
frame_decode-status buf in_len old = ground arith
