-- ===== src/Frame.antt =====
-- src/supervisor/protocol.c: the frames that agents and the daemon exchange. A buffer is the list
-- of its bytes, a pointer that may be NULL an `Option`, and a status the `int` that is returned.
use Prim.Native.Nat.{bit_or}
use retrace.Prelude.{
  ℕ, ◌+◌, ◌*◌, ◌/◌, ◌%◌, ◌^◌, Bool, true, false, ◌&&◌, Option, none, some, List, [], ◌∷◌, ltb, ◌==◌,
  not, if◌then◌else◌, length, get_or, set, take, CStr, codes,
}
use retrace.Prelude.Int.{ℤ, pos, negsuc}
use retrace.Prelude.Store.{write_at}
pub mod Bytes
pub mod RoundTrip
pub mod Rejects
mod Tests

abbrev pub payload_max : ℕ
payload_max = 2 ^ 20

abbrev pub header_sz : ℕ
header_sz = 12

-- `struct retrace_rpc_frame`
pub record RpcFrame : Type 0 where
  pub version : ℕ
  pub type : ℕ
  pub length : ℕ

-- `put_u16le(buf + i, v)`
unfoldable pub put_u16le : List ℕ → ℕ → ℕ → List ℕ
put_u16le buf i v = set (set buf i (v % 256)) (i + 1) (v / 256 % 256)

-- `put_u32le(buf + i, v)`
unfoldable pub put_u32le : List ℕ → ℕ → ℕ → List ℕ
put_u32le buf i v =
    set (set (set (set buf i (v % 256)) (i + 1) (v / 2 ^ 8 % 256)) (i + 2) (v / 2 ^ 16 % 256))
      (i + 3) (v / 2 ^ 24 % 256)

-- `get_u16le(buf + i)`
unfoldable pub get_u16le : List ℕ → ℕ → ℕ
get_u16le buf i = bit_or (get_or buf i 0) (get_or buf (i + 1) 0 * 2 ^ 8) % 2 ^ 16

-- `get_u32le(buf + i)`
unfoldable pub get_u32le : List ℕ → ℕ → ℕ
get_u32le buf i =
    bit_or
      (bit_or (bit_or (get_or buf i 0) (get_or buf (i + 1) 0 * 2 ^ 8))
        (get_or buf (i + 2) 0 * 2 ^ 16))
      (get_or buf (i + 3) 0 * 2 ^ 24)

-- The stores of the header at offsets 0 to 11.
unfoldable pub write_header : List ℕ → ℕ → ℕ → ℕ → List ℕ
unfolding put_u16le put_u32le
write_header buf version type payload_len =
    let magic = set (set (set (set buf 0 b'R') 1 b'T') 2 b'R') 3 b'D' in
    put_u32le (put_u16le (put_u16le magic 4 version) 6 type) 8 payload_len

unfoldable pub is_null : Option (List ℕ) → Bool
is_null none = true
is_null (some _) = false

-- `memcpy(out + 12, payload, payload_len)`
unfoldable pub copy_payload : List ℕ → Option (List ℕ) → ℕ → List ℕ
copy_payload buf none n = buf
copy_payload buf (some bytes) n = write_at buf header_sz (take n bytes)

-- The status and the buffer after the call.
unfoldable pub frame_encode :
    Option (List ℕ) → ℕ → ℕ → ℕ → Option (List ℕ) → ℕ → ℤ × Option (List ℕ)
unfolding write_header is_null copy_payload
frame_encode none out_cap version type payload payload_len = (negsuc 0, none)
frame_encode (some out) out_cap version type payload payload_len =
    if ltb payload_max payload_len
    then (negsuc 0, some out)
    else if ltb 0 payload_len && is_null payload
    then (negsuc 0, some out)
    else if ltb out_cap (header_sz + payload_len)
    then (negsuc 1, some out)
    else (
      pos 0,
      some (
          let written = write_header out version type payload_len in
          if ltb 0 payload_len then copy_payload written payload payload_len else written),
    )

-- `in[0..3]` is the magic.
unfoldable pub has_magic : List ℕ → Bool
has_magic buf =
    get_or buf 0 0 == b'R'
    && get_or buf 1 0 == b'T'
    && get_or buf 2 0 == b'R'
    && get_or buf 3 0 == b'D'

unfoldable pub header_of : List ℕ → RpcFrame
unfolding get_u16le get_u32le
header_of buf = record {
  version = get_u16le buf 4;
  type = get_u16le buf 6;
  length = get_u32le buf 8;
}

-- The status and the frame behind `out` after the call.
unfoldable pub frame_decode : Option (List ℕ) → ℕ → Option RpcFrame → ℤ × Option RpcFrame
unfolding has_magic header_of
frame_decode none in_len out = (negsuc 0, out)
frame_decode (some buf) in_len none = (negsuc 0, none)
frame_decode (some buf) in_len (some out) =
    if ltb in_len header_sz
    then (negsuc 1, some out)
    else if not (has_magic buf)
    then (negsuc 2, some out)
    else let frame = header_of buf in
      if ltb payload_max frame.length then (negsuc 3, some frame) else (pos 0, some frame)

-- `RETRACE_RPC_MSG_TABLE` as `g_msg_names`
abbrev pub msg_names : List (ℕ × CStr)
msg_names =
    (1, codes "HELLO")
    ∷ (2, codes "HEARTBEAT")
    ∷ (3, codes "POLICY_ACK")
    ∷ (4, codes "EVENT")
    ∷ (5, codes "RING_DATA")
    ∷ (6, codes "BYE")
    ∷ (16, codes "WELCOME")
    ∷ (17, codes "POLICY_SET")
    ∷ (18, codes "CMD")
    ∷ (19, codes "PING")
    ∷ []

unfoldable pub name_in : List (ℕ × CStr) → ℕ → CStr
name_in [] type = codes "?"
name_in ((id, name) ∷ rest) type = if id == type then name else name_in rest type

unfoldable pub msg_name : ℕ → CStr
unfolding name_in
msg_name type = name_in msg_names type
