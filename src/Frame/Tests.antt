-- ===== src/Frame/Tests.antt =====
-- Frames of the wire format, encoded and decoded.
use retrace.Prelude.{
  ℕ, ◌+◌, ◌≤◌, ◌<◌, ◌≡◌, ◌⊎◌, refl, true, false, none, some, List, [], ◌∷◌, ◌++◌, arith, codes,
  replicate,
}
use retrace.Prelude.Store.{write_at}
use retrace.Prelude.Int.{pos, negsuc}
use retrace.Frame.{header_sz, payload_max, RpcFrame, frame_encode, msg_name, is_null}
use retrace.Frame.RoundTrip.{IsEncoded, frame_decode-encode}
use retrace.Frame.Rejects.{Encodable, frame_encode-status}

abbrev blank : List ℕ
blank = replicate 16 0

abbrev no_frame : RpcFrame
no_frame = record { version = 0; type = 0; length = 0 }

abbrev heartbeat : RpcFrame
heartbeat = record { version = 1; type = 2; length = 2 }

abbrev wire : List ℕ
wire = codes "RTRD" ++ 1 ∷ 0 ∷ 2 ∷ 0 ∷ 2 ∷ 0 ∷ 0 ∷ 0 ∷ codes "{}" ++ 0 ∷ 0 ∷ []

encodes_heartbeat : frame_encode (some blank) 16 1 2 (some (codes "{}")) 2 ≡ (pos 0, some wire)
unfolding frame_encode write_at
encodes_heartbeat = refl

names_ping : msg_name 19 ≡ codes "PING"
unfolding msg_name
names_ping = refl

frame_decode-encode_example : (buf : List ℕ) × IsEncoded blank (codes "{}") 16 1 2 2 no_frame buf
frame_decode-encode_example =
    frame_decode-encode blank (codes "{}") 16 1 2 2 no_frame (omega arith) (omega arith)
      (omega arith) (omega arith) (omega arith) (omega arith)

frame_encode-status_example :
    ((frame_encode (some blank) 13 1 2 (some (codes "{}")) 2).0 ≡ pos 0
      × Encodable 13 (some (codes "{}")) 2)
    ⊎ (frame_encode (some blank) 13 1 2 (some (codes "{}")) 2 ≡ (negsuc 1, some blank)
        × (2 ≤ payload_max)
        × (Path ℕ 2 0 ⊎ (is_null (some (codes "{}")) ≡ false))
        × (13 < header_sz + 2))
    ⊎ (frame_encode (some blank) 13 1 2 (some (codes "{}")) 2 ≡ (negsuc 0, some blank)
        × ((payload_max < 2) ⊎ ((0 < 2) × (is_null (some (codes "{}")) ≡ true))))
frame_encode-status_example = frame_encode-status blank 13 1 2 2 (some (codes "{}"))

-- Without a payload the length is refused before the room is looked at.
refuses_no_payload : frame_encode (some blank) 13 1 2 none 2 ≡ (negsuc 0, some blank)
unfolding frame_encode
refuses_no_payload = refl
