-- ===== src/Manager/Protocol/Tests.antt =====
-- Concrete frames, and the theorems on them at concrete inputs.
use networkcopy_speed.Common.{ℕ, ◌≡◌, refl, List, [], ◌∷◌, ◌++◌, ok, All, arith}
use networkcopy_speed.Wire.Bytes.{IsByte, read_exact, same_bytes, from_le_bytes}
use networkcopy_speed.Manager.Protocol.RoundTrip.{read_frame-write_frame}
use networkcopy_speed.Manager.Protocol.Canonical.{write_frame-read_frame}
use networkcopy_speed.Manager.Protocol.{
  ManagementFrame, start_send_request, write_frame, read_frame, read_behind_header, try_from,
}

abbrev send_frame : ManagementFrame
send_frame = record { request_id = 0x0102; kind = start_send_request; payload = 7 ∷ 8 ∷ [] }

abbrev sent : List ℕ
sent =
    b'N' ∷ b'C' ∷ b'M' ∷ b'1' ∷ 2 ∷ 0 ∷ 0x22 ∷ 0 ∷ 2 ∷ 1 ∷ 0 ∷ 0 ∷ 0 ∷ 0 ∷ 0 ∷ 0 ∷ 2 ∷ 0 ∷ 0 ∷ 0 ∷ 7
    ∷ 8 ∷ []

sent-Bytes : All IsByte (sent ++ 9 ∷ [])
sent-Bytes = search arith

read_frame-write_frame_example :
    (bytes : List ℕ) × (write_frame send_frame ≡ ok bytes)
    × (read_frame (bytes ++ 9 ∷ []) ≡ ok (send_frame, 9 ∷ []))
read_frame-write_frame_example =
    read_frame-write_frame send_frame (9 ∷ []) (omega arith) (omega arith)

write_frame-read_frame_example :
    (written : List ℕ) × (write_frame send_frame ≡ ok written)
    × (sent ++ 9 ∷ [] ≡ written ++ 9 ∷ [])
unfolding read_frame read_exact read_behind_header same_bytes from_le_bytes try_from
write_frame-read_frame_example =
    write_frame-read_frame (sent ++ 9 ∷ []) send_frame (9 ∷ []) sent-Bytes refl
