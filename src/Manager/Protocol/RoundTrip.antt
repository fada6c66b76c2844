-- ===== src/Manager/Protocol/RoundTrip.antt =====
-- Reading back what write_frame of management_protocol.rs wrote, and writing back what was read.
use mathlib.Core.List.{append_assoc, append-nil}
use networkcopy_speed.Common.{
  ℕ, ◌^◌, ◌≤◌, ◌<◌, ◌≡◌, refl, ap, ◌∙◌, List, ◌∷◌, ◌++◌, length, ok, ◌>>=◌, arith, All,
  le→ltb_false,
}
use networkcopy_speed.Wire.Bytes.{
  IsByte, le_bytes, from_le_bytes, read_exact, slice, from_le_bytes-le_bytes, read_exact-append,
  same_bytes_refl,
}
use networkcopy_speed.Wire.Slices.{byte_at, drop-slice, drop-byte_at, drop_all, le_bytes-slice}
use networkcopy_speed.Manager.Protocol.{
  ManagementMessageKind, discriminant, try_from, ManagementFrame, management_protocol_version,
  max_management_payload_bytes, management_magic, management_header_bytes, validate_payload_length,
  write_frame, read_frame, read_behind_header, hello_request,
}

pub try_from-discriminant : (k : ManagementMessageKind) → try_from (discriminant k) ≡ ok k
unfolding try_from discriminant
try_from-discriminant hello_request = refl
try_from-discriminant _ = refl

pub discriminant-try_from :
    (v : ℕ) (k : ManagementMessageKind) → try_from v ≡ ok k → discriminant k ≡ v
unfolding try_from discriminant
discriminant-try_from v hello_request h = ground arith
discriminant-try_from v _ h = ground arith

-- The 20 bytes in front of a payload.
unfoldable pub header : ℕ → ℕ → ℕ → List ℕ
header kind request_id payload_length =
    management_magic
    ++ (le_bytes 2 management_protocol_version
        ++ (kind ∷ 0 ∷ (le_bytes 8 request_id ++ le_bytes 4 payload_length)))

module _ (kind request_id payload_length : ℕ) where
  abbrev the_header : List ℕ
  the_header = header kind request_id payload_length

  header_length : length the_header ≡ management_header_bytes
  unfolding header le_bytes
  header_length = refl

  header_magic : slice 0 4 the_header ≡ management_magic
  unfolding header le_bytes
  header_magic = refl

  header_version : slice 4 2 the_header ≡ le_bytes 2 management_protocol_version
  unfolding header le_bytes
  header_version = refl

  header_kind : byte_at 6 the_header ≡ kind
  unfolding header le_bytes
  header_kind = refl

  header_reserved : byte_at 7 the_header ≡ 0
  unfolding header le_bytes
  header_reserved = refl

  header_request_id : slice 8 8 the_header ≡ le_bytes 8 request_id
  unfolding header le_bytes
  header_request_id = refl

  header_payload_length : slice 16 4 the_header ≡ le_bytes 4 payload_length
  unfolding header le_bytes
  header_payload_length = refl

-- A frame in bytes: the header, then the payload.
unfoldable pub frame_bytes : ManagementFrame → List ℕ
frame_bytes f = header (discriminant f.kind) f.request_id (length f.payload) ++ f.payload

frame_bytes-layout :
    (f : ManagementFrame)
    → frame_bytes f
      ≡ management_magic
        ++ (le_bytes 2 management_protocol_version
            ++ (discriminant f.kind
                ∷ 0
                ∷ (le_bytes 8 f.request_id ++ (le_bytes 4 (length f.payload) ++ f.payload))))
unfolding frame_bytes header le_bytes
frame_bytes-layout f = refl

pub write_frame_complete :
    (f : ManagementFrame)
    → length f.payload ≤ max_management_payload_bytes
    → write_frame f ≡ ok (frame_bytes f)
unfolding write_frame validate_payload_length
write_frame_complete f small = rw (frame_bytes-layout f) (ground arith)

-- What `read_frame` makes of a header and the bytes behind it.
read_frame-header :
    (kind : ManagementMessageKind) (request_id n : ℕ) (behind : List ℕ)
    → request_id < 2 ^ 64
    → n ≤ max_management_payload_bytes
    → read_frame (header (discriminant kind) request_id n ++ behind) ≡ (do
      (payload, rest) ← read_exact n behind
      ok (record { request_id = request_id; kind = kind; payload = payload }, rest))
unfolding read_frame read_behind_header
read_frame-header kind request_id n behind h small =
    rw
      (
        read_exact-append _ (header (discriminant kind) request_id n) behind (header_length _ _ _),
        header_magic (discriminant kind) request_id n,
        same_bytes_refl management_magic,
        header_version (discriminant kind) request_id n,
        from_le_bytes-le_bytes 2 management_protocol_version (omega arith),
        header_kind (discriminant kind) request_id n,
        try_from-discriminant kind,
        header_reserved (discriminant kind) request_id n,
        header_payload_length (discriminant kind) request_id n,
        from_le_bytes-le_bytes 4 n (omega arith),
        le→ltb_false max_management_payload_bytes n small,
        header_request_id (discriminant kind) request_id n,
        from_le_bytes-le_bytes 8 request_id h,
      )
      refl

-- A frame whose request id is of 64 bits and whose payload is within the byte limit is written, and
-- `read_frame` reads it back from what was written, leaving the bytes behind it.
pub read_frame-write_frame :
    (f : ManagementFrame) (rest : List ℕ)
    → f.request_id < 2 ^ 64
    → length f.payload ≤ max_management_payload_bytes
    → (bytes : List ℕ) × (write_frame f ≡ ok bytes) × (read_frame (bytes ++ rest) ≡ ok (f, rest))
unfolding frame_bytes
read_frame-write_frame f rest h small = (
  frame_bytes f,
  write_frame_complete f small,
  rw
      (
        append_assoc (header (discriminant f.kind) f.request_id (length f.payload)) f.payload rest,
        read_frame-header f.kind f.request_id (length f.payload) (f.payload ++ rest) h small,
        read_exact-append (length f.payload) f.payload rest refl,
      )
      refl,
)

header_fields :
    (buffer : List ℕ)
    → length buffer ≡ 20
    → buffer
      ≡ slice 0 4 buffer
        ++ (slice 4 2 buffer
            ++ (byte_at 6 buffer ∷ byte_at 7 buffer ∷ (slice 8 8 buffer ++ slice 16 4 buffer)))
header_fields buffer len =
    drop-slice 0 4 buffer
    ∙ ap (◌++◌ (slice 0 4 buffer)) (
        drop-slice 4 2 buffer
        ∙ ap (◌++◌ (slice 4 2 buffer)) (
            drop-byte_at 6 buffer (omega arith)
            ∙ ap (◌∷◌ (byte_at 6 buffer)) (
                drop-byte_at 7 buffer (omega arith)
                ∙ ap (◌∷◌ (byte_at 7 buffer)) (
                    drop-slice 8 8 buffer
                    ∙ ap (◌++◌ (slice 8 8 buffer)) (
                        drop-slice 16 4 buffer
                        ∙ ap (◌++◌ (slice 16 4 buffer)) (drop_all 20 buffer len)
                        ∙ append-nil _)))))

-- A buffer of 20 bytes whose fixed fields hold what `read_frame` asks for is a header.
pub header_of :
    (buffer : List ℕ) (kind : ℕ)
    → length buffer ≡ 20
    → All IsByte buffer
    → slice 0 4 buffer ≡ management_magic
    → from_le_bytes (slice 4 2 buffer) ≡ management_protocol_version
    → byte_at 6 buffer ≡ kind
    → byte_at 7 buffer ≡ 0
    → buffer ≡ header kind (from_le_bytes (slice 8 8 buffer)) (from_le_bytes (slice 16 4 buffer))
unfolding header
header_of buffer kind len bytes magic version k reserved = cc (
  header_fields buffer len,
  le_bytes-slice 4 2 buffer (omega arith) bytes,
  le_bytes-slice 8 8 buffer (omega arith) bytes,
  le_bytes-slice 16 4 buffer (omega arith) bytes,
)
