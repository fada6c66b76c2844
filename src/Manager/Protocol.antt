-- ===== src/Manager/Protocol.antt =====
-- management_protocol.rs: the frames that the Manager and the Agents exchange.
pub mod RoundTrip
pub mod Canonical
mod Tests
use Prim.Native.String.{String}
use networkcopy_speed.Common.{
  ℕ, ◌+◌, ◌*◌, ◌≤◌, ◌<◌, ◌≡◌, Bool, not, List, [], ◌∷◌, ◌++◌, Option, none, some, length, get_elem?,
  ltb, ◌==◌, if◌then◌else◌, u32_try_from, IoResult, IoError, io_error, ErrorKind, Result, ok, err,
  reject_if, ok_or, ◌>>=◌, ◌>>◌,
}
use networkcopy_speed.Wire.Bytes.{Reader, le_bytes, from_le_bytes, read_exact, same_bytes, slice}
use networkcopy_speed.Wire.Slices.{byte_at}

pub data ManagementMessageKind : Type 0 where
  hello_request hello_response : ManagementMessageKind
  list_roots_request list_roots_response : ManagementMessageKind
  list_directory_request list_directory_response : ManagementMessageKind
  is_desktop_path_request is_desktop_path_response : ManagementMessageKind
  prepare_receive_request prepare_receive_response : ManagementMessageKind
  start_send_request start_send_response : ManagementMessageKind
  cancel_job_request cancel_job_response : ManagementMessageKind
  job_status_request job_status_response : ManagementMessageKind
  agent_snapshot_request agent_snapshot_response : ManagementMessageKind
  error_response : ManagementMessageKind

-- `kind as u8`.
pub discriminant : ManagementMessageKind → ℕ
discriminant hello_request = 0x01
discriminant hello_response = 0x02
discriminant list_roots_request = 0x10
discriminant list_roots_response = 0x11
discriminant list_directory_request = 0x12
discriminant list_directory_response = 0x13
discriminant is_desktop_path_request = 0x14
discriminant is_desktop_path_response = 0x15
discriminant prepare_receive_request = 0x20
discriminant prepare_receive_response = 0x21
discriminant start_send_request = 0x22
discriminant start_send_response = 0x23
discriminant cancel_job_request = 0x24
discriminant cancel_job_response = 0x25
discriminant job_status_request = 0x26
discriminant job_status_response = 0x27
discriminant agent_snapshot_request = 0x28
discriminant agent_snapshot_response = 0x29
discriminant error_response = 0xff

abbrev invalid_data {ℓ} : {A : Type ℓ} → String → IoResult A
invalid_data message = err (io_error ErrorKind.invalid_data message)

-- ManagementMessageKind::try_from.
pub try_from : ℕ → IoResult ManagementMessageKind
try_from value =
    if value == 0x01
    then ok hello_request
    else if value == 0x02
    then ok hello_response
    else if value == 0x10
    then ok list_roots_request
    else if value == 0x11
    then ok list_roots_response
    else if value == 0x12
    then ok list_directory_request
    else if value == 0x13
    then ok list_directory_response
    else if value == 0x14
    then ok is_desktop_path_request
    else if value == 0x15
    then ok is_desktop_path_response
    else if value == 0x20
    then ok prepare_receive_request
    else if value == 0x21
    then ok prepare_receive_response
    else if value == 0x22
    then ok start_send_request
    else if value == 0x23
    then ok start_send_response
    else if value == 0x24
    then ok cancel_job_request
    else if value == 0x25
    then ok cancel_job_response
    else if value == 0x26
    then ok job_status_request
    else if value == 0x27
    then ok job_status_response
    else if value == 0x28
    then ok agent_snapshot_request
    else if value == 0x29
    then ok agent_snapshot_response
    else if value == 0xff
    then ok error_response
    else invalid_data "unknown management message kind"

pub record ManagementFrame : Type 0 where
  pub request_id : ℕ
  pub kind : ManagementMessageKind
  pub payload : List ℕ

abbrev pub management_protocol_version : ℕ
management_protocol_version = 2

abbrev pub max_management_payload_bytes : ℕ
max_management_payload_bytes = 1024 * 1024

abbrev pub management_magic : List ℕ
management_magic = b'N' ∷ b'C' ∷ b'M' ∷ b'1' ∷ []

abbrev pub management_header_bytes : ℕ
management_header_bytes = 20

pub validate_payload_length : ℕ → IoResult (Unit {0})
validate_payload_length payload_length =
    reject_if (ltb max_management_payload_bytes payload_length)
      (io_error ErrorKind.invalid_input "management payload exceeds the byte limit")

-- ManagementFrame::new.
pub new_frame : ℕ → ManagementMessageKind → List ℕ → IoResult ManagementFrame
new_frame request_id kind payload = do
  validate_payload_length (length payload)
  ok (record { request_id = request_id; kind = kind; payload = payload })

-- The bytes that `write_frame` hands to its writer, in order.
pub write_frame : ManagementFrame → IoResult (List ℕ)
unfolding validate_payload_length
write_frame frame = do
  validate_payload_length (length frame.payload)
  payload_length ←
      u32_try_from (length frame.payload)
        (io_error ErrorKind.invalid_input "management payload length cannot be represented")
  ok (
      management_magic
      ++ (le_bytes 2 management_protocol_version
          ++ (discriminant frame.kind
              ∷ 0
              ∷ (le_bytes 8 frame.request_id ++ (le_bytes 4 payload_length ++ frame.payload)))))

-- `read_frame` behind its header: the checks on the header's fields in their order, then the payload.
read_behind_header : Bool → ℕ → ℕ → ℕ → ℕ → ℕ → Reader ManagementFrame
read_behind_header magic_matches version kind_code reserved request_id payload_length bytes = do
  reject_if (not magic_matches)
      (io_error ErrorKind.invalid_data "management frame used an invalid magic value")
  reject_if (not (version == management_protocol_version))
      (io_error ErrorKind.invalid_data "unsupported management protocol version")
  kind ← try_from kind_code
  reject_if (not (reserved == 0))
      (io_error ErrorKind.invalid_data "management frame reserved byte was not zero")
  reject_if (ltb max_management_payload_bytes payload_length)
      (io_error ErrorKind.invalid_data "management payload exceeds the byte limit")
  (payload, rest) ← read_exact payload_length bytes
  ok (record { request_id = request_id; kind = kind; payload = payload }, rest)

pub read_frame : Reader ManagementFrame
read_frame bytes = do
  (header, behind) ← read_exact management_header_bytes bytes
  read_behind_header (same_bytes (slice 0 4 header) management_magic)
      (from_le_bytes (slice 4 2 header)) (byte_at 6 header) (byte_at 7 header)
      (from_le_bytes (slice 8 8 header)) (from_le_bytes (slice 16 4 header)) behind
