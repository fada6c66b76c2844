-- ===== src/Transfer/Stripes.antt =====
-- striped_file.rs: which part of a file each stream carries, and the handshake of a stream.
pub mod Division
pub mod Inversion
pub mod Cover
pub mod Handshake
pub mod Accepted
mod Tests
use networkcopy_speed.Common.{
  ℕ, ◌+◌, ◌-◌, ◌*◌, ◌/◌, ◌%◌, min, Bool, not, ◌&&◌, ◌||◌, List, [], ◌∷◌, ◌++◌, Option, none, some,
  ltb, leb, ◌==◌, if◌then◌else◌, IoResult, io_error, ErrorKind, ok, reject_if, ok_or, ◌>>=◌, ◌>>◌,
  u64_mod, ◌^◌,
}
use networkcopy_speed.Wire.Bytes.{Reader, be_bytes, read_exact, read_be, same_bytes}

-- `u64::div_ceil`.
unfoldable pub div_ceil : ℕ → ℕ → ℕ
div_ceil a b = if a % b == 0 then a / b else a / b + 1

-- `u64::checked_mul`.
abbrev pub checked_mul : ℕ → ℕ → Option ℕ
checked_mul a b = if ltb (a * b) u64_mod then some (a * b) else none

unfoldable pub stripe_range : ℕ → ℕ → ℕ → IoResult (ℕ × ℕ)
unfolding div_ceil
stripe_range file_len stream_id data_stream_count = do
  reject_if (data_stream_count == 0 || leb data_stream_count stream_id)
      (io_error ErrorKind.invalid_input "stripe stream ID is outside the configured range")
  let stripe_size = div_ceil file_len data_stream_count
  if file_len == 0 then ok (0, 0) else do
    offset ←
        ok_or (checked_mul stripe_size stream_id)
          (io_error ErrorKind.other "stripe offset overflowed")
    if leb file_len offset
        then ok (file_len, 0)
        else ok (offset, min (file_len - offset) stripe_size)

pub record StripeHandshake : Type 0 where
  pub stream_id : ℕ
  pub stream_count : ℕ
  pub file_len : ℕ
  pub offset : ℕ
  pub length : ℕ

-- The checks of validate_handshake; `as u32` wraps.
unfoldable pub validate_handshake : StripeHandshake → ℕ → ℕ → IoResult (Unit {0})
validate_handshake h file_len data_stream_count = do
  reject_if (not (h.file_len == file_len))
      (io_error ErrorKind.invalid_data "stripe connection announced an incorrect file length")
  reject_if (not (h.stream_count == data_stream_count % 2 ^ 32))
      (io_error ErrorKind.invalid_data "stripe connection announced an incorrect stream count")
  (offset, length) ← stripe_range file_len h.stream_id data_stream_count
  reject_if (not (offset == h.offset && length == h.length))
      (io_error ErrorKind.invalid_data "stripe announced another offset or length than expected")

abbrev pub stripe_magic : List ℕ
stripe_magic = b'N' ∷ b'C' ∷ b'S' ∷ b'5' ∷ []

abbrev pub stripe_version : ℕ
stripe_version = 1

-- The bytes that write_handshake hands to its writer, in order.
unfoldable pub write_handshake : StripeHandshake → List ℕ
write_handshake h =
    stripe_magic
    ++ (be_bytes 2 stripe_version
        ++ (be_bytes 4 h.stream_id
            ++ (be_bytes 4 h.stream_count
                ++ (be_bytes 8 h.file_len ++ (be_bytes 8 h.offset ++ be_bytes 8 h.length)))))

unfoldable pub read_handshake : Reader StripeHandshake
read_handshake bytes = do
  (magic, behind_magic) ← read_exact 4 bytes
  reject_if (not (same_bytes magic stripe_magic))
      (io_error ErrorKind.invalid_data "stripe connection used an invalid protocol magic")
  (version, behind_version) ← read_be 2 behind_magic
  reject_if (not (version == stripe_version))
      (io_error ErrorKind.invalid_data "unsupported stripe protocol version")
  (stream_id, behind_id) ← read_be 4 behind_version
  (stream_count, behind_count) ← read_be 4 behind_id
  (file_len, behind_len) ← read_be 8 behind_count
  (offset, behind_offset) ← read_be 8 behind_len
  (length, behind_length) ← read_be 8 behind_offset
  ok (
    record {
      stream_id = stream_id;
      stream_count = stream_count;
      file_len = file_len;
      offset = offset;
      length = length;
    },
    behind_length,
  )
