-- ===== src/Transfer/Stripes/Handshake.antt =====
-- striped_file.rs: the handshake of a stream.
use mathlib.Core.List.{append_assoc}
use networkcopy_speed.Common.{ℕ, ◌^◌, ◌<◌, ◌≡◌, refl, List, ◌++◌, ok, arith}
use networkcopy_speed.Wire.Bytes.{be_bytes, read_exact-append, read_be-be_bytes, same_bytes_refl}
use networkcopy_speed.Transfer.Stripes.{
  StripeHandshake, write_handshake, read_handshake, stripe_magic, stripe_version,
}

-- The fields are of their widths.
pub record HandshakeFits (h : StripeHandshake) : Type 0 where
  pub stream_id : h.stream_id < 2 ^ 32
  pub stream_count : h.stream_count < 2 ^ 32
  pub file_len : h.file_len < 2 ^ 64
  pub offset : h.offset < 2 ^ 64
  pub length : h.length < 2 ^ 64

abbrev handshake_tail : StripeHandshake → List ℕ → List ℕ
handshake_tail h rest =
    be_bytes 4 h.stream_id
    ++ (be_bytes 4 h.stream_count
        ++ (be_bytes 8 h.file_len ++ (be_bytes 8 h.offset ++ (be_bytes 8 h.length ++ rest))))

abbrev handshake_range : StripeHandshake → List ℕ
handshake_range h = be_bytes 8 h.file_len ++ (be_bytes 8 h.offset ++ be_bytes 8 h.length)

abbrev handshake_fields : StripeHandshake → List ℕ
handshake_fields h = be_bytes 4 h.stream_id ++ (be_bytes 4 h.stream_count ++ handshake_range h)

write_handshake-append :
    (h : StripeHandshake) (rest : List ℕ)
    → write_handshake h ++ rest
      ≡ stripe_magic ++ (be_bytes 2 stripe_version ++ handshake_tail h rest)
unfolding write_handshake
write_handshake-append h rest =
    rw
      (
        append_assoc (be_bytes 2 stripe_version) (handshake_fields h) rest,
        append_assoc (be_bytes 4 h.stream_id) (be_bytes 4 h.stream_count ++ handshake_range h) rest,
        append_assoc (be_bytes 4 h.stream_count) (handshake_range h) rest,
        append_assoc (be_bytes 8 h.file_len) (be_bytes 8 h.offset ++ be_bytes 8 h.length) rest,
        append_assoc (be_bytes 8 h.offset) (be_bytes 8 h.length) rest,
      )
      refl

-- A handshake whose fields are of their widths is read back from what was written, and the bytes
-- behind it are left.
pub read_handshake-write_handshake :
    (h : StripeHandshake) (rest : List ℕ)
    → HandshakeFits h
    → read_handshake (write_handshake h ++ rest) ≡ ok (h, rest)
unfolding read_handshake
read_handshake-write_handshake h rest f =
    rw
      (
        write_handshake-append h rest,
        read_exact-append 4 stripe_magic (be_bytes 2 stripe_version ++ handshake_tail h rest) refl,
      )
      (rw
        (
          same_bytes_refl stripe_magic,
          read_be-be_bytes 2 stripe_version (handshake_tail h rest) (omega arith),
        )
        (rw (read_be-be_bytes 4 h.stream_id _ f.stream_id) (
          rw (read_be-be_bytes 4 h.stream_count _ f.stream_count) (
            rw (read_be-be_bytes 8 h.file_len _ f.file_len) (
              rw (read_be-be_bytes 8 h.offset _ f.offset)
                (rw (read_be-be_bytes 8 h.length rest f.length) refl))))))
