-- ===== src/Manager/Protocol/Canonical.antt =====
-- Whatever read_frame of management_protocol.rs accepts is what write_frame writes.
use mathlib.Core.List.{append_assoc}
use networkcopy_speed.Common.{
  ℕ, ◌≤◌, ◌≡◌, sym, subst, ◌∙◌, Bool, true, List, ◌++◌, length, ok, arith, All, All-append-split,
  >>=-eq_ok,
}
use networkcopy_speed.Wire.Bytes.{
  IsByte, from_le_bytes, read_exact, slice, read_exact-eq_ok, same_bytes-eq,
}
use networkcopy_speed.Wire.Slices.{byte_at}
use networkcopy_speed.Manager.Protocol.{
  discriminant, try_from, ManagementFrame, management_protocol_version,
  max_management_payload_bytes, management_magic, management_header_bytes, write_frame, read_frame,
  read_behind_header,
}
use networkcopy_speed.Manager.Protocol.RoundTrip.{
  header, frame_bytes, header_of, write_frame_complete, discriminant-try_from,
}

-- What a successful `read_frame` has found.
record Accepted (bytes : List ℕ) (f : ManagementFrame) (rest : List ℕ) : Type 0 where
  buffer : List ℕ
  behind : List ℕ
  taken : read_exact management_header_bytes bytes ≡ ok (buffer, behind)
  magic : slice 0 4 buffer ≡ management_magic
  version : from_le_bytes (slice 4 2 buffer) ≡ management_protocol_version
  kind : byte_at 6 buffer ≡ discriminant f.kind
  reserved : byte_at 7 buffer ≡ 0
  request_id : from_le_bytes (slice 8 8 buffer) ≡ f.request_id
  small : from_le_bytes (slice 16 4 buffer) ≤ max_management_payload_bytes
  payload : read_exact (from_le_bytes (slice 16 4 buffer)) behind ≡ ok (f.payload, rest)

read_behind_header-eq_ok :
    (m : Bool) (v c r id n : ℕ) (bytes : List ℕ) (f : ManagementFrame) (rest : List ℕ)
    → read_behind_header m v c r id n bytes ≡ ok (f, rest)
    → (m ≡ true)
      × (v ≡ management_protocol_version)
      × (try_from c ≡ ok f.kind)
      × (r ≡ 0)
      × (id ≡ f.request_id)
      × (n ≤ max_management_payload_bytes)
      × (read_exact n bytes ≡ ok (f.payload, rest))
unfolding read_behind_header
read_behind_header-eq_ok m v c r id n bytes f rest e = ground arith

read_frame-Accepted :
    (bytes : List ℕ) (f : ManagementFrame) (rest : List ℕ)
    → read_frame bytes ≡ ok (f, rest)
    → Accepted bytes f rest
unfolding read_frame
read_frame-Accepted bytes f rest e =
    let ((buffer, behind), taken, e') = >>=-eq_ok (read_exact management_header_bytes bytes) _ e in
    let (m, v, c, r, id, n, p) = read_behind_header-eq_ok _ _ _ _ _ _ behind f rest e' in
    record {
      buffer = buffer;
      behind = behind;
      taken = taken;
      magic = same_bytes-eq _ _ m;
      version = v;
      kind = sym (discriminant-try_from _ f.kind c);
      reserved = r;
      request_id = id;
      small = n;
      payload = p;
    }

-- On a list of bytes, a frame that `read_frame` returns is one that `write_frame` writes, to exactly the
-- bytes that `read_frame` has taken from the front.
pub write_frame-read_frame :
    (bytes : List ℕ) (f : ManagementFrame) (rest : List ℕ)
    → All IsByte bytes
    → read_frame bytes ≡ ok (f, rest)
    → (written : List ℕ) × (write_frame f ≡ ok written) × (bytes ≡ written ++ rest)
unfolding frame_bytes
write_frame-read_frame bytes f rest h e =
    let a = read_frame-Accepted bytes f rest e in
    let (split, len) = read_exact-eq_ok _ bytes a.buffer a.behind a.taken in
    let (split', len') = read_exact-eq_ok _ a.behind f.payload rest a.payload in
    let whole =
      header_of a.buffer (discriminant f.kind) len
        (All-append-split IsByte a.buffer a.behind (subst (All IsByte) split h)).0 a.magic a.version
        a.kind a.reserved in
    (
      frame_bytes f,
      write_frame_complete f (omega (arith, a.small)),
      split
          ∙ cc (
            whole,
            split',
            a.request_id,
            len',
            append_assoc (header (discriminant f.kind) f.request_id (length f.payload)) f.payload
                rest,
          ),
    )
