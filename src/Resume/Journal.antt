-- ===== src/Resume/Journal.antt =====
-- resume_state.rs: ResumeStripe and ResumeJournal, and the journal's file.
use Prim.Native.String.{String}
use networkcopy_speed.Common.{
  ℕ, zero, suc, Bool, not, ◌&&◌, ◌||◌, List, [], ◌∷◌, ◌++◌, length, retain, ltb, leb, ◌==◌,
  if◌then◌else◌, IoError, IoResult, io_error, ErrorKind, ok, reject_if, u32_try_from, ◌>>=◌, ◌>>◌,
}
use networkcopy_speed.Wire.Bytes.{Reader, be_bytes, read_exact, read_be, same_bytes}
use networkcopy_speed.Resume.Sets.{set_insert, set_contains}

pub record ResumeStripe : Type 0 where
  pub file_id : ℕ
  pub offset : ℕ
  pub length : ℕ

-- The derived order of stripes.
unfoldable pub before_stripe : ResumeStripe → ResumeStripe → Bool
before_stripe a b =
    ltb a.file_id b.file_id
    || a.file_id == b.file_id
      && (ltb a.offset b.offset || a.offset == b.offset && ltb a.length b.length)

abbrev pub invalid_input : String → IoError
invalid_input message = io_error ErrorKind.invalid_input message

abbrev pub invalid_data : String → IoError
invalid_data message = io_error ErrorKind.invalid_data message

-- ResumeStripe::new.
unfoldable pub new_stripe : ℕ → ℕ → ℕ → IoResult ResumeStripe
new_stripe file_id offset length = do
  reject_if (length == 0) (invalid_input "resume stripe length must not be zero")
  ok (record { file_id = file_id; offset = offset; length = length })

pub record ResumeJournal : Type 0 where
  pub manifest_fingerprint : ℕ
  pub data_stream_count : ℕ
  pub completed_stripes : List ResumeStripe
  pub completed_file_ids : List ℕ

-- ResumeJournal::new.
unfoldable pub new_journal : ℕ → ℕ → IoResult ResumeJournal
new_journal manifest_fingerprint data_stream_count = do
  reject_if (data_stream_count == 0)
      (invalid_input "resume journal requires at least one data stream")
  streams ←
      u32_try_from data_stream_count (invalid_input "resume stream count cannot be represented")
  ok (record {
    manifest_fingerprint = manifest_fingerprint;
    data_stream_count = streams;
    completed_stripes = [];
    completed_file_ids = [];
  })

unfoldable pub mark_completed : ResumeJournal → ResumeStripe → ResumeJournal × Bool
mark_completed j stripe =
    let inserted = set_insert before_stripe stripe j.completed_stripes in
    (record j { completed_stripes = inserted.0 }, inserted.1)

unfoldable pub mark_file_completed : ResumeJournal → ℕ → ResumeJournal × Bool
mark_file_completed j file_id =
    let inserted = set_insert ltb file_id j.completed_file_ids in
    (record j { completed_file_ids = inserted.0 }, inserted.1)

unfoldable pub remove_completed_files : ResumeJournal → List ℕ → ResumeJournal × Bool
remove_completed_files j file_ids =
    let stripes =
      retain (λ stripe. not (set_contains ltb stripe.file_id file_ids)) j.completed_stripes in
    let files = retain (λ file_id. not (set_contains ltb file_id file_ids)) j.completed_file_ids in
    (
      record j { completed_stripes = stripes; completed_file_ids = files },
      not (length stripes == length j.completed_stripes)
          || not (length files == length j.completed_file_ids),
    )

abbrev pub journal_magic : List ℕ
journal_magic = b'N' ∷ b'C' ∷ b'R' ∷ b'1' ∷ []

abbrev pub journal_version_v1 : ℕ
journal_version_v1 = 1

abbrev pub journal_version : ℕ
journal_version = 2

abbrev pub max_completed_stripes : ℕ
max_completed_stripes = 10_000_000

abbrev pub max_completed_files : ℕ
max_completed_files = 1_000_000

unfoldable pub write_stripe : ResumeStripe → List ℕ
write_stripe s = be_bytes 8 s.file_id ++ (be_bytes 8 s.offset ++ be_bytes 8 s.length)

unfoldable pub write_stripes : List ResumeStripe → List ℕ
write_stripes [] = []
write_stripes (s ∷ ss) = write_stripe s ++ write_stripes ss

unfoldable pub write_files : List ℕ → List ℕ
write_files [] = []
write_files (id ∷ ids) = be_bytes 8 id ++ write_files ids

-- The bytes that `write_to` hands to its writer, in order.
unfoldable pub write_to : ResumeJournal → IoResult (List ℕ)
write_to j = do
  stripe_count ←
      u32_try_from (length j.completed_stripes)
        (invalid_input "resume journal contains too many completed stripes")
  file_count ←
      u32_try_from (length j.completed_file_ids)
        (invalid_input "resume journal contains too many completed files")
  ok (
      journal_magic
      ++ (be_bytes 2 journal_version
          ++ (be_bytes 2 0
              ++ (be_bytes 8 j.manifest_fingerprint
                  ++ (be_bytes 4 j.data_stream_count
                      ++ (be_bytes 4 stripe_count
                          ++ (be_bytes 4 file_count
                              ++ (write_stripes j.completed_stripes
                                  ++ write_files j.completed_file_ids))))))))

-- What the file says before its stripes.
pub record JournalHeader : Type 0 where
  pub manifest_fingerprint : ℕ
  pub data_stream_count : ℕ
  pub stripe_count : ℕ
  pub completed_file_count : ℕ

-- Only from version 2 on does the file have completed files.
unfoldable pub read_file_count : ℕ → Reader ℕ
read_file_count version bytes =
    if leb journal_version version then read_be 4 bytes else ok (0, bytes)

-- The counts of `read_path`, their limits included.
unfoldable pub read_counts : ℕ → Reader JournalHeader
read_counts version bytes = do
  (manifest_fingerprint, behind_fingerprint) ← read_be 8 bytes
  (data_stream_count, behind_streams) ← read_be 4 behind_fingerprint
  reject_if (data_stream_count == 0) (invalid_data "resume journal stored zero data streams")
  (stripe_count, behind_stripes) ← read_be 4 behind_streams
  (file_count, behind_files) ← read_file_count version behind_stripes
  reject_if (ltb max_completed_stripes stripe_count)
      (invalid_data "resume journal contains too many stripes, exceeding the supported limit")
  reject_if (ltb max_completed_files file_count) (
      invalid_data
        "resume journal contains too many completed files, exceeding the supported limit")
  ok (
    record {
      manifest_fingerprint = manifest_fingerprint;
      data_stream_count = data_stream_count;
      stripe_count = stripe_count;
      completed_file_count = file_count;
    },
    behind_files,
  )

-- `read_path` up to its stripes.
unfoldable pub read_header : Reader JournalHeader
read_header bytes = do
  (magic, behind_magic) ← read_exact 4 bytes
  reject_if (not (same_bytes magic journal_magic))
      (invalid_data "resume journal used an invalid magic value")
  (version, behind_version) ← read_be 2 behind_magic
  reject_if (not (version == journal_version_v1 || version == journal_version))
      (invalid_data "unsupported resume journal version")
  (reserved, behind_reserved) ← read_be 2 behind_version
  reject_if (not (reserved == 0)) (invalid_data "resume journal reserved field was not zero")
  read_counts version behind_reserved

unfoldable pub read_stripe : Reader ResumeStripe
read_stripe bytes = do
  (file_id, behind_file) ← read_be 8 bytes
  (offset, behind_offset) ← read_be 8 behind_file
  (length, behind_length) ← read_be 8 behind_offset
  ok (record { file_id = file_id; offset = offset; length = length }, behind_length)

-- The loop over the stripes, with those that it has read.
unfoldable pub read_stripes : ℕ → List ResumeStripe → Reader (List ResumeStripe)
read_stripes zero set bytes = ok (set, bytes)
read_stripes (suc n) set bytes = do
  (stripe, behind) ← read_stripe bytes
  reject_if (stripe.length == 0) (invalid_data "resume journal contains a zero-length stripe")
  let inserted = set_insert before_stripe stripe set
  reject_if (not inserted.1) (invalid_data "resume journal contains a duplicate stripe")
  read_stripes n inserted.0 behind

-- The loop over the completed files.
unfoldable pub read_files : ℕ → List ℕ → Reader (List ℕ)
read_files zero set bytes = ok (set, bytes)
read_files (suc n) set bytes = do
  (file_id, behind) ← read_be 8 bytes
  let inserted = set_insert ltb file_id set
  reject_if (not inserted.1) (invalid_data "resume journal contains a duplicate completed file ID")
  read_files n inserted.0 behind

-- `read_path` on the bytes of the file.
unfoldable pub read_journal : List ℕ → IoResult ResumeJournal
read_journal bytes = do
  (header, behind_header) ← read_header bytes
  (stripes, behind_stripes) ← read_stripes header.stripe_count [] behind_header
  (file_ids, behind_files) ← read_files header.completed_file_count [] behind_stripes
  reject_if (not (length behind_files == 0)) (invalid_data "resume journal contains trailing data")
  ok (record {
    manifest_fingerprint = header.manifest_fingerprint;
    data_stream_count = header.data_stream_count;
    completed_stripes = stripes;
    completed_file_ids = file_ids;
  })

-- `load_existing` on the bytes of the file.
unfoldable pub load_existing : List ℕ → ℕ → ℕ → IoResult ResumeJournal
load_existing bytes expected_fingerprint expected_streams = do
  streams ←
      u32_try_from expected_streams
        (invalid_input "expected resume stream count cannot be represented")
  journal ← read_journal bytes
  reject_if (not (journal.manifest_fingerprint == expected_fingerprint))
      (invalid_data "resume journal manifest fingerprint is not the expected one")
  reject_if (not (journal.data_stream_count == streams))
      (invalid_data "resume journal stores other data streams than expected")
  ok journal
