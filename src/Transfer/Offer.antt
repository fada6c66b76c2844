-- ===== src/Transfer/Offer.antt =====
-- multistream_copy.rs: what a receiver's offer of completed stripes and unchanged files takes out of a
-- plan. The lanes are their lists of tasks; a BTreeSet is an ascending list.
pub mod Sets
pub mod Left
pub mod Applied
pub mod Gone
mod Tests
use networkcopy_speed.Common.{
  ℕ, suc, ◌+◌, Bool, true, false, not, ◌&&◌, ◌||◌, List, [], ◌∷◌, ◌++◌, Option, none, some, length,
  get_elem?, retain, ltb, leb, ◌==◌, if◌then◌else◌, IoError, IoResult, io_error, ErrorKind, ok,
  reject_if, ok_or, ◌>>=◌, ◌>>◌, checked_add,
}
use networkcopy_speed.Resume.Sets.{set_insert, set_contains}
use networkcopy_speed.Resume.Journal.{ResumeStripe, before_stripe, new_stripe, invalid_data}
use networkcopy_speed.Transfer.Manifest.{ManifestEntry, is_tiny}
use networkcopy_speed.Transfer.Plan.{
  TransferTask, whole_file, tiny_pack, stripe, other_error, invalid_input, is_empty,
  max_tiny_pack_files,
}

-- The two counts of a LaneReport that an offer changes.
pub record LaneReport : Type 0 where
  pub files_copied : ℕ
  pub bytes_copied : ℕ

pub record ResumeApplication : Type 0 where
  pub logical_report : LaneReport
  pub stripe_count : ℕ
  pub resumed_bytes : ℕ
  pub unchanged_file_count : ℕ
  pub unchanged_bytes : ℕ

-- `ResumeApplication::default()`.
abbrev pub nothing_applied : ResumeApplication
nothing_applied = record {
  logical_report = record { files_copied = 0; bytes_copied = 0 };
  stripe_count = 0;
  resumed_bytes = 0;
  unchanged_file_count = 0;
  unchanged_bytes = 0;
}

-- The error is that of both counts, whose messages name the count and the side.
unfoldable pub add_lane_counts : LaneReport → ℕ → ℕ → IoResult LaneReport
add_lane_counts report files bytes = do
  files_copied ← ok_or (checked_add report.files_copied files) (other_error "file count overflowed")
  bytes_copied ← ok_or (checked_add report.bytes_copied bytes) (other_error "byte count overflowed")
  ok (record { files_copied = files_copied; bytes_copied = bytes_copied })

-- The loop of planned_resume_stripes over the tasks of one lane.
unfoldable pub plan_stripes : List TransferTask → List ResumeStripe → IoResult (List ResumeStripe)
plan_stripes [] planned = ok planned
plan_stripes (stripe file_id offset length ∷ tasks) planned = do
  new ← new_stripe file_id offset length
  reject_if (not (set_insert before_stripe new planned).1)
      (other_error "transfer plan contains a duplicate resume stripe")
  plan_stripes tasks (set_insert before_stripe new planned).0
plan_stripes (whole_file file_id ∷ tasks) planned = plan_stripes tasks planned
plan_stripes (tiny_pack file_ids total_bytes ∷ tasks) planned = plan_stripes tasks planned

-- `lanes.iter().flatten()`.
abbrev pub flatten {ℓ} : {A : Type ℓ} → List (List A) → List A
flatten [] = []
flatten (lane ∷ lanes) = lane ++ flatten lanes

unfoldable pub planned_resume_stripes : List (List TransferTask) → IoResult (List ResumeStripe)
planned_resume_stripes lanes = plan_stripes (flatten lanes) []

-- `a.difference(&b).next().is_none()`.
abbrev pub within {ℓ} : {A : Type ℓ} → (A → A → Bool) → List A → List A → Bool
within before [] b = true
within before (x ∷ a) b = set_contains before x b && within before a b

unfoldable pub validate_resume_offer :
    List (List TransferTask) → List ResumeStripe → IoResult (Unit {0})
validate_resume_offer lanes offered = do
  planned ← planned_resume_stripes lanes
  reject_if (not (within before_stripe offered planned))
      (invalid_data "receiver offered an unplanned completed stripe")

abbrev pub max_unchanged_offer_files : ℕ
max_unchanged_offer_files = 1_000_000

-- The loop of validate_unchanged_offer.
unfoldable pub known_files : ℕ → List ℕ → IoResult (Unit {0})
known_files manifest_length [] = ok tt
known_files manifest_length (file_id ∷ ids) = do
  reject_if (leb manifest_length file_id)
      (invalid_data "receiver offered an unknown unchanged file ID")
  known_files manifest_length ids

unfoldable pub validate_unchanged_offer : List ManifestEntry → List ℕ → IoResult (Unit {0})
validate_unchanged_offer manifest unchanged_file_ids = do
  reject_if (ltb max_unchanged_offer_files (length unchanged_file_ids))
      (invalid_data "unchanged-file offer exceeds the supported limit")
  known_files (length manifest) unchanged_file_ids

-- Whether a stripe is of one of the files.
abbrev pub overlaps : List ResumeStripe → List ℕ → Bool
overlaps [] unchanged_file_ids = false
overlaps (offer ∷ offered) unchanged_file_ids =
    set_contains ltb offer.file_id unchanged_file_ids || overlaps offered unchanged_file_ids

-- The loop over the unchanged files.
unfoldable pub apply_unchanged :
    List ManifestEntry → List ℕ → ResumeApplication → IoResult ResumeApplication
apply_unchanged manifest [] a = ok a
apply_unchanged manifest (file_id ∷ ids) a = do
  entry ←
      ok_or (get_elem? manifest file_id)
        (invalid_data "receiver offered an unknown unchanged file ID")
  report ← add_lane_counts a.logical_report 1 entry.file_size
  count ←
      ok_or (checked_add a.unchanged_file_count 1) (other_error "unchanged file count overflowed")
  bytes ←
      ok_or (checked_add a.unchanged_bytes entry.file_size)
        (other_error "unchanged byte count overflowed")
  apply_unchanged manifest ids
      (record a { logical_report = report; unchanged_file_count = count; unchanged_bytes = bytes })

-- The loop of summarize_tiny_pack.
unfoldable pub sum_tiny : List ManifestEntry → List ℕ → ℕ → IoResult ℕ
sum_tiny manifest [] bytes = ok bytes
sum_tiny manifest (file_id ∷ ids) bytes = do
  entry ← ok_or (get_elem? manifest file_id) (invalid_input "tiny pack contains an invalid file ID")
  reject_if (not (is_tiny entry.class)) (invalid_input "tiny pack contains a non-tiny file")
  sum ← ok_or (checked_add bytes entry.file_size) (other_error "tiny-pack byte count overflowed")
  sum_tiny manifest ids sum

-- The number of the files and their bytes.
unfoldable pub summarize_tiny_pack : List ManifestEntry → List ℕ → IoResult (ℕ × ℕ)
summarize_tiny_pack manifest file_ids = do
  reject_if (is_empty file_ids || ltb max_tiny_pack_files (length file_ids))
      (invalid_input "tiny pack must contain between 1 and 4096 files")
  bytes ← sum_tiny manifest file_ids 0
  ok (length file_ids, bytes)

-- What is left of a task, if anything, and the counts.
abbrev pub TaskResult : Type 0
TaskResult = IoResult (List TransferTask × ResumeApplication)

-- A pack, without its unchanged files.
unfoldable pub apply_pack : List ManifestEntry → List ℕ → ResumeApplication → TaskResult
apply_pack manifest left a =
    if is_empty left
    then ok ([], a)
    else do summary ← summarize_tiny_pack manifest left; ok (tiny_pack left summary.1 ∷ [], a)

-- A stripe that the receiver has.
unfoldable pub count_resumed : ℕ → ℕ → ResumeApplication → TaskResult
count_resumed offset bytes a = do
  report ← add_lane_counts a.logical_report (if offset == 0 then 1 else 0) bytes
  resumed_bytes ←
      ok_or (checked_add a.resumed_bytes bytes) (other_error "resumed byte count overflowed")
  count ← ok_or (checked_add a.stripe_count 1) (other_error "resumed stripe count overflowed")
  ok ([], record a { logical_report = report; resumed_bytes = resumed_bytes; stripe_count = count })

-- A stripe of a file that is not unchanged.
unfoldable pub apply_stripe : List ResumeStripe → ℕ → ℕ → ℕ → ResumeApplication → TaskResult
apply_stripe offered file_id offset bytes a = do
  this ← new_stripe file_id offset bytes
  if set_contains before_stripe this offered
      then count_resumed offset bytes a
      else ok (stripe file_id offset bytes ∷ [], a)

-- The arms of the match on a task.
unfoldable pub apply_task :
    List ManifestEntry → List ResumeStripe → List ℕ → TransferTask → ResumeApplication → TaskResult
apply_task manifest offered unchanged (whole_file file_id) a =
    if set_contains ltb file_id unchanged then ok ([], a) else ok (whole_file file_id ∷ [], a)
apply_task manifest offered unchanged (stripe file_id offset length) a =
    if set_contains ltb file_id unchanged
    then ok ([], a)
    else apply_stripe offered file_id offset length a
apply_task manifest offered unchanged (tiny_pack file_ids total_bytes) a =
    apply_pack manifest (retain (λ file_id. not (set_contains ltb file_id unchanged)) file_ids) a

-- The loop over the tasks of a lane.
unfoldable pub apply_lane :
    List ManifestEntry
    → List ResumeStripe
    → List ℕ
    → List TransferTask
    → ResumeApplication
    → TaskResult
apply_lane manifest offered unchanged [] a = ok ([], a)
apply_lane manifest offered unchanged (task ∷ tasks) a = do
  (left, a') ← apply_task manifest offered unchanged task a
  (rest, a'') ← apply_lane manifest offered unchanged tasks a'
  ok (left ++ rest, a'')

-- The loop over the lanes.
unfoldable pub apply_lanes :
    List ManifestEntry
    → List ResumeStripe
    → List ℕ
    → List (List TransferTask)
    → ResumeApplication
    → IoResult (List (List TransferTask) × ResumeApplication)
apply_lanes manifest offered unchanged [] a = ok ([], a)
apply_lanes manifest offered unchanged (lane ∷ lanes) a = do
  (left, a') ← apply_lane manifest offered unchanged lane a
  (rest, a'') ← apply_lanes manifest offered unchanged lanes a'
  ok (left ∷ rest, a'')

unfoldable pub apply_resume_offer :
    List (List TransferTask)
    → List ManifestEntry
    → List ResumeStripe
    → List ℕ
    → IoResult (List (List TransferTask) × ResumeApplication)
apply_resume_offer lanes manifest offered unchanged = do
  validate_resume_offer lanes offered
  validate_unchanged_offer manifest unchanged
  reject_if (overlaps offered unchanged)
      (invalid_data "receiver offered a file as both unchanged and partially resumed")
  a ← apply_unchanged manifest unchanged nothing_applied
  (lanes', a') ← apply_lanes manifest offered unchanged lanes a
  reject_if (not (a'.stripe_count == length offered))
      (other_error "applied another number of resumed stripes than expected")
  reject_if (not (a'.unchanged_file_count == length unchanged))
      (other_error "applied another number of unchanged files than expected")
  ok (lanes', a')
