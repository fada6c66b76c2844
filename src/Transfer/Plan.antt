-- ===== src/Transfer/Plan.antt =====
-- multistream_copy.rs: which lane transfers which part of which file. The vectors `lanes` and
-- `assigned_bytes` of the source are one list of lanes here, each with its tasks and its bytes.
pub mod Lanes
pub mod Measure
pub mod Hits
pub mod Coverage
pub mod Packs
pub mod Even
pub mod Balance
pub mod Adds
pub mod Books
pub mod Total
mod Tests
use Prim.Native.String.{String}
use networkcopy_speed.Common.{
  ℕ, zero, suc, ◌+◌, ◌*◌, max, Bool, true, false, not, Option, none, some, ◌&&◌, ◌||◌, List, [],
  ◌∷◌, ◌++◌, length, get_elem?, ltb, leb, ◌==◌, if◌then◌else◌, IoError, IoResult, io_error,
  ErrorKind, ok, err, reject_if, ok_or, ◌>>=◌, ◌>>◌, checked_add,
}
use networkcopy_speed.Transfer.Manifest.{FileClass, tiny, medium, large, is_tiny, ManifestEntry}
use networkcopy_speed.Transfer.Stripes.{stripe_range, div_ceil}

pub data TransferTask : Type 0 where
  whole_file : ℕ → TransferTask
  tiny_pack : List ℕ → ℕ → TransferTask
  stripe : ℕ → ℕ → ℕ → TransferTask

pub record Lane : Type 0 where
  pub tasks : List TransferTask
  pub assigned_bytes : ℕ

abbrev pub other_error : String → IoError
other_error message = io_error ErrorKind.other message

abbrev pub invalid_input : String → IoError
invalid_input message = io_error ErrorKind.invalid_input message

-- The order of the keys `(bytes, lanes[lane].len())`.
unfoldable pub is_lighter : Lane → Lane → Bool
is_lighter a b =
    ltb a.assigned_bytes b.assigned_bytes
    || a.assigned_bytes == b.assigned_bytes && ltb (length a.tasks) (length b.tasks)

-- `min_by_key`, which keeps the first of equal keys: the best lane so far, its index, and the index of
-- the next lane.
unfoldable pub lightest_from : ℕ → Lane → ℕ → List Lane → ℕ
lightest_from best lane next [] = best
lightest_from best lane next (l ∷ ls) = elim (is_lighter l lane) [
  | true ↦ lightest_from next l (next + 1) ls
  | false ↦ lightest_from best lane (next + 1) ls
]

unfoldable pub least_loaded_lane : List Lane → IoResult ℕ
least_loaded_lane [] = err (other_error "no TCP data lanes are available")
least_loaded_lane (l ∷ ls) = ok (lightest_from 0 l 1 ls)

-- `lanes[lane].push(task)` and the checked addition of its bytes, at an index in range.
unfoldable pub push_task : ℕ → TransferTask → ℕ → IoError → List Lane → IoResult (List Lane)
push_task index task bytes overflowed [] = ok []
push_task zero task bytes overflowed (l ∷ ls) = do
  sum ← ok_or (checked_add l.assigned_bytes bytes) overflowed
  ok (record { tasks = l.tasks ++ task ∷ []; assigned_bytes = sum } ∷ ls)
push_task (suc index) task bytes overflowed (l ∷ ls) = do
  ls' ← push_task index task bytes overflowed ls
  ok (l ∷ ls')

-- The step that the three loops of build_transfer_plan share.
unfoldable pub assign : TransferTask → ℕ → IoError → List Lane → IoResult (List Lane)
assign task bytes overflowed lanes = do
  index ← least_loaded_lane lanes
  push_task index task bytes overflowed lanes

abbrev pub max_resume_stripe_bytes : ℕ
max_resume_stripe_bytes = 128 * 1024 * 1024

unfoldable pub large_file_stripe_count : ℕ → ℕ → IoResult ℕ
unfolding div_ceil
large_file_stripe_count file_size data_stream_count = do
  reject_if (data_stream_count == 0)
      (invalid_input "large-file planning requires at least one data stream")
  ok (max data_stream_count (max (div_ceil file_size max_resume_stripe_bytes) 1))

-- The loop over a large file's stripes: those that are left, and the number of the next.
unfoldable pub assign_stripes : ℕ → ℕ → ℕ → ℕ → ℕ → List Lane → IoResult (List Lane)
assign_stripes file_id file_size stripe_count zero stripe_id lanes = ok lanes
assign_stripes file_id file_size stripe_count (suc left) stripe_id lanes = do
  (offset, length) ← stripe_range file_size stripe_id stripe_count
  lanes' ←
      if length == 0
      then ok lanes
      else assign (stripe file_id offset length) length (other_error "striped lane size overflowed")
          lanes
  assign_stripes file_id file_size stripe_count left (stripe_id + 1) lanes'

-- The locals of build_transfer_plan.
pub record Building : Type 0 where
  pub lanes : List Lane
  pub medium_file_ids : List ℕ
  pub tiny_file_ids : List ℕ

-- One round of the loop over the manifest.
unfoldable pub classify : ℕ → Building → ℕ → ManifestEntry → FileClass → IoResult Building
classify data_stream_count b file_id entry large = do
  stripe_count ← large_file_stripe_count entry.file_size data_stream_count
  lanes ← assign_stripes file_id entry.file_size stripe_count stripe_count 0 b.lanes
  ok (record b { lanes = lanes })
classify data_stream_count b file_id entry medium =
    ok (record b { medium_file_ids = b.medium_file_ids ++ file_id ∷ [] })
classify data_stream_count b file_id entry tiny =
    ok (record b { tiny_file_ids = b.tiny_file_ids ++ file_id ∷ [] })

-- The loop over the manifest, with the id of the next file.
unfoldable pub classify_all : ℕ → Building → ℕ → List ManifestEntry → IoResult Building
classify_all data_stream_count b file_id [] = ok b
classify_all data_stream_count b file_id (entry ∷ entries) = do
  b' ← classify data_stream_count b file_id entry entry.class
  classify_all data_stream_count b' (file_id + 1) entries

-- `manifest[file_id].file_size`, at an index in range.
abbrev pub size_of : List ManifestEntry → ℕ → ℕ
size_of manifest file_id = elim (get_elem? manifest file_id) [
  | none ↦ 0
  | some entry ↦ entry.file_size
]

-- `sort_unstable_by`, the larger files first, by insertion.
unfoldable pub insert_by_size : List ManifestEntry → ℕ → List ℕ → List ℕ
insert_by_size manifest id [] = id ∷ []
insert_by_size manifest id (j ∷ ids) =
    if leb (size_of manifest j) (size_of manifest id)
    then id ∷ j ∷ ids
    else j ∷ insert_by_size manifest id ids

unfoldable pub sort_by_size : List ManifestEntry → List ℕ → List ℕ
sort_by_size manifest [] = []
sort_by_size manifest (id ∷ ids) = insert_by_size manifest id (sort_by_size manifest ids)

-- The loop over the medium files.
unfoldable pub assign_whole_files : List ManifestEntry → List ℕ → List Lane → IoResult (List Lane)
assign_whole_files manifest [] lanes = ok lanes
assign_whole_files manifest (id ∷ ids) lanes = do
  lanes' ←
      assign (whole_file id) (size_of manifest id)
        (other_error "data-lane assignment size overflowed") lanes
  assign_whole_files manifest ids lanes'

abbrev pub tiny_pack_target_bytes : ℕ
tiny_pack_target_bytes = 8 * 1024 * 1024

abbrev pub max_tiny_pack_files : ℕ
max_tiny_pack_files = 4096

abbrev pub pack_overflowed : IoError
pack_overflowed = other_error "tiny-pack byte count overflowed"

abbrev pub is_empty {ℓ} : {A : Type ℓ} → List A → Bool
is_empty [] = true
is_empty (x ∷ xs) = false

-- The loop of build_tiny_packs, with the open pack.
unfoldable pub tiny_packs_from :
    List ManifestEntry → List (List ℕ × ℕ) → List ℕ → ℕ → List ℕ → IoResult (List (List ℕ × ℕ))
tiny_packs_from manifest packs current bytes [] =
    ok (if is_empty current then packs else packs ++ (current, bytes) ∷ [])
tiny_packs_from manifest packs current bytes (id ∷ ids) = do
  entry ←
      ok_or (get_elem? manifest id) (invalid_input "tiny-pack planner received an invalid file ID")
  reject_if (not (is_tiny entry.class)) (invalid_input "tiny-pack planner received a non-tiny file")
  candidate_bytes ← ok_or (checked_add bytes entry.file_size) pack_overflowed
  elim (not (is_empty current) && ltb tiny_pack_target_bytes candidate_bytes
      || leb max_tiny_pack_files (length current)) [
        | true ↦ do
          restarted ← ok_or (checked_add 0 entry.file_size) pack_overflowed
          tiny_packs_from manifest (packs ++ (current, bytes) ∷ []) (id ∷ []) restarted ids
        | false ↦ tiny_packs_from manifest packs (current ++ id ∷ []) candidate_bytes ids
      ]

unfoldable pub build_tiny_packs : List ManifestEntry → List ℕ → IoResult (List (List ℕ × ℕ))
unfolding tiny_packs_from
build_tiny_packs manifest tiny_file_ids = tiny_packs_from manifest [] [] 0 tiny_file_ids

-- The loop over the packs.
unfoldable pub assign_packs : List (List ℕ × ℕ) → List Lane → IoResult (List Lane)
assign_packs [] lanes = ok lanes
assign_packs ((file_ids, total_bytes) ∷ packs) lanes = do
  lanes' ←
      assign (tiny_pack file_ids total_bytes) total_bytes
        (other_error "tiny-pack lane size overflowed") lanes
  assign_packs packs lanes'

abbrev pub empty_lanes : ℕ → List Lane
empty_lanes zero = []
empty_lanes (suc n) = record { tasks = []; assigned_bytes = 0 } ∷ empty_lanes n

unfoldable pub build_transfer_plan : List ManifestEntry → ℕ → IoResult (List Lane)
build_transfer_plan manifest data_stream_count = do
  b ←
      classify_all data_stream_count
        (record { lanes = empty_lanes data_stream_count; medium_file_ids = []; tiny_file_ids = [] })
        0 manifest
  lanes ← assign_whole_files manifest (sort_by_size manifest b.medium_file_ids) b.lanes
  packs ← build_tiny_packs manifest b.tiny_file_ids
  assign_packs packs lanes
