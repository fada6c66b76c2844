-- ===== src/Transfer/Candidates.antt =====
-- multistream_copy.rs: the files that the catalog of a fresh transfer plans, taken from the tasks of a
-- plan. `sort_unstable` of ids is an insertion sort.
pub mod Ascending
mod Tests
use networkcopy_speed.Common.{
  ℕ, suc, ◌+◌, Bool, true, false, not, ◌||◌, List, [], ◌∷◌, ◌++◌, Option, none, some, get_elem?,
  leb, ◌==◌, if◌then◌else◌, IoResult, ok, reject_if, ok_or, ◌>>=◌, ◌>>◌,
}
use networkcopy_speed.Resume.Journal.{invalid_data}
use networkcopy_speed.Cdc.Catalog.Types.{
  CatalogCandidate, CatalogGeneration, CatalogLimits, new_candidate,
}
use networkcopy_speed.Cdc.Catalog.Planner.{plan}
use networkcopy_speed.Transfer.Manifest.{ManifestEntry, is_medium, is_large}
use networkcopy_speed.Transfer.Plan.{TransferTask, whole_file, tiny_pack, stripe}
use networkcopy_speed.Transfer.Offer.{flatten}
use networkcopy_speed.Transfer.Fresh.{FreshGenerationPlan}

-- The loop over the tasks: the ids of the files that are not in packs.
unfoldable pub task_file_ids : List ManifestEntry → List TransferTask → IoResult (List ℕ)
task_file_ids manifest [] = ok []
task_file_ids manifest (tiny_pack ids total_bytes ∷ tasks) = task_file_ids manifest tasks
task_file_ids manifest (whole_file file_id ∷ tasks) = do
  entry ←
      ok_or (get_elem? manifest file_id)
        (invalid_data "fresh-transfer catalog task references an unknown file ID")
  reject_if (not (is_medium entry.class))
      (invalid_data "fresh-transfer catalog found a whole-file task that is not medium")
  ids ← task_file_ids manifest tasks
  ok (file_id ∷ ids)
task_file_ids manifest (stripe file_id offset length ∷ tasks) = do
  entry ←
      ok_or (get_elem? manifest file_id)
        (invalid_data "fresh-transfer catalog task references an unknown file ID")
  reject_if (not (is_large entry.class))
      (invalid_data "fresh-transfer catalog found a stripe task that is not large")
  ids ← task_file_ids manifest tasks
  ok (file_id ∷ ids)

unfoldable pub insert_id : ℕ → List ℕ → List ℕ
insert_id id [] = id ∷ []
insert_id id (j ∷ ids) = let rest = insert_id id ids in if leb id j then id ∷ j ∷ ids else j ∷ rest

unfoldable pub sort_ids : List ℕ → List ℕ
sort_ids [] = []
sort_ids (id ∷ ids) = insert_id id (sort_ids ids)

-- `dedup`: the ids behind one that is kept.
unfoldable pub dedup_behind : ℕ → List ℕ → List ℕ
dedup_behind id [] = []
dedup_behind id (j ∷ ids) = elim (id == j) [
  | true ↦ dedup_behind id ids
  | false ↦ j ∷ dedup_behind j ids
]

unfoldable pub dedup : List ℕ → List ℕ
dedup [] = []
dedup (id ∷ ids) = id ∷ dedup_behind id ids

-- The candidates of the ids.
unfoldable pub candidates_of : List ManifestEntry → List ℕ → IoResult (List CatalogCandidate)
candidates_of manifest [] = ok []
candidates_of manifest (file_id ∷ ids) = do
  entry ←
      ok_or (get_elem? manifest file_id)
        (invalid_data "fresh-transfer catalog candidate disappeared from the manifest")
  candidate ← new_candidate file_id entry.file_size
  candidates ← candidates_of manifest ids
  ok (candidate ∷ candidates)

unfoldable pub collect_fresh_catalog_candidates :
    List ManifestEntry → List (List TransferTask) → IoResult (List CatalogCandidate)
collect_fresh_catalog_candidates manifest lanes = do
  ids ← task_file_ids manifest (flatten lanes)
  candidates_of manifest (dedup (sort_ids ids))

-- The loop over the generations, with the index of the next one.
unfoldable pub check_indices : ℕ → List CatalogGeneration → IoResult (Unit {0})
check_indices index [] = ok tt
check_indices index (g ∷ gs) = do
  reject_if (not (g.index == index))
      (invalid_data "fresh-transfer catalog generation index is not contiguous")
  check_indices (index + 1) gs

unfoldable pub build_fresh_generation_plan_with_limits :
    List ManifestEntry → List (List TransferTask) → CatalogLimits → IoResult FreshGenerationPlan
build_fresh_generation_plan_with_limits manifest lanes limits = do
  candidates ← collect_fresh_catalog_candidates manifest lanes
  catalog ← plan candidates limits
  check_indices 0 catalog.generations
  ok (record { catalog = catalog; completed_generation_count = 0 })
