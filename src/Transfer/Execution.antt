-- ===== src/Transfer/Execution.antt =====
-- multistream_copy.rs: the tasks of a plan, sorted into the generations of a fresh transfer. What the
-- source takes from the plan's lanes it pushes to new lanes, which are lists here.
pub mod Sums
pub mod Parts
mod Tests
use networkcopy_speed.Common.{
  ℕ, zero, suc, ◌+◌, Bool, true, false, not, ◌&&◌, ◌||◌, List, [], ◌∷◌, ◌++◌, Option, none, some,
  length, ltb, ◌==◌, IoError, IoResult, ok, err, reject_if, ok_or, ◌>>=◌, ◌>>◌, checked_add,
}
use networkcopy_speed.Resume.Journal.{invalid_data}
use networkcopy_speed.Cdc.Catalog.Types.{CatalogCandidate, CatalogGeneration, CatalogPlan}
use networkcopy_speed.Transfer.Plan.{TransferTask, whole_file, tiny_pack, stripe, other_error}
use networkcopy_speed.Transfer.Fresh.{
  FreshGenerationPlan, has_file, catalog_generation_index_for_file_id,
}

abbrev pub Lanes : Type 0
Lanes = List (List TransferTask)

pub record FreshGenerationExecution : Type 0 where
  pub generation_lanes : List Lanes
  pub trailing_lanes : Lanes

unfoldable pub catalog_task_file_id : TransferTask → Option ℕ
catalog_task_file_id (whole_file file_id) = some file_id
catalog_task_file_id (stripe file_id offset length) = some file_id
catalog_task_file_id (tiny_pack file_ids total_bytes) = none

-- `get_mut(lane_id)` and a push.
unfoldable pub push_lane : ℕ → TransferTask → Lanes → IoResult Lanes
push_lane lane_id task [] =
    err (invalid_data "fresh-transfer lane index is outside the execution plan")
push_lane zero task (lane ∷ lanes) = ok ((lane ++ task ∷ []) ∷ lanes)
push_lane (suc lane_id) task (lane ∷ lanes) = do
  lanes' ← push_lane lane_id task lanes
  ok (lane ∷ lanes')

unfoldable pub push_generation : ℕ → ℕ → TransferTask → List Lanes → IoResult (List Lanes)
push_generation index lane_id task [] =
    err (invalid_data "fresh-transfer generation index is outside the execution plan")
push_generation zero lane_id task (lanes ∷ generations) = do
  lanes' ← push_lane lane_id task lanes
  ok (lanes' ∷ generations)
push_generation (suc index) lane_id task (lanes ∷ generations) = do
  generations' ← push_generation index lane_id task generations
  ok (lanes ∷ generations')

-- A round of the loop over a lane's tasks, with the file that the task is of.
unfoldable pub place_task :
    CatalogPlan
    → ℕ
    → TransferTask
    → Option ℕ
    → FreshGenerationExecution
    → IoResult FreshGenerationExecution
place_task catalog lane_id task none e = do
  trailing ← push_lane lane_id task e.trailing_lanes
  ok (record e { trailing_lanes = trailing })
place_task catalog lane_id task (some file_id) e = do
  index ←
      ok_or (catalog_generation_index_for_file_id catalog file_id)
        (invalid_data "remaining fresh-transfer task is absent from the original catalog")
  generations ← push_generation index lane_id task e.generation_lanes
  ok (record e { generation_lanes = generations })

unfoldable pub place_tasks :
    CatalogPlan
    → ℕ
    → List TransferTask
    → FreshGenerationExecution
    → IoResult FreshGenerationExecution
place_tasks catalog lane_id [] e = ok e
place_tasks catalog lane_id (task ∷ tasks) e = do
  e' ← place_task catalog lane_id task (catalog_task_file_id task) e
  place_tasks catalog lane_id tasks e'

-- The loop over the lanes, with the id of the next lane.
unfoldable pub place_lanes :
    CatalogPlan → ℕ → Lanes → FreshGenerationExecution → IoResult FreshGenerationExecution
place_lanes catalog lane_id [] e = ok e
place_lanes catalog lane_id (lane ∷ lanes) e = do
  e' ← place_tasks catalog lane_id lane e
  place_lanes catalog (lane_id + 1) lanes e'

-- The checked sum of the lanes' lengths.
unfoldable pub count_tasks : IoError → ℕ → Lanes → IoResult ℕ
count_tasks overflowed count [] = ok count
count_tasks overflowed count (lane ∷ lanes) = do
  count' ← ok_or (checked_add count (length lane)) overflowed
  count_tasks overflowed count' lanes

unfoldable pub count_generation_tasks : ℕ → List Lanes → IoResult ℕ
count_generation_tasks count [] = ok count
count_generation_tasks count (lanes ∷ generations) = do
  count' ← count_tasks (other_error "generation task count overflowed") count lanes
  count_generation_tasks count' generations

abbrev pub all_empty : Lanes → Bool
all_empty [] = true
all_empty ([] ∷ lanes) = all_empty lanes
all_empty ((task ∷ tasks) ∷ lanes) = false

-- The loop over a generation's tasks: each is of one of its files.
unfoldable pub check_tasks : CatalogGeneration → List TransferTask → IoResult (Unit {0})
check_tasks g [] = ok tt
check_tasks g (task ∷ tasks) = do
  file_id ←
      ok_or (catalog_task_file_id task)
        (invalid_data "fresh catalog generation contains a trailing task")
  reject_if (not (has_file file_id g.transfer_files))
      (invalid_data "fresh generation contains an unexpected file ID")
  check_tasks g tasks

unfoldable pub check_lanes : CatalogGeneration → Lanes → IoResult (Unit {0})
check_lanes g [] = ok tt
check_lanes g (lane ∷ lanes) = do check_tasks g lane; check_lanes g lanes

-- The loop over the generations and their lanes, with the index of the next generation.
unfoldable pub check_generations :
    ℕ → ℕ → ℕ → List CatalogGeneration → List Lanes → IoResult (Unit {0})
check_generations lane_count completed index (g ∷ gs) (lanes ∷ generations) = do
  reject_if (not (length lanes == lane_count))
      (invalid_data "fresh generation has an incorrect lane count")
  reject_if (ltb index completed && not (all_empty lanes))
      (invalid_data "completed fresh generation still contains transfer tasks")
  check_lanes g lanes
  check_generations lane_count completed (index + 1) gs generations
check_generations lane_count completed index [] generations = ok tt
check_generations lane_count completed index (g ∷ gs) [] = ok tt

abbrev pub is_some {ℓ} : {A : Type ℓ} → Option A → Bool
is_some none = false
is_some (some a) = true

unfoldable pub check_trailing_lane : List TransferTask → IoResult (Unit {0})
check_trailing_lane [] = ok tt
check_trailing_lane (task ∷ tasks) = do
  reject_if (is_some (catalog_task_file_id task))
      (invalid_data "fresh-transfer trailing lanes contain a catalog-eligible task")
  check_trailing_lane tasks

unfoldable pub check_trailing : Lanes → IoResult (Unit {0})
check_trailing [] = ok tt
check_trailing (lane ∷ lanes) = do check_trailing_lane lane; check_trailing lanes

unfoldable pub validate_fresh_generation_execution :
    FreshGenerationPlan → FreshGenerationExecution → ℕ → ℕ → IoResult (Unit {0})
validate_fresh_generation_execution plan e lane_count expected_task_count = do
  reject_if (ltb (length plan.catalog.generations) plan.completed_generation_count)
      (invalid_data "completed fresh-generation count exceeds the catalog")
  reject_if (not (length e.generation_lanes == length plan.catalog.generations))
      (invalid_data "fresh-generation execution count differs from the catalog")
  reject_if (not (length e.trailing_lanes == lane_count))
      (invalid_data "fresh-transfer trailing lane count differs from the transfer plan")
  check_generations lane_count plan.completed_generation_count 0 plan.catalog.generations
      e.generation_lanes
  check_trailing e.trailing_lanes
  generation_task_count ← count_generation_tasks 0 e.generation_lanes
  trailing_task_count ←
      count_tasks (other_error "trailing task count overflowed") 0 e.trailing_lanes
  actual_task_count ←
      ok_or (checked_add generation_task_count trailing_task_count)
        (other_error "fresh execution task count overflowed")
  reject_if (not (actual_task_count == expected_task_count))
      (invalid_data "fresh execution contains another number of tasks than expected")
  ok tt

abbrev pub copies {ℓ} : {A : Type ℓ} → ℕ → A → List A
copies zero a = []
copies (suc n) a = a ∷ copies n a

unfoldable pub build_fresh_generation_execution :
    FreshGenerationPlan → Lanes → IoResult FreshGenerationExecution
build_fresh_generation_execution plan lanes = do
  expected ← count_tasks (other_error "remaining transfer task count overflowed") 0 lanes
  let nothing = copies (length lanes) []
  execution ← place_lanes plan.catalog 0 lanes (record {
    generation_lanes = copies (length plan.catalog.generations) nothing;
    trailing_lanes = nothing;
  })
  validate_fresh_generation_execution plan execution (length lanes) expected
  ok execution
