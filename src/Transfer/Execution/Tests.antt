-- ===== src/Transfer/Execution/Tests.antt =====
-- A concrete execution, and the theorem on it.
use networkcopy_speed.Common.{ℕ, ◌≡◌, refl, [], ◌∷◌, All, ok}
use networkcopy_speed.Cdc.Catalog.Types.{CatalogGeneration}
use networkcopy_speed.Transfer.Plan.{tiny_pack, stripe}
use networkcopy_speed.Transfer.Plan.Hits.{carries}
use networkcopy_speed.Transfer.Fresh.{FreshGenerationPlan, catalog_generation_index_for_file_id}
use networkcopy_speed.Transfer.Execution.{
  Lanes, FreshGenerationExecution, catalog_task_file_id, push_lane, push_generation, place_task,
  place_tasks, place_lanes, count_tasks, count_generation_tasks, check_tasks, check_lanes,
  check_generations, check_trailing_lane, check_trailing, validate_fresh_generation_execution,
  build_fresh_generation_execution,
}
use networkcopy_speed.Transfer.Execution.Sums.{lists_sum, execution_sum}
use networkcopy_speed.Transfer.Execution.Parts.{
  Sorted, Trails, build_fresh_generation_execution-Sorted,
}

abbrev generation_of : ℕ → ℕ → CatalogGeneration
generation_of index id = record {
  index = index;
  transfer_files = record { file_id = id; logical_bytes = 20 } ∷ [];
  uncataloged_file_ids = [];
  evicted_file_ids = [];
  logical_bytes = 20;
  catalog_entries_before = 0;
  catalog_entries_after = 0;
}

-- Two generations, of which the first is completed.
abbrev half_done : FreshGenerationPlan
half_done = record {
  catalog = record {
    generations = generation_of 0 1 ∷ generation_of 1 2 ∷ [];
    candidate_files = 2;
    candidate_bytes = 40;
    peak_catalog_entries = 0;
  };
  completed_generation_count = 1;
}

abbrev two_lanes : Lanes
two_lanes = (stripe 2 0 10 ∷ []) ∷ (stripe 2 10 10 ∷ tiny_pack (0 ∷ []) 7 ∷ []) ∷ []

abbrev sorted_lanes : FreshGenerationExecution
sorted_lanes = record {
  generation_lanes = ([] ∷ [] ∷ []) ∷ ((stripe 2 0 10 ∷ []) ∷ (stripe 2 10 10 ∷ []) ∷ []) ∷ [];
  trailing_lanes = [] ∷ (tiny_pack (0 ∷ []) 7 ∷ []) ∷ [];
}

two_sorted : build_fresh_generation_execution half_done two_lanes ≡ ok sorted_lanes
unfolding build_fresh_generation_execution count_tasks place_lanes place_tasks place_task
    catalog_task_file_id catalog_generation_index_for_file_id push_generation push_lane
    validate_fresh_generation_execution check_generations check_lanes check_tasks check_trailing
    check_trailing_lane count_generation_tasks
two_sorted = refl

build_fresh_generation_execution-Sorted_example :
    (execution_sum (carries 2 13) sorted_lanes ≡ lists_sum (carries 2 13) two_lanes)
    × Sorted 1 0 half_done.catalog.generations sorted_lanes.generation_lanes
    × All (All Trails) sorted_lanes.trailing_lanes
build_fresh_generation_execution-Sorted_example =
    build_fresh_generation_execution-Sorted half_done two_lanes sorted_lanes 2 13 two_sorted
