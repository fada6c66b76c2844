-- ===== src/Cdc/Catalog/Tests.antt =====
-- A plan for concrete files, and the theorems on `plan` at them.
use networkcopy_speed.Common.{ℕ, ◌≡◌, refl, List, [], ◌∷◌, ok, take, arith}
use networkcopy_speed.Wire.Bytes.{same_bytes}
use networkcopy_speed.Cdc.Catalog.Types.{
  CatalogCandidate, CatalogLimits, CatalogPlan, validate_limits, estimated_entries, sum_from,
  sum_candidate_bytes,
}
use networkcopy_speed.Cdc.Catalog.Entries.{evict, catalog_file, place, place_all}
use networkcopy_speed.Cdc.Catalog.Planner.{
  plan, plan_from, insert_by_id, sort_by_id, validate_from, validate_candidates,
  finish_catalog_generation,
}
use networkcopy_speed.Cdc.Catalog.Validator.{
  Validated, nothing_validated, validate_plan, validate_generations, validate_generation,
  validate_files,
}
use networkcopy_speed.Cdc.Catalog.Bounds.{ids}
use networkcopy_speed.Cdc.Catalog.Basis.{
  published, apply_generation, apply_generations, before_generation,
}
use networkcopy_speed.Cdc.Catalog.Bases.{before_generation-validate_plan}
use networkcopy_speed.Cdc.Catalog.Plans.{IsPlanFor, plan_complete, plan-IsPlanFor}

abbrev file : ℕ → ℕ → CatalogCandidate
file id bytes = record { file_id = id; logical_bytes = bytes }

-- Room for three chunks' entries, and a byte target of two chunks.
abbrev small_limits : CatalogLimits
small_limits = record { generation_target_bytes = 131072; max_catalog_entries = 3 }

abbrev four_files : List CatalogCandidate
four_files = file 2 100000 ∷ file 0 65536 ∷ file 1 65536 ∷ file 5 1000000 ∷ []

abbrev four_files_plan : CatalogPlan
four_files_plan = record {
  generations =
      record {
        index = 0;
        transfer_files = file 0 65536 ∷ file 1 65536 ∷ [];
        uncataloged_file_ids = [];
        evicted_file_ids = [];
        logical_bytes = 131072;
        catalog_entries_before = 0;
        catalog_entries_after = 2;
      }
      ∷ record {
        index = 1;
        transfer_files = file 2 100000 ∷ [];
        uncataloged_file_ids = [];
        evicted_file_ids = 0 ∷ [];
        logical_bytes = 100000;
        catalog_entries_before = 2;
        catalog_entries_after = 3;
      }
      ∷ record {
        index = 2;
        transfer_files = file 5 1000000 ∷ [];
        uncataloged_file_ids = 5 ∷ [];
        evicted_file_ids = [];
        logical_bytes = 1000000;
        catalog_entries_before = 3;
        catalog_entries_after = 3;
      }
      ∷ [];
  candidate_files = 4;
  candidate_bytes = 1231072;
  peak_catalog_entries = 3;
}

four_files_runs : plan four_files small_limits ≡ ok four_files_plan
unfolding plan plan_from insert_by_id sort_by_id validate_from validate_candidates
    finish_catalog_generation validate_plan validate_generations validate_generation validate_files
    evict catalog_file place place_all validate_limits estimated_entries sum_from
    sum_candidate_bytes same_bytes
four_files_runs = refl

plan_complete_example : (p : CatalogPlan) × (plan four_files small_limits ≡ ok p)
unfolding validate_limits
plan_complete_example =
    plan_complete four_files small_limits (omega arith) refl (search arith) (search arith)
      (omega arith)

plan-IsPlanFor_example : IsPlanFor small_limits four_files four_files_plan
plan-IsPlanFor_example =
    plan-IsPlanFor four_files small_limits four_files_plan (omega arith) four_files_runs

-- The file 0 has left the basis where the third generation begins.
third_basis : before_generation four_files_plan 2 ≡ ok (1 ∷ 2 ∷ [])
unfolding before_generation apply_generations apply_generation published same_bytes
third_basis = refl

before_generation-validate_plan_example :
    (u : Validated) × (validate_generations small_limits 0 nothing_validated
        (take 2 four_files_plan.generations)
      ≡ ok u)
    × (before_generation four_files_plan 2 ≡ ok (ids u.catalog))
before_generation-validate_plan_example =
    before_generation-validate_plan four_files_plan small_limits 2
      (plan-IsPlanFor four_files small_limits four_files_plan (omega arith)
        four_files_runs).validated
      (omega arith)
