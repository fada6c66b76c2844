-- ===== src/Transfer/Fresh/Tests.antt =====
-- A concrete resumed prefix, and the theorem on it.
use networkcopy_speed.Common.{ℕ, ◌≤◌, ◌≡◌, refl, true, List, [], ◌∷◌, length, take, All, ok}
use networkcopy_speed.Cdc.Catalog.Types.{CatalogCandidate, CatalogGeneration}
use networkcopy_speed.Transfer.Fresh.{
  FreshGenerationPlan, catalog_generation_index_for_file_id, count_prefix, check_completed,
  apply_fresh_resume_prefix,
}
use networkcopy_speed.Transfer.Fresh.Prefix.{
  Complete, some_has_file, apply_fresh_resume_prefix-Complete,
}

abbrev file_of : ℕ → CatalogCandidate
file_of id = record { file_id = id; logical_bytes = 1 }

abbrev generation_of : ℕ → List CatalogCandidate → CatalogGeneration
generation_of index files = record {
  index = index;
  transfer_files = files;
  uncataloged_file_ids = [];
  evicted_file_ids = [];
  logical_bytes = 2;
  catalog_entries_before = 0;
  catalog_entries_after = 0;
}

-- Two generations of two files.
abbrev fresh_plan : ℕ → FreshGenerationPlan
fresh_plan completed = record {
  catalog = record {
    generations =
        generation_of 0 (file_of 1 ∷ file_of 4 ∷ [])
        ∷ generation_of 1 (file_of 6 ∷ file_of 7 ∷ [])
        ∷ [];
    candidate_files = 4;
    candidate_bytes = 4;
    peak_catalog_entries = 0;
  };
  completed_generation_count = completed;
}

first_complete : apply_fresh_resume_prefix (fresh_plan 0) (1 ∷ 4 ∷ []) ≡ ok (fresh_plan 1)
unfolding apply_fresh_resume_prefix count_prefix check_completed
    catalog_generation_index_for_file_id
first_complete = refl

apply_fresh_resume_prefix-Complete_example :
    (1 ≤ length (fresh_plan 0).catalog.generations)
    × All (Complete (1 ∷ 4 ∷ [])) (take 1 (fresh_plan 0).catalog.generations)
    × All
        (λ file_id. some_has_file (take 1 (fresh_plan 0).catalog.generations) file_id ≡ true)
        (1 ∷ 4 ∷ [])
apply_fresh_resume_prefix-Complete_example =
    apply_fresh_resume_prefix-Complete (fresh_plan 0) (1 ∷ 4 ∷ []) (fresh_plan 1) first_complete
