-- ===== src/Transfer/Candidates/Tests.antt =====
-- Concrete candidates, and the theorem on them.
use networkcopy_speed.Common.{ℕ, ◌≡◌, refl, List, [], ◌∷◌, All, ok}
use networkcopy_speed.Cdc.Catalog.Basis.{contains}
use networkcopy_speed.Cdc.Catalog.Types.{CatalogCandidate, new_candidate}
use networkcopy_speed.Transfer.Manifest.{ManifestEntry, FileClass, tiny, medium, large}
use networkcopy_speed.Transfer.Plan.{TransferTask, whole_file, tiny_pack, stripe}
use networkcopy_speed.Transfer.Offer.{flatten}
use networkcopy_speed.Transfer.Candidates.{
  task_file_ids, insert_id, sort_ids, dedup_behind, dedup, candidates_of,
  collect_fresh_catalog_candidates,
}
use networkcopy_speed.Transfer.Candidates.Ascending.{
  Ascends, candidate_ids, Measured, ids_of_tasks, collect_fresh_catalog_candidates-Ascends,
}

abbrev entry_of : ℕ → FileClass → ManifestEntry
entry_of size class = record {
  relative_path = size ∷ [];
  file_size = size;
  last_write_time = 0;
  file_attributes = 0;
  class = class;
}

abbrev three_files : List ManifestEntry
three_files = entry_of 7 tiny ∷ entry_of 90 medium ∷ entry_of 20 large ∷ []

abbrev two_lanes : List (List TransferTask)
two_lanes = (stripe 2 0 10 ∷ whole_file 1 ∷ []) ∷ (stripe 2 10 10 ∷ tiny_pack (0 ∷ []) 7 ∷ []) ∷ []

abbrev two_candidates : List CatalogCandidate
two_candidates =
    record { file_id = 1; logical_bytes = 90 } ∷ record { file_id = 2; logical_bytes = 20 } ∷ []

two_collected : collect_fresh_catalog_candidates three_files two_lanes ≡ ok two_candidates
unfolding collect_fresh_catalog_candidates task_file_ids sort_ids insert_id dedup dedup_behind
    candidates_of new_candidate
two_collected = refl

collect_fresh_catalog_candidates-Ascends_example :
    Ascends (candidate_ids two_candidates)
    × All (Measured three_files) two_candidates
    × (contains 2 (candidate_ids two_candidates) ≡ contains 2 (ids_of_tasks (flatten two_lanes)))
collect_fresh_catalog_candidates-Ascends_example =
    collect_fresh_catalog_candidates-Ascends three_files two_lanes two_candidates 2 two_collected
