-- ===== src/Cdc/Catalog/Planner.antt =====
-- session_cdc_catalog.rs: validate_candidates, finish_catalog_generation and plan.
use Prim.Native.String.{String}
use networkcopy_speed.Common.{
  ℕ, true, false, not, ◌&&◌, List, [], ◌∷◌, ◌++◌, Option, none, some, max, length, ltb, leb, ◌==◌,
  if◌then◌else◌, IoError, IoResult, io_error, ErrorKind, ok, reject_if, ok_or, ◌>>=◌, ◌>>◌,
  checked_add,
}
use networkcopy_speed.Cdc.Catalog.Types.{
  CatalogCandidate, CatalogLimits, CatalogGeneration, CatalogPlan, estimated_entries,
  validate_limits, sum_candidate_bytes,
}
use networkcopy_speed.Cdc.Catalog.Entries.{Messages, place_all, begin, check_order, is_empty}
use networkcopy_speed.Cdc.Catalog.Validator.{validate_plan}

abbrev pub planner_messages : Messages
planner_messages = record {
  unsatisfiable = io_error ErrorKind.other "session CDC catalog could not satisfy its entry limit";
  underflowed = io_error ErrorKind.other "session CDC catalog entry count underflowed";
  overflowed = io_error ErrorKind.other "session CDC catalog entry count overflowed";
}

abbrev pub invalid_input : String → IoError
invalid_input message = io_error ErrorKind.invalid_input message

-- `sort_unstable_by_key(|candidate| candidate.file_id)`, by insertion.
unfoldable pub insert_by_id : CatalogCandidate → List CatalogCandidate → List CatalogCandidate
insert_by_id c [] = c ∷ []
insert_by_id c (d ∷ ds) = if leb c.file_id d.file_id then c ∷ d ∷ ds else d ∷ insert_by_id c ds

unfoldable pub sort_by_id : List CatalogCandidate → List CatalogCandidate
sort_by_id [] = []
sort_by_id (c ∷ cs) = insert_by_id c (sort_by_id cs)

-- The loop of validate_candidates.
unfoldable pub validate_from : Option ℕ → List CatalogCandidate → IoResult (Unit {0})
validate_from previous [] = ok tt
validate_from previous (c ∷ cs) = do
  reject_if (c.logical_bytes == 0) (invalid_input "session CDC candidate must not be empty")
  check_order (invalid_input "session CDC candidate list contains a duplicate file ID")
      (invalid_input "session CDC candidate list is not sorted by file ID") previous c.file_id
  _ ← estimated_entries c
  validate_from (some c.file_id) cs

unfoldable pub validate_candidates : List CatalogCandidate → IoResult (Unit {0})
unfolding validate_from
validate_candidates candidates = validate_from none candidates

-- The locals of `plan` that outlive a generation.
pub record Planner : Type 0 where
  pub generations : List CatalogGeneration
  pub catalog : List (ℕ × ℕ)
  pub catalog_entries : ℕ
  pub peak_catalog_entries : ℕ

unfoldable pub finish_catalog_generation :
    CatalogLimits → Planner → List CatalogCandidate → IoResult Planner
finish_catalog_generation limits p transfer_files = do
  reject_if (is_empty transfer_files)
      (io_error ErrorKind.invalid_data "session CDC attempted to finalize an empty generation")
  logical_bytes ← sum_candidate_bytes transfer_files
  r ← place_all planner_messages limits (begin p.catalog p.catalog_entries) transfer_files
  let generation : CatalogGeneration = record {
    index = length p.generations;
    transfer_files = transfer_files;
    uncataloged_file_ids = r.uncataloged;
    evicted_file_ids = r.evicted;
    logical_bytes = logical_bytes;
    catalog_entries_before = p.catalog_entries;
    catalog_entries_after = r.catalog_entries;
  }
  ok (record {
    generations = p.generations ++ generation ∷ [];
    catalog = r.catalog;
    catalog_entries = r.catalog_entries;
    peak_catalog_entries = max p.peak_catalog_entries r.catalog_entries;
  })

abbrev pub bytes_overflowed : IoError
bytes_overflowed = io_error ErrorKind.other "session CDC generation byte count overflowed"

-- The loop of `plan` over the candidates, with the files and the bytes of the current generation, and
-- the generation that it leaves open at its end.
unfoldable pub plan_from :
    CatalogLimits → Planner → List CatalogCandidate → ℕ → List CatalogCandidate → IoResult Planner
plan_from limits p current bytes [] =
    if is_empty current then ok p else finish_catalog_generation limits p current
plan_from limits p current bytes (c ∷ cs) = do
  combined ← ok_or (checked_add bytes c.logical_bytes) bytes_overflowed
  elim (not (is_empty current) && ltb limits.generation_target_bytes combined) [
    | true ↦ do
      p' ← finish_catalog_generation limits p current
      restarted ← ok_or (checked_add 0 c.logical_bytes) bytes_overflowed
      plan_from limits p' (c ∷ []) restarted cs
    | false ↦ plan_from limits p (current ++ c ∷ []) combined cs
  ]

abbrev pub no_generations : Planner
no_generations = record {
  generations = [];
  catalog = [];
  catalog_entries = 0;
  peak_catalog_entries = 0;
}

unfoldable pub plan : List CatalogCandidate → CatalogLimits → IoResult CatalogPlan
plan unsorted limits = do
  validate_limits limits
  let candidates = sort_by_id unsorted
  validate_candidates candidates
  candidate_bytes ← sum_candidate_bytes candidates
  p ← plan_from limits no_generations [] 0 candidates
  let result : CatalogPlan = record {
    generations = p.generations;
    candidate_files = length candidates;
    candidate_bytes = candidate_bytes;
    peak_catalog_entries = p.peak_catalog_entries;
  }
  validate_plan result limits
  ok result
