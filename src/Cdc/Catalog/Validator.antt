-- ===== src/Cdc/Catalog/Validator.antt =====
-- session_cdc_catalog.rs: validate_plan.
use Prim.Native.String.{String}
use networkcopy_speed.Common.{
  ℕ, ◌+◌, not, List, [], ◌∷◌, Option, none, some, max, length, ltb, ◌==◌, IoError, IoResult,
  io_error, ErrorKind, ok, reject_if, ok_or, ◌>>=◌, ◌>>◌, checked_add,
}
use networkcopy_speed.Cdc.Catalog.Types.{
  CatalogCandidate, CatalogLimits, CatalogGeneration, CatalogPlan, validate_limits,
  sum_candidate_bytes,
}
use networkcopy_speed.Cdc.Catalog.Entries.{Rolling, Messages, place, begin, check_order, is_empty}
use networkcopy_speed.Wire.Bytes.{same_bytes as same_ids}

abbrev pub invalid : String → IoError
invalid message = io_error ErrorKind.invalid_data message

abbrev pub validator_messages : Messages
validator_messages = record {
  unsatisfiable = invalid "session CDC validation could not satisfy the catalog limit";
  underflowed = io_error ErrorKind.other "session CDC validation catalog underflowed";
  overflowed = io_error ErrorKind.other "session CDC validation catalog overflowed";
}

-- The locals of `validate_plan` that outlive a generation.
pub record Validated : Type 0 where
  pub catalog : List (ℕ × ℕ)
  pub catalog_entries : ℕ
  pub peak_catalog_entries : ℕ
  pub previous_file_id : Option ℕ
  pub candidate_files : ℕ
  pub candidate_bytes : ℕ

-- The loop over a generation's files.
unfoldable pub validate_files :
    CatalogLimits → Option ℕ → Rolling → List CatalogCandidate → IoResult (Option ℕ × Rolling)
validate_files limits previous r [] = ok (previous, r)
validate_files limits previous r (c ∷ cs) = do
  check_order (invalid "session CDC plan transfers the same file more than once")
      (invalid "session CDC plan file IDs are not strictly ordered") previous c.file_id
  r' ← place validator_messages limits r c
  validate_files limits (some c.file_id) r' cs

-- One round of the loop over the generations.
unfoldable pub validate_generation :
    CatalogLimits → ℕ → Validated → CatalogGeneration → IoResult Validated
validate_generation limits expected_index v g = do
  reject_if (not (g.index == expected_index))
      (invalid "session CDC generation index is not contiguous")
  reject_if (is_empty g.transfer_files) (invalid "session CDC generation is empty")
  reject_if (not (g.catalog_entries_before == v.catalog_entries))
      (invalid "session CDC generation reports an incorrect starting catalog size")
  logical_bytes ← sum_candidate_bytes g.transfer_files
  reject_if (not (logical_bytes == g.logical_bytes))
      (invalid "session CDC generation logical byte count is incorrect")
  files ←
      ok_or (checked_add v.candidate_files (length g.transfer_files))
        (io_error ErrorKind.other "session CDC validation file count overflowed")
  bytes ←
      ok_or (checked_add v.candidate_bytes logical_bytes)
        (io_error ErrorKind.other "session CDC validation byte count overflowed")
  (previous, r) ←
      validate_files limits v.previous_file_id (begin v.catalog v.catalog_entries) g.transfer_files
  reject_if (not (same_ids g.uncataloged_file_ids r.uncataloged))
      (invalid "session CDC generation uncataloged-file set is incorrect")
  reject_if (not (same_ids g.evicted_file_ids r.evicted))
      (invalid "session CDC generation eviction order is incorrect")
  reject_if (not (g.catalog_entries_after == r.catalog_entries))
      (invalid "session CDC generation reports an incorrect final catalog size")
  reject_if (ltb limits.max_catalog_entries r.catalog_entries)
      (invalid "session CDC catalog exceeds its configured limit")
  ok (record {
    catalog = r.catalog;
    catalog_entries = r.catalog_entries;
    peak_catalog_entries = max v.peak_catalog_entries r.catalog_entries;
    previous_file_id = previous;
    candidate_files = files;
    candidate_bytes = bytes;
  })

unfoldable pub validate_generations :
    CatalogLimits → ℕ → Validated → List CatalogGeneration → IoResult Validated
validate_generations limits index v [] = ok v
validate_generations limits index v (g ∷ gs) = do
  v' ← validate_generation limits index v g
  validate_generations limits (index + 1) v' gs

abbrev pub nothing_validated : Validated
nothing_validated = record {
  catalog = [];
  catalog_entries = 0;
  peak_catalog_entries = 0;
  previous_file_id = none;
  candidate_files = 0;
  candidate_bytes = 0;
}

unfoldable pub validate_plan : CatalogPlan → CatalogLimits → IoResult (Unit {0})
validate_plan plan limits = do
  validate_limits limits
  v ← validate_generations limits 0 nothing_validated plan.generations
  reject_if (not (plan.candidate_files == v.candidate_files))
      (invalid "session CDC plan candidate count is incorrect")
  reject_if (not (plan.candidate_bytes == v.candidate_bytes))
      (invalid "session CDC plan candidate byte count is incorrect")
  reject_if (not (plan.peak_catalog_entries == v.peak_catalog_entries))
      (invalid "session CDC plan peak catalog size is incorrect")
  ok tt
