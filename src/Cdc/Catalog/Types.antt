-- ===== src/Cdc/Catalog/Types.antt =====
-- session_cdc_catalog.rs: candidates, limits, generations and plans.
use networkcopy_speed.Common.{
  ℕ, ◌-◌, ◌*◌, ◌/◌, List, [], ◌∷◌, IoResult, io_error, ErrorKind, ok, reject_if, ok_or, ◌>>=◌, ◌>>◌,
  ◌==◌, checked_add,
}

abbrev pub average_chunk_bytes : ℕ
average_chunk_bytes = 64 * 1024

pub record CatalogCandidate : Type 0 where
  pub file_id : ℕ
  pub logical_bytes : ℕ

pub record CatalogLimits : Type 0 where
  pub generation_target_bytes : ℕ
  pub max_catalog_entries : ℕ

abbrev pub default_limits : CatalogLimits
default_limits = record {
  generation_target_bytes = 512 * 1024 * 1024;
  max_catalog_entries = 1_000_000;
}

pub record CatalogGeneration : Type 0 where
  pub index : ℕ
  pub transfer_files : List CatalogCandidate
  pub uncataloged_file_ids : List ℕ
  pub evicted_file_ids : List ℕ
  pub logical_bytes : ℕ
  pub catalog_entries_before : ℕ
  pub catalog_entries_after : ℕ

pub record CatalogPlan : Type 0 where
  pub generations : List CatalogGeneration
  pub candidate_files : ℕ
  pub candidate_bytes : ℕ
  pub peak_catalog_entries : ℕ

-- CatalogCandidate::new.
unfoldable pub new_candidate : ℕ → ℕ → IoResult CatalogCandidate
new_candidate file_id logical_bytes = do
  reject_if (logical_bytes == 0)
      (io_error ErrorKind.invalid_input "session CDC candidate must not be empty")
  ok (record { file_id = file_id; logical_bytes = logical_bytes })

-- CatalogCandidate::estimated_entries.
unfoldable pub estimated_entries : CatalogCandidate → IoResult ℕ
estimated_entries c = do
  bytes ←
      ok_or (checked_add c.logical_bytes (average_chunk_bytes - 1))
        (io_error ErrorKind.other "session CDC chunk estimate overflowed")
  ok (bytes / average_chunk_bytes)

-- CatalogLimits::validate.
unfoldable pub validate_limits : CatalogLimits → IoResult (Unit {0})
validate_limits limits = do
  reject_if (limits.generation_target_bytes == 0)
      (io_error ErrorKind.invalid_input "session CDC generation target must not be zero")
  reject_if (limits.max_catalog_entries == 0)
      (io_error ErrorKind.invalid_input "session CDC catalog limit must not be zero")
  ok tt

-- The sum over the candidates that `total` starts.
unfoldable pub sum_from : ℕ → List CatalogCandidate → IoResult ℕ
sum_from total [] = ok total
sum_from total (c ∷ cs) = do
  sum ←
      ok_or (checked_add total c.logical_bytes)
        (io_error ErrorKind.other "session CDC logical byte count overflowed")
  sum_from sum cs

unfoldable pub sum_candidate_bytes : List CatalogCandidate → IoResult ℕ
unfolding sum_from
sum_candidate_bytes candidates = sum_from 0 candidates
