-- ===== src/Cdc/Catalog/Basis.antt =====
-- session_cdc_catalog.rs: CatalogBasis, the files whose chunks a generation may use. `binary_search` on
-- the uncataloged ids, which ascend, is a search for the id.
use networkcopy_speed.Common.{
  ℕ, Bool, false, not, ◌||◌, List, [], ◌∷◌, ◌++◌, ltb, ◌==◌, length, take, drop, if◌then◌else◌,
  IoResult, io_error, ErrorKind, ok, reject_if, ◌>>=◌, ◌>>◌,
}
use networkcopy_speed.Wire.Bytes.{same_bytes as same_ids}
use networkcopy_speed.Cdc.Catalog.Types.{CatalogCandidate, CatalogGeneration, CatalogPlan}

abbrev pub contains : ℕ → List ℕ → Bool
contains id [] = false
contains id (j ∷ ids) = j == id || contains id ids

-- The ids of the files that are not among the uncataloged ones.
unfoldable pub published : List ℕ → List CatalogCandidate → List ℕ
published uncataloged [] = []
published uncataloged (c ∷ cs) =
    if contains c.file_id uncataloged
    then published uncataloged cs
    else c.file_id ∷ published uncataloged cs

abbrev pub published_file_ids : CatalogGeneration → List ℕ
published_file_ids g = published g.uncataloged_file_ids g.transfer_files

-- CatalogBasis::apply_generation, on the basis' file ids.
unfoldable pub apply_generation : List ℕ → CatalogGeneration → IoResult (List ℕ)
apply_generation file_ids g = do
  let extended = file_ids ++ published_file_ids g
  let evicted_count = length g.evicted_file_ids
  reject_if
      (ltb (length extended) evicted_count
        || not (same_ids (take evicted_count extended) g.evicted_file_ids))
      (io_error ErrorKind.invalid_data
        "session CDC eviction order does not match the rolling catalog")
  ok (drop evicted_count extended)

unfoldable pub apply_generations : List ℕ → List CatalogGeneration → IoResult (List ℕ)
apply_generations file_ids [] = ok file_ids
apply_generations file_ids (g ∷ gs) = do
  file_ids' ← apply_generation file_ids g
  apply_generations file_ids' gs

-- CatalogBasis::before_generation.
unfoldable pub before_generation : CatalogPlan → ℕ → IoResult (List ℕ)
before_generation plan generation_index = do
  reject_if (ltb (length plan.generations) generation_index) (
      io_error ErrorKind.invalid_input
        "session CDC basis generation index exceeds the catalog plan")
  apply_generations [] (take generation_index plan.generations)
