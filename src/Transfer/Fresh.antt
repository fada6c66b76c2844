-- ===== src/Transfer/Fresh.antt =====
-- multistream_copy.rs: how far an interrupted fresh transfer has come in its generations. The generations
-- ascend in the ids of their files: `partition_point` is the length of the prefix that passes the test, and
-- `binary_search_by_key` is a search for the id.
pub mod Prefix
mod Tests
use networkcopy_speed.Common.{
  ℕ, zero, suc, ◌+◌, Bool, true, false, not, ◌||◌, List, [], ◌∷◌, Option, none, some, length,
  get_elem?, ltb, leb, ◌==◌, IoError, IoResult, io_error, ErrorKind, ok, err, reject_if, ok_or,
  ◌>>=◌, ◌>>◌, checked_add,
}
use networkcopy_speed.Resume.Sets.{set_contains}
use networkcopy_speed.Resume.Journal.{invalid_data}
use networkcopy_speed.Cdc.Catalog.Types.{CatalogCandidate, CatalogGeneration, CatalogPlan}
use networkcopy_speed.Transfer.Plan.{other_error, invalid_input}

pub record FreshGenerationPlan : Type 0 where
  pub catalog : CatalogPlan
  pub completed_generation_count : ℕ

-- `transfer_files.last().is_some_and(|candidate| candidate.file_id < file_id)`.
abbrev pub ends_before : ℕ → List CatalogCandidate → Bool
ends_before file_id [] = false
ends_before file_id (c ∷ []) = ltb c.file_id file_id
ends_before file_id (c ∷ d ∷ cs) = ends_before file_id (d ∷ cs)

abbrev pub partition_point {ℓ} : {A : Type ℓ} → (A → Bool) → List A → ℕ
partition_point test [] = 0
partition_point test (x ∷ xs) = elim (test x) [ true ↦ suc (partition_point test xs) | false ↦ 0 ]

abbrev pub has_file : ℕ → List CatalogCandidate → Bool
has_file file_id [] = false
has_file file_id (c ∷ cs) = c.file_id == file_id || has_file file_id cs

unfoldable pub catalog_generation_index_for_file_id : CatalogPlan → ℕ → Option ℕ
catalog_generation_index_for_file_id catalog file_id =
    let index =
      partition_point (λ (g : CatalogGeneration). ends_before file_id g.transfer_files)
        catalog.generations in
    elim (get_elem? catalog.generations index) [
      | none ↦ none
      | some generation ↦ elim (has_file file_id generation.transfer_files) [
        | true ↦ some index
        | false ↦ none
      ]
    ]

-- `filter(|candidate| completed_file_ids.contains(..)).count()`.
abbrev pub count_completed : List ℕ → List CatalogCandidate → ℕ
count_completed completed [] = 0
count_completed completed (c ∷ cs) = elim (set_contains ltb c.file_id completed) [
  | true ↦ suc (count_completed completed cs)
  | false ↦ count_completed completed cs
]

abbrev pub has_no_files : List CatalogCandidate → Bool
has_no_files [] = true
has_no_files (c ∷ cs) = false

-- The loop over the generations, with the number of those that are complete.
unfoldable pub count_prefix : List ℕ → ℕ → List CatalogGeneration → IoResult ℕ
count_prefix completed count [] = ok count
count_prefix completed count (g ∷ gs) = do
  reject_if (has_no_files g.transfer_files)
      (invalid_data "fresh-transfer catalog contains an empty generation")
  elim (count_completed completed g.transfer_files == length g.transfer_files) [
    | true ↦ do
      next ← ok_or (checked_add count 1) (other_error "completed fresh-generation count overflowed")
      count_prefix completed next gs
    | false ↦ do
      reject_if (not (count_completed completed g.transfer_files == 0))
          (invalid_data "resume journal contains only part of a fresh generation")
      ok count
  ]

-- The loop over the completed files.
unfoldable pub check_completed : CatalogPlan → ℕ → List ℕ → IoResult (Unit {0})
check_completed catalog count [] = ok tt
check_completed catalog count (file_id ∷ ids) = do
  index ←
      ok_or (catalog_generation_index_for_file_id catalog file_id)
        (invalid_data "resume journal completed file does not belong to the fresh catalog")
  reject_if (leb count index) (
      invalid_data
        "resume journal completed file does not belong to a contiguous generation prefix")
  check_completed catalog count ids

unfoldable pub apply_fresh_resume_prefix :
    FreshGenerationPlan → List ℕ → IoResult FreshGenerationPlan
apply_fresh_resume_prefix plan completed_file_ids = do
  reject_if (not (plan.completed_generation_count == 0))
      (invalid_input "fresh resume prefix was already applied")
  count ← count_prefix completed_file_ids 0 plan.catalog.generations
  check_completed plan.catalog count completed_file_ids
  ok (record plan { completed_generation_count = count })
