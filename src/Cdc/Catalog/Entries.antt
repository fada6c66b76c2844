-- ===== src/Cdc/Catalog/Entries.antt =====
-- session_cdc_catalog.rs: the rolling catalog. The planner and the validator run the same loop over a
-- generation's files, with messages of their own.
use networkcopy_speed.Common.{
  ℕ, Bool, true, false, List, [], ◌∷◌, ◌++◌, Option, none, some, ltb, if◌then◌else◌, IoError,
  IoResult, ok, err, ok_or, reject_if, ◌==◌, ◌>>=◌, ◌>>◌, checked_add, checked_sub,
}
use networkcopy_speed.Cdc.Catalog.Types.{CatalogCandidate, CatalogLimits, estimated_entries}

-- The catalog as a queue, oldest file first, each with its entries, their count, and what the
-- generation at hand has left out and has evicted so far.
pub record Rolling : Type 0 where
  pub catalog : List (ℕ × ℕ)
  pub catalog_entries : ℕ
  pub uncataloged : List ℕ
  pub evicted : List ℕ

-- What the loop says where it fails.
pub record Messages : Type 0 where
  pub unsatisfiable : IoError
  pub underflowed : IoError
  pub overflowed : IoError

-- `checked_add(estimated).is_none_or(|entries| entries > limit)`.
abbrev pub too_many : ℕ → Option ℕ → Bool
too_many limit none = true
too_many limit (some entries) = ltb limit entries

-- The loop that evicts files from the front until `estimated` more entries fit.
unfoldable pub evict :
    Messages → ℕ → ℕ → List (ℕ × ℕ) → ℕ → List ℕ → IoResult (List (ℕ × ℕ) × ℕ × List ℕ)
evict m limit estimated [] entries evicted =
    if too_many limit (checked_add entries estimated)
    then err m.unsatisfiable
    else ok ([], entries, evicted)
evict m limit estimated ((file_id, count) ∷ catalog) entries evicted =
    elim (too_many limit (checked_add entries estimated)) [
      | true ↦ do
        remaining ← ok_or (checked_sub entries count) m.underflowed
        evict m limit estimated catalog remaining (evicted ++ file_id ∷ [])
      | false ↦ ok ((file_id, count) ∷ catalog, entries, evicted)
    ]

-- The part of a round that takes the file into the catalog.
unfoldable pub catalog_file : Messages → ℕ → Rolling → ℕ → ℕ → IoResult Rolling
catalog_file m limit r file_id estimated = do
  (catalog, entries, evicted) ← evict m limit estimated r.catalog r.catalog_entries r.evicted
  entries' ← ok_or (checked_add entries estimated) m.overflowed
  ok (record r {
    catalog = catalog ++ (file_id, estimated) ∷ [];
    catalog_entries = entries';
    evicted = evicted;
  })

-- One round of the loop over a generation's files.
unfoldable pub place : Messages → CatalogLimits → Rolling → CatalogCandidate → IoResult Rolling
place m limits r candidate = do
  estimated ← estimated_entries candidate
  if ltb limits.max_catalog_entries estimated
      then ok (record r { uncataloged = r.uncataloged ++ candidate.file_id ∷ [] })
      else catalog_file m limits.max_catalog_entries r candidate.file_id estimated

-- The loop over a generation's files.
unfoldable pub place_all :
    Messages → CatalogLimits → Rolling → List CatalogCandidate → IoResult Rolling
place_all m limits r [] = ok r
place_all m limits r (c ∷ cs) = do r' ← place m limits r c; place_all m limits r' cs

-- The loop's state where a generation begins.
abbrev pub begin : List (ℕ × ℕ) → ℕ → Rolling
begin catalog entries = record {
  catalog = catalog;
  catalog_entries = entries;
  uncataloged = [];
  evicted = [];
}

-- The tests against the file id that came before.
abbrev pub check_order : IoError → IoError → Option ℕ → ℕ → IoResult (Unit {0})
check_order duplicate unsorted none file_id = ok tt
check_order duplicate unsorted (some previous) file_id = do
  reject_if (file_id == previous) duplicate
  reject_if (ltb file_id previous) unsorted

-- `Vec::is_empty`.
abbrev pub is_empty {ℓ} : {A : Type ℓ} → List A → Bool
is_empty [] = true
is_empty (x ∷ xs) = false
