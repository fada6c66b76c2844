-- ===== src/Cdc/Catalog/Agreement.antt =====
-- A generation that the planner of session_cdc_catalog.rs finishes passes its validator.
use networkcopy_speed.Common.{
  ℕ, ◌+◌, ◌≤◌, ◌<◌, ◌≡◌, refl, ap, ◌∙◌, inl, inr, false, List, [], ◌∷◌, ◌++◌, Option, none, some,
  IoError, ok, checked_add-lt, >>=-ok, ==-refl, le→ltb_false, arith, All, u64_mod, Result-cases,
  max, length,
}
use networkcopy_speed.Wire.Bytes.{same_bytes_refl as same_ids_refl}
use networkcopy_speed.Cdc.Catalog.Types.{
  CatalogCandidate, CatalogLimits, CatalogGeneration, sum_candidate_bytes, sum_from,
}
use networkcopy_speed.Cdc.Catalog.Entries.{
  Rolling, Messages, place, place_all, begin, check_order, is_empty,
}
use networkcopy_speed.Cdc.Catalog.Bounds.{IsBounded, Fits, place-Placed}
use networkcopy_speed.Cdc.Catalog.Planner.{Planner, planner_messages, finish_catalog_generation}
use networkcopy_speed.Cdc.Catalog.Validator.{
  Validated, validator_messages, validate_files, validate_generation, validate_generations,
  nothing_validated,
}

-- The bytes of the files together.
abbrev pub bytes_of : List CatalogCandidate → ℕ
bytes_of [] = 0
bytes_of (c ∷ cs) = c.logical_bytes + bytes_of cs

abbrev pub Above : Option ℕ → ℕ → Type 0
Above none id = Unit {0}
Above (some previous) id = previous < id

-- The file ids ascend, from the one that came before on.
abbrev pub Ascends : Option ℕ → List CatalogCandidate → Type 0
Ascends previous [] = Unit {0}
Ascends previous (c ∷ cs) = Above previous c.file_id × Ascends (some c.file_id) cs

abbrev pub last_id : Option ℕ → List CatalogCandidate → Option ℕ
last_id previous [] = previous
last_id previous (c ∷ cs) = last_id (some c.file_id) cs

pub record PlacedAll (limits : CatalogLimits) (r : Rolling) (cs : List CatalogCandidate)
    : Type 0 where
  pub after : Rolling
  pub result : (m : Messages) → place_all m limits r cs ≡ ok after
  pub bounded : IsBounded limits.max_catalog_entries after.catalog after.catalog_entries

pub place_all_lem :
    (limits : CatalogLimits) (r : Rolling) (cs : List CatalogCandidate)
    → limits.max_catalog_entries < u64_mod
    → All Fits cs
    → IsBounded limits.max_catalog_entries r.catalog r.catalog_entries
    → PlacedAll limits r cs
unfolding place_all
place_all_lem limits r [] u h b = record { after = r; result = λ m. refl; bounded = b }
place_all_lem limits r (c ∷ cs) u h b =
    let first = place-Placed limits r c u h.0 b in
    let rest = place_all_lem limits first.after cs u h.1 first.bounded in
    record {
      after = rest.after;
      result = λ m. rw (first.result m) (rest.result m);
      bounded = rest.bounded;
    }

check_order-Above :
    (duplicate unsorted : IoError) (previous : Option ℕ) (id : ℕ)
    → Above previous id
    → check_order duplicate unsorted previous id ≡ ok tt
check_order-Above duplicate unsorted none id h = refl
check_order-Above duplicate unsorted (some previous) id h = ground arith

-- The validator's loop over the files of a generation is the planner's, if the ids ascend.
validate_files-place_all :
    (limits : CatalogLimits) (previous : Option ℕ) (r r' : Rolling) (cs : List CatalogCandidate)
    → Ascends previous cs
    → place_all validator_messages limits r cs ≡ ok r'
    → validate_files limits previous r cs ≡ ok (last_id previous cs, r')
unfolding validate_files place_all
validate_files-place_all limits previous r r' [] a e = ground arith
validate_files-place_all limits previous r r' (c ∷ cs) a e =
    elim (Result-cases (place validator_messages limits r c)) [
      | inl (s, es) ↦
          rw (check_order-Above _ _ previous c.file_id a.0, es)
            (validate_files-place_all limits (some c.file_id) s r' cs a.1 (rw es at e))
      | inr (x, es) ↦ ground arith
    ]

pub sum_from-ok :
    (total : ℕ) (cs : List CatalogCandidate)
    → total + bytes_of cs < u64_mod
    → sum_from total cs ≡ ok (total + bytes_of cs)
unfolding sum_from
sum_from-ok total [] h = ap ok (omega arith)
sum_from-ok total (c ∷ cs) h =
    rw (checked_add-lt total c.logical_bytes (omega arith))
      (sum_from-ok (total + c.logical_bytes) cs (omega arith) ∙ ap ok (omega arith))

pub sum_candidate_bytes-ok :
    (cs : List CatalogCandidate) → bytes_of cs < u64_mod → sum_candidate_bytes cs ≡ ok (bytes_of cs)
unfolding sum_candidate_bytes
sum_candidate_bytes-ok cs h = sum_from-ok 0 cs (omega arith) ∙ ap ok (omega arith)

-- The planner's state, and the validator's after the planner's generations.
pub record Agree (limits : CatalogLimits) (p : Planner) (v : Validated) : Type 0 where
  pub validated : validate_generations limits 0 nothing_validated p.generations ≡ ok v
  pub catalog : v.catalog ≡ p.catalog
  pub entries : v.catalog_entries ≡ p.catalog_entries
  pub peak : v.peak_catalog_entries ≡ p.peak_catalog_entries
  pub bounded : IsBounded limits.max_catalog_entries p.catalog p.catalog_entries

validate_generations-append :
    (limits : CatalogLimits) (i j : ℕ) (v : Validated) (gs : List CatalogGeneration)
    (g : CatalogGeneration) {w : Validated}
    → j ≡ i + length gs
    → validate_generations limits i v gs ≡ ok w
    → validate_generations limits i v (gs ++ g ∷ []) ≡ validate_generation limits j w g
unfolding validate_generations
validate_generations-append limits i j v [] g {w = w} h e =
    let same : v ≡ w = (ground arith) in
    let here : j ≡ i = (omega arith) in
    rw (← same, here) (>>=-ok (validate_generation limits i v g))
validate_generations-append limits i j v (g' ∷ gs) g {w = w} h e =
    elim (Result-cases (validate_generation limits i v g')) [
      | inl (s, es) ↦
          rw es (validate_generations-append limits (i + 1) j s gs g (omega arith) (rw es at e))
      | inr (x, es) ↦ ground arith
    ]

-- The generation that is finished, from the state of its loop at the end.
abbrev pub generation_of : Planner → List CatalogCandidate → Rolling → CatalogGeneration
generation_of p files r = record {
  index = length p.generations;
  transfer_files = files;
  uncataloged_file_ids = r.uncataloged;
  evicted_file_ids = r.evicted;
  logical_bytes = bytes_of files;
  catalog_entries_before = p.catalog_entries;
  catalog_entries_after = r.catalog_entries;
}

abbrev pub finished : Planner → List CatalogCandidate → Rolling → Planner
finished p files r = record {
  generations = p.generations ++ generation_of p files r ∷ [];
  catalog = r.catalog;
  catalog_entries = r.catalog_entries;
  peak_catalog_entries = max p.peak_catalog_entries r.catalog_entries;
}

abbrev pub accepted : Validated → List CatalogCandidate → Rolling → Validated
accepted v files r = record {
  catalog = r.catalog;
  catalog_entries = r.catalog_entries;
  peak_catalog_entries = max v.peak_catalog_entries r.catalog_entries;
  previous_file_id = last_id v.previous_file_id files;
  candidate_files = v.candidate_files + length files;
  candidate_bytes = v.candidate_bytes + bytes_of files;
}

finish-ok :
    (limits : CatalogLimits) (p : Planner) (files : List CatalogCandidate) (r : Rolling)
    → is_empty files ≡ false
    → bytes_of files < u64_mod
    → place_all planner_messages limits (begin p.catalog p.catalog_entries) files ≡ ok r
    → finish_catalog_generation limits p files ≡ ok (finished p files r)
unfolding finish_catalog_generation
finish-ok limits p files r some_file small e =
    rw (some_file, sum_candidate_bytes-ok files small, e) refl

validate_generation-ok :
    (limits : CatalogLimits) (p : Planner) (v : Validated) (files : List CatalogCandidate)
    (r : Rolling)
    → v.catalog ≡ p.catalog
    → v.catalog_entries ≡ p.catalog_entries
    → is_empty files ≡ false
    → Ascends v.previous_file_id files
    → v.candidate_files + length files < u64_mod
    → v.candidate_bytes + bytes_of files < u64_mod
    → r.catalog_entries ≤ limits.max_catalog_entries
    → place_all validator_messages limits (begin p.catalog p.catalog_entries) files ≡ ok r
    → validate_generation limits (length p.generations) v (generation_of p files r)
      ≡ ok (accepted v files r)
unfolding validate_generation
validate_generation-ok limits p v files r ec ee some_file asc room bytes within e =
    let loop =
      validate_files-place_all limits v.previous_file_id (begin p.catalog p.catalog_entries) r files
        asc e in
    rw
      (
        ec,
        ee,
        ==-refl (length p.generations),
        some_file,
        ==-refl p.catalog_entries,
        sum_candidate_bytes-ok files (omega arith),
        ==-refl (bytes_of files),
        checked_add-lt v.candidate_files (length files) room,
        checked_add-lt v.candidate_bytes (bytes_of files) bytes,
        loop,
        same_ids_refl r.uncataloged,
        same_ids_refl r.evicted,
        ==-refl r.catalog_entries,
        le→ltb_false limits.max_catalog_entries r.catalog_entries within,
      )
      refl

-- Finishing a generation that is not empty, whose ids ascend and whose sums can be represented,
-- succeeds, and the validator follows.
pub record Finished (limits : CatalogLimits) (p : Planner) (v : Validated)
    (files : List CatalogCandidate) : Type 0 where
  pub rolling : Rolling
  pub result : finish_catalog_generation limits p files ≡ ok (finished p files rolling)
  pub agree : Agree limits (finished p files rolling) (accepted v files rolling)

pub finish-Finished :
    (limits : CatalogLimits) (p : Planner) (v : Validated) (files : List CatalogCandidate)
    → limits.max_catalog_entries < u64_mod
    → Agree limits p v
    → is_empty files ≡ false
    → All Fits files
    → Ascends v.previous_file_id files
    → v.candidate_files + length files < u64_mod
    → v.candidate_bytes + bytes_of files < u64_mod
    → Finished limits p v files
finish-Finished limits p v files u a some_file fits asc room bytes =
    let all = place_all_lem limits (begin p.catalog p.catalog_entries) files u fits a.bounded in
    let r = all.after in
    record {
      rolling = r;
      result = finish-ok limits p files r some_file (omega arith) (all.result planner_messages);
      agree = record {
        validated =
            validate_generations-append limits 0 (length p.generations) nothing_validated
              p.generations (generation_of p files r) (omega arith) a.validated
            ∙ validate_generation-ok limits p v files r a.catalog a.entries some_file asc room bytes
                all.bounded.within (all.result validator_messages);
        catalog = refl;
        entries = refl;
        peak = ap (λ (k : ℕ). max k r.catalog_entries) a.peak;
        bounded = all.bounded;
      };
    }
