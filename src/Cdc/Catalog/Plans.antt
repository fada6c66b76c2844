-- ===== src/Cdc/Catalog/Plans.antt =====
-- session_cdc_catalog.rs: what `plan` promises, and when it succeeds.
use mathlib.Core.List.{Perm}
use networkcopy_speed.Common.{
  ◌<◌, ◌≡◌, refl, subst, inl, List, [], ◌∷◌, none, ok, true, >>=-eq_ok, arith, All, u64_mod, length,
  ◌==◌,
}
use networkcopy_speed.Cdc.Catalog.Types.{
  CatalogCandidate, CatalogLimits, CatalogPlan, validate_limits, sum_candidate_bytes, sum_from,
}
use networkcopy_speed.Cdc.Catalog.Bounds.{Fits}
use networkcopy_speed.Cdc.Catalog.Agreement.{bytes_of, Ascends, sum_candidate_bytes-ok}
use networkcopy_speed.Cdc.Catalog.Sorting.{
  Usable, Distinct, sort_by_id-Perm, sort_by_id-All, sort_by_id-Ascends, sort_by_id-bytes_of,
  length-bytes_of, validate_from_complete, validate_from_sound, sum_from-eq_ok,
}
use networkcopy_speed.Cdc.Catalog.Planner.{
  no_generations, plan, sort_by_id, validate_candidates, validate_from,
}
use networkcopy_speed.Cdc.Catalog.Planning.{files_of, IsWithin, Planned, plan_from-Planned}
use networkcopy_speed.Cdc.Catalog.Validator.{nothing_validated, validate_plan, validate_generations}

-- A plan for the candidates: it transfers each once, in the order of their ids, in generations of the
-- right size that keep the catalog within its limit, and it passes the validator.
pub record IsPlanFor (limits : CatalogLimits) (cs : List CatalogCandidate) (p : CatalogPlan)
    : Type 0 where
  pub reordered : Perm (files_of p.generations) cs
  pub ascending : Ascends none (files_of p.generations)
  pub within : All (IsWithin limits) p.generations
  pub bytes : p.candidate_bytes ≡ bytes_of cs
  pub validated : validate_plan p limits ≡ ok tt

module _ (limits : CatalogLimits) (u : limits.max_catalog_entries < u64_mod) where
  -- The loop of `plan` over sorted candidates.
  loop :
      (cs : List CatalogCandidate)
      → Ascends none cs
      → All Usable cs
      → bytes_of cs < u64_mod
      → Planned limits no_generations nothing_validated [] 0 cs
  unfolding validate_generations
  loop cs asc usable small =
      plan_from-Planned limits u no_generations nothing_validated [] 0 cs
        (record {
          validated = refl;
          catalog = refl;
          entries = refl;
          peak = refl;
          bounded = record { counted = refl; within = omega arith };
        })
        (inl (omega arith)) refl
        (record {
          fits = fits cs usable;
          ascends = asc;
          room = omega (arith, length-bytes_of cs usable);
          bytes = omega arith;
        })
    where
      fits : (ds : List CatalogCandidate) → All Usable ds → All Fits ds
      fits [] h = tt
      fits (d ∷ ds) h = (h.0.1, fits ds h.1)

  -- The plan that the loop's end makes.
  abbrev planned :
      (cs : List CatalogCandidate)
      → Planned limits no_generations nothing_validated [] 0 cs
      → CatalogPlan
  planned cs r = record {
    generations = r.after.generations;
    candidate_files = length cs;
    candidate_bytes = bytes_of cs;
    peak_catalog_entries = r.after.peak_catalog_entries;
  }

  planned-validated :
      (cs : List CatalogCandidate) (r : Planned limits no_generations nothing_validated [] 0 cs)
      → validate_limits limits ≡ ok tt
      → validate_plan (planned cs r) limits ≡ ok tt
  unfolding validate_plan
  planned-validated cs r l =
      let files : (length cs == r.state.candidate_files) ≡ true = (ground (arith, r.file_count)) in
      let bytes : (bytes_of cs == r.state.candidate_bytes) ≡ true =
        (ground (arith, r.byte_count)) in
      let peak : (r.after.peak_catalog_entries == r.state.peak_catalog_entries) ≡ true =
        (ground (arith, r.agree.peak)) in
      rw (l, r.agree.validated, files, bytes, peak) refl

  plan-planned :
      (cs : List CatalogCandidate)
      → validate_limits limits ≡ ok tt
      → Ascends none (sort_by_id cs)
      → All Usable (sort_by_id cs)
      → bytes_of (sort_by_id cs) < u64_mod
      → (p : CatalogPlan) × (plan cs limits ≡ ok p) × IsPlanFor limits cs p
  unfolding plan validate_candidates
  plan-planned cs l asc usable small =
      let r = loop (sort_by_id cs) asc usable small in
      let p = planned (sort_by_id cs) r in
      (
        p,
        rw (l, validate_from_complete none (sort_by_id cs) asc usable)
            (rw (sum_candidate_bytes-ok (sort_by_id cs) small)
              (rw (r.result) (rw (planned-validated (sort_by_id cs) r l) refl))),
        record {
          reordered = rw r.transferred (sort_by_id-Perm cs);
          ascending = rw r.transferred asc;
          within = r.within tt;
          bytes = sort_by_id-bytes_of cs;
          validated = planned-validated (sort_by_id cs) r l;
        },
      )

-- Under limits that validate and an entry limit of 64 bits, `plan` succeeds on candidates with distinct
-- ids, none of them empty, whose entries can be computed and whose bytes together are of 64 bits.
pub plan_complete :
    (cs : List CatalogCandidate) (limits : CatalogLimits)
    → limits.max_catalog_entries < u64_mod
    → validate_limits limits ≡ ok tt
    → Distinct cs
    → All Usable cs
    → bytes_of cs < u64_mod
    → (p : CatalogPlan) × (plan cs limits ≡ ok p)
plan_complete cs limits u l distinct usable small =
    let (p, e, h) =
      plan-planned limits u cs l (sort_by_id-Ascends cs distinct) (sort_by_id-All Usable cs usable)
        (rw (sort_by_id-bytes_of cs) small) in
    (p, e)

-- A plan that `plan` returns, under an entry limit of 64 bits, transfers each candidate exactly once
-- and in the order of the ids, in generations that each hold at least one file, and more than one only
-- within the byte target; after each the catalog is within its limit; and `validate_plan` accepts it.
pub plan-IsPlanFor :
    (cs : List CatalogCandidate) (limits : CatalogLimits) (p : CatalogPlan)
    → limits.max_catalog_entries < u64_mod
    → plan cs limits ≡ ok p
    → IsPlanFor limits cs p
unfolding plan validate_candidates sum_candidate_bytes
plan-IsPlanFor cs limits p u e =
    let (_, l, e₁) = >>=-eq_ok (validate_limits limits) _ e in
    let (_, v, e₂) = >>=-eq_ok (validate_from none (sort_by_id cs)) _ e₁ in
    let (_, s, _) = >>=-eq_ok (sum_from 0 (sort_by_id cs)) _ e₂ in
    let (asc, usable) = validate_from_sound none (sort_by_id cs) v in
    let (small, _) = sum_from-eq_ok 0 (sort_by_id cs) (omega arith) s in
    let (p', e', h) = plan-planned limits u cs l asc usable (omega (arith, small)) in
    let same : p' ≡ p = (cc) in subst (IsPlanFor limits cs) same h
