-- ===== src/Cdc/Catalog/Bases.antt =====
-- session_cdc_catalog.rs: a plan that the validator accepts can be replayed.
use mathlib.Core.List.{append_assoc, append-nil}
use networkcopy_speed.Common.{
  ℕ, zero, suc, ◌+◌, ◌≤◌, ◌≡◌, refl, sym, subst, ap, ◌∙◌, inl, inr, Bool-cases, not, List, [], ◌∷◌,
  ◌++◌, Option, some, ok, ok_or, reject_if, >>=-eq_ok, checked_add, arith, length, take,
  take-append, drop-append, length-append, le→ltb_false, ◌==◌,
}
use networkcopy_speed.Wire.Bytes.{
  same_bytes as same_ids, same_bytes_refl as same_ids_refl, same_bytes-eq as same_ids-eq,
}
use networkcopy_speed.Cdc.Catalog.Types.{
  CatalogCandidate, CatalogLimits, CatalogGeneration, CatalogPlan, validate_limits,
  sum_candidate_bytes,
}
use networkcopy_speed.Cdc.Catalog.Entries.{Rolling, place, begin, check_order, is_empty}
use networkcopy_speed.Cdc.Catalog.Bounds.{ids}
use networkcopy_speed.Cdc.Catalog.Agreement.{Ascends}
use networkcopy_speed.Cdc.Catalog.Sorting.{check_order-eq_ok}
use networkcopy_speed.Cdc.Catalog.Validator.{
  Validated, validator_messages, validate_files, validate_generation, validate_generations,
  validate_plan, nothing_validated,
}
use networkcopy_speed.Cdc.Catalog.Basis.{
  published, apply_generation, apply_generations, before_generation,
}
use networkcopy_speed.Cdc.Catalog.Replay.{Moves, place-Moves, is_large, large_ids, small_ids}
use networkcopy_speed.Cdc.Catalog.Published.{published-small_ids}

Moves-cons :
    (limits : CatalogLimits) (r s t : Rolling) (c : CatalogCandidate) (cs : List CatalogCandidate)
    → Moves limits r s (c ∷ [])
    → Moves limits s t cs
    → Moves limits r t (c ∷ cs)
Moves-cons limits r s t c cs a b = elim (Bool-cases (is_large limits c)) [
  | inl large ↦ record {
    uncataloged = rw large (
        b.uncataloged
        ∙ ap (λ (l : List ℕ). l ++ large_ids limits cs) (rw large at a.uncataloged)
        ∙ append_assoc r.uncataloged (c.file_id ∷ []) (large_ids limits cs));
    queue = rw large (
        b.queue
        ∙ ap (λ (l : List ℕ). l ++ small_ids limits cs) ((rw large at a.queue) ∙ append-nil _));
  }
  | inr small ↦ record {
    uncataloged = rw small (
        b.uncataloged
        ∙ ap (λ (l : List ℕ). l ++ large_ids limits cs)
            ((rw small at a.uncataloged) ∙ append-nil _));
    queue = rw small (
        b.queue
        ∙ ap (λ (l : List ℕ). l ++ small_ids limits cs) (rw small at a.queue)
        ∙ append_assoc (r.evicted ++ ids r.catalog) (c.file_id ∷ []) (small_ids limits cs));
  }
]

validate_files-Moves :
    (limits : CatalogLimits) (previous : Option ℕ) (r : Rolling) (cs : List CatalogCandidate)
    {previous' : Option ℕ} {r' : Rolling}
    → validate_files limits previous r cs ≡ ok (previous', r')
    → Ascends previous cs × Moves limits r r' cs
unfolding validate_files
validate_files-Moves limits previous r [] {r' = r'} e =
    let same : r ≡ r' = (ground arith) in
    rw (← same) (tt, record { uncataloged = sym (append-nil _); queue = sym (append-nil _) })
validate_files-Moves limits previous r (c ∷ cs) {r' = r'} e =
    let (_, ordered, e₁) = >>=-eq_ok (check_order _ _ previous c.file_id) _ e in
    let (s, placed, e₂) = >>=-eq_ok (place validator_messages limits r c) _ e₁ in
    let (a, moves) = validate_files-Moves limits (some c.file_id) s cs e₂ in
    (
      (check_order-eq_ok _ _ previous c.file_id ordered, a),
      Moves-cons limits r s r' c cs (place-Moves validator_messages limits r c placed) moves,
    )

-- Where the evicted ids stand at the front, the application drops them.
apply_generation-ok :
    (basis rest : List ℕ) (g : CatalogGeneration)
    → basis ++ published g.uncataloged_file_ids g.transfer_files ≡ g.evicted_file_ids ++ rest
    → apply_generation basis g ≡ ok rest
unfolding apply_generation
apply_generation-ok basis rest g e =
    rw
      (
        e,
        le→ltb_false (length (g.evicted_file_ids ++ rest)) (length g.evicted_file_ids)
            (omega (arith, length-append g.evicted_file_ids rest)),
        take-append g.evicted_file_ids rest,
        same_ids_refl g.evicted_file_ids,
        drop-append g.evicted_file_ids rest,
      )
      refl

-- The generation's own record of what it leaves out and evicts is what its files cause.
apply_generation-Moves :
    (limits : CatalogLimits) (v : Validated) (g : CatalogGeneration) (r : Rolling)
    → Ascends v.previous_file_id g.transfer_files
    → Moves limits (begin v.catalog v.catalog_entries) r g.transfer_files
    → g.uncataloged_file_ids ≡ r.uncataloged
    → g.evicted_file_ids ≡ r.evicted
    → apply_generation (ids v.catalog) g ≡ ok (ids r.catalog)
apply_generation-Moves limits v g r ascends moves u x =
    apply_generation-ok (ids v.catalog) (ids r.catalog) g (
      ap (λ (l : List ℕ). ids v.catalog ++ published l g.transfer_files) (u ∙ moves.uncataloged)
      ∙ ap (◌++◌ (ids v.catalog))
          (published-small_ids limits v.previous_file_id g.transfer_files ascends)
      ∙ sym moves.queue
      ∙ ap (λ (l : List ℕ). l ++ ids r.catalog) (sym x))

validate_generation-apply :
    (limits : CatalogLimits) (i : ℕ) (v : Validated) (g : CatalogGeneration) {v' : Validated}
    → validate_generation limits i v g ≡ ok v'
    → apply_generation (ids v.catalog) g ≡ ok (ids v'.catalog)
unfolding validate_generation
validate_generation-apply limits i v g {v' = v'} e =
    let (_, _, e₁) = >>=-eq_ok (reject_if (not (g.index == i)) _) _ e in
    let (_, _, e₂) = >>=-eq_ok (reject_if (is_empty g.transfer_files) _) _ e₁ in
    let (_, _, e₃) =
      >>=-eq_ok (reject_if (not (g.catalog_entries_before == v.catalog_entries)) _) _ e₂ in
    let (bytes, _, e₄) = >>=-eq_ok (sum_candidate_bytes g.transfer_files) _ e₃ in
    let (_, _, e₅) = >>=-eq_ok (reject_if (not (bytes == g.logical_bytes)) _) _ e₄ in
    let (files, _, e₆) =
      >>=-eq_ok (ok_or (checked_add v.candidate_files (length g.transfer_files)) _) _ e₅ in
    let (all, _, e₇) = >>=-eq_ok (ok_or (checked_add v.candidate_bytes bytes) _) _ e₆ in
    let ((previous, r), placed, e₈) =
      >>=-eq_ok
        (validate_files limits v.previous_file_id (begin v.catalog v.catalog_entries)
          g.transfer_files)
        _ e₇ in
    let (_, u, e₉) =
      >>=-eq_ok (reject_if (not (same_ids g.uncataloged_file_ids r.uncataloged)) _) _ e₈ in
    let (_, x, e') = >>=-eq_ok (reject_if (not (same_ids g.evicted_file_ids r.evicted)) _) _ e₉ in
    let same_u = same_ids-eq g.uncataloged_file_ids r.uncataloged (ground arith) in
    let same_x = same_ids-eq g.evicted_file_ids r.evicted (ground arith) in
    let catalog : r.catalog ≡ v'.catalog = (ground arith) in
    let (ascends, moves) =
      validate_files-Moves limits v.previous_file_id _ g.transfer_files placed in
    subst (λ (c : List (ℕ × ℕ)). apply_generation (ids v.catalog) g ≡ ok (ids c)) catalog
      (apply_generation-Moves limits v g r ascends moves same_u same_x)

-- The basis before a generation is the catalog that the validator has there.
replay :
    (limits : CatalogLimits) (i k : ℕ) (v : Validated) (gs : List CatalogGeneration) {w : Validated}
    → k ≤ length gs
    → validate_generations limits i v gs ≡ ok w
    → (u : Validated) × (validate_generations limits i v (take k gs) ≡ ok u)
      × (apply_generations (ids v.catalog) (take k gs) ≡ ok (ids u.catalog))
unfolding validate_generations apply_generations
replay limits i zero v gs h e = (v, refl, refl)
replay limits i (suc k) v [] h e = absurd (omega arith)
replay limits i (suc k) v (g ∷ gs) h e =
    let (v', first, e') = >>=-eq_ok (validate_generation limits i v g) _ e in
    let (u, validated, applied) = replay limits (i + 1) k v' gs (omega arith) e' in
    (u, rw first validated, rw (validate_generation-apply limits i v g first) applied)

-- A plan that `validate_plan` accepts can be replayed: before each of its generations, and behind the
-- last, there is a basis. It holds exactly the files of the catalog that the validator has after the
-- generations before, oldest first.
pub before_generation-validate_plan :
    (p : CatalogPlan) (limits : CatalogLimits) (k : ℕ)
    → validate_plan p limits ≡ ok tt
    → k ≤ length p.generations
    → (u : Validated) × (validate_generations limits 0 nothing_validated (take k p.generations)
        ≡ ok u)
      × (before_generation p k ≡ ok (ids u.catalog))
unfolding validate_plan before_generation
before_generation-validate_plan p limits k e h =
    let (_, _, e₁) = >>=-eq_ok (validate_limits limits) _ e in
    let (_, v, _) =
      >>=-eq_ok (validate_generations limits 0 nothing_validated p.generations) _ e₁ in
    let (u, validated, applied) = replay limits 0 k nothing_validated p.generations h v in
    (u, validated, rw (le→ltb_false (length p.generations) k h) applied)
