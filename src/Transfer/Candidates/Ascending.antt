-- ===== src/Transfer/Candidates/Ascending.antt =====
-- multistream_copy.rs: the candidates are one for each file, in the order of the ids.
use networkcopy_speed.Common.{
  ℕ, ◌≤◌, ◌<◌, ◌≡◌, ◌≢◌, refl, sym, ap, subst, ◌∙◌, inl, inr, Bool, true, false, not, ◌||◌,
  Bool-cases, List, [], ◌∷◌, get_elem?, some, All, All-mono, leb, ◌==◌, ==→eq, arith, ok, >>=-eq_ok,
  ok_or-eq_ok, ok-injective, reject_if, ok_or,
}
use networkcopy_speed.Cdc.Catalog.Basis.{contains}
use networkcopy_speed.Cdc.Catalog.Types.{CatalogCandidate, new_candidate}
use networkcopy_speed.Transfer.Manifest.{ManifestEntry, is_medium, is_large}
use networkcopy_speed.Transfer.Plan.{TransferTask, whole_file, tiny_pack, stripe}
use networkcopy_speed.Transfer.Offer.{flatten}
use networkcopy_speed.Transfer.Candidates.{
  task_file_ids, insert_id, sort_ids, dedup_behind, dedup, candidates_of,
  collect_fresh_catalog_candidates,
}

-- Each id is less than all behind it.
abbrev pub Ascends : List ℕ → Type 0
Ascends [] = Unit {0}
Ascends (id ∷ ids) = All (λ j. id < j) ids × Ascends ids

-- Each id is at most all behind it.
abbrev InOrder : List ℕ → Type 0
InOrder [] = Unit {0}
InOrder (id ∷ ids) = All (λ j. id ≤ j) ids × InOrder ids

insert_id-All :
    (P : ℕ → Type 0) (id : ℕ) (ids : List ℕ) → P id → All P ids → All P (insert_id id ids)
unfolding insert_id
insert_id-All P id [] h all = (h, tt)
insert_id-All P id (j ∷ ids) h all = elim (Bool-cases (leb id j)) [
  | inl e ↦ rw e (h, all)
  | inr e ↦ rw e (all.0, insert_id-All P id ids h all.1)
]

insert_id-InOrder : (id : ℕ) (ids : List ℕ) → InOrder ids → InOrder (insert_id id ids)
unfolding insert_id
insert_id-InOrder id [] o = (tt, tt)
insert_id-InOrder id (j ∷ ids) o = elim (Bool-cases (leb id j)) [
  | inl e ↦
      let le : id ≤ j = (ground arith) in
      rw e ((le, All-mono (λ k h. omega (arith, h, le)) ids o.0), o)
  | inr e ↦
      rw e (insert_id-All (λ k. j ≤ k) id ids (ground arith) o.0, insert_id-InOrder id ids o.1)
]

sort_ids-InOrder : (ids : List ℕ) → InOrder (sort_ids ids)
unfolding sort_ids
sort_ids-InOrder [] = tt
sort_ids-InOrder (id ∷ ids) = insert_id-InOrder id (sort_ids ids) (sort_ids-InOrder ids)

or_swap : (a b c : Bool) → (a || (b || c)) ≡ (b || (a || c))
or_swap true true c = refl
or_swap true false c = refl
or_swap false b c = refl

or_twice : (a b c : Bool) → a ≡ b → (a || c) ≡ (a || (b || c))
or_twice true b c e = refl
or_twice false true c e = cc
or_twice false false c e = refl

contains-insert_id :
    (f id : ℕ) (ids : List ℕ) → contains f (insert_id id ids) ≡ (id == f || contains f ids)
unfolding insert_id
contains-insert_id f id [] = refl
contains-insert_id f id (j ∷ ids) = elim (Bool-cases (leb id j)) [
  | inl e ↦ rw e refl
  | inr e ↦ rw e (rw (contains-insert_id f id ids) (or_swap (j == f) (id == f) (contains f ids)))
]

contains-sort_ids : (f : ℕ) (ids : List ℕ) → contains f (sort_ids ids) ≡ contains f ids
unfolding sort_ids
contains-sort_ids f [] = refl
contains-sort_ids f (id ∷ ids) =
    contains-insert_id f id (sort_ids ids) ∙ ap (λ b. id == f || b) (contains-sort_ids f ids)

dedup_behind-Ascends :
    (id : ℕ) (ids : List ℕ)
    → All (λ j. id ≤ j) ids
    → InOrder ids
    → All (λ j. id < j) (dedup_behind id ids) × Ascends (dedup_behind id ids)
unfolding dedup_behind
dedup_behind-Ascends id [] le o = (tt, tt)
dedup_behind-Ascends id (j ∷ ids) le o = elim (Bool-cases (id == j)) [
  | inl e ↦ rw (dedup_behind, e) (dedup_behind-Ascends id ids le.1 o.1)
  | inr e ↦
      let lt : id < j = (let h = le.0 in ground arith) in
      let (above, ascends) = dedup_behind-Ascends j ids o.0 o.1 in
      rw (dedup_behind, e)
        ((lt, All-mono (λ k h. omega (arith, h, lt)) (dedup_behind j ids) above), (above, ascends))
]

contains-dedup_behind :
    (f id : ℕ) (ids : List ℕ)
    → (id == f || contains f (dedup_behind id ids)) ≡ (id == f || contains f ids)
unfolding dedup_behind
contains-dedup_behind f id [] = refl
contains-dedup_behind f id (j ∷ ids) = elim (Bool-cases (id == j)) [
  | inl e ↦
      rw (dedup_behind, e)
        (contains-dedup_behind f id ids
          ∙ or_twice (id == f) (j == f) (contains f ids) (ap (λ k. k == f) (==→eq id j e)))
  | inr e ↦ rw (dedup_behind, e) (ap (λ b. id == f || b) (contains-dedup_behind f j ids))
]

contains-dedup : (f : ℕ) (ids : List ℕ) → contains f (dedup ids) ≡ contains f ids
unfolding dedup
contains-dedup f [] = refl
contains-dedup f (id ∷ ids) = contains-dedup_behind f id ids

dedup-Ascends : (ids : List ℕ) → InOrder ids → Ascends (dedup ids)
unfolding dedup
dedup-Ascends [] o = tt
dedup-Ascends (id ∷ ids) o = dedup_behind-Ascends id ids o.0 o.1

-- The ids of the tasks that are not packs.
abbrev pub ids_of_tasks : List TransferTask → List ℕ
ids_of_tasks [] = []
ids_of_tasks (whole_file id ∷ tasks) = id ∷ ids_of_tasks tasks
ids_of_tasks (stripe id offset bytes ∷ tasks) = id ∷ ids_of_tasks tasks
ids_of_tasks (tiny_pack ids bytes ∷ tasks) = ids_of_tasks tasks

task_file_ids-ids_of_tasks :
    (manifest : List ManifestEntry) (tasks : List TransferTask) {ids : List ℕ}
    → task_file_ids manifest tasks ≡ ok ids
    → ids ≡ ids_of_tasks tasks
unfolding task_file_ids
task_file_ids-ids_of_tasks manifest [] e = sym (ok-injective e)
task_file_ids-ids_of_tasks manifest (tiny_pack ids bytes ∷ tasks) e =
    task_file_ids-ids_of_tasks manifest tasks e
task_file_ids-ids_of_tasks manifest (whole_file id ∷ tasks) e =
    let (entry, _, e₁) = >>=-eq_ok (ok_or (get_elem? manifest id) _) _ e in
    let (_, _, e₂) = >>=-eq_ok (reject_if (not (is_medium entry.class)) _) _ e₁ in
    let (rest, r, e₃) = >>=-eq_ok (task_file_ids manifest tasks) _ e₂ in
    sym (ok-injective e₃) ∙ ap (◌∷◌ id) (task_file_ids-ids_of_tasks manifest tasks r)
task_file_ids-ids_of_tasks manifest (stripe id offset bytes ∷ tasks) e =
    let (entry, _, e₁) = >>=-eq_ok (ok_or (get_elem? manifest id) _) _ e in
    let (_, _, e₂) = >>=-eq_ok (reject_if (not (is_large entry.class)) _) _ e₁ in
    let (rest, r, e₃) = >>=-eq_ok (task_file_ids manifest tasks) _ e₂ in
    sym (ok-injective e₃) ∙ ap (◌∷◌ id) (task_file_ids-ids_of_tasks manifest tasks r)

abbrev pub candidate_ids : List CatalogCandidate → List ℕ
candidate_ids [] = []
candidate_ids (c ∷ cs) = c.file_id ∷ candidate_ids cs

-- The candidate has the size of its file, which is not empty.
pub record Measured (manifest : List ManifestEntry) (c : CatalogCandidate) : Type 0 where
  pub entry : ManifestEntry
  pub there : get_elem? manifest c.file_id ≡ some entry
  pub size : c.logical_bytes ≡ entry.file_size
  pub some_bytes : c.logical_bytes ≢ 0

candidates_of-ids :
    (manifest : List ManifestEntry) (ids : List ℕ) {cs : List CatalogCandidate}
    → candidates_of manifest ids ≡ ok cs
    → (candidate_ids cs ≡ ids) × All (Measured manifest) cs
unfolding candidates_of new_candidate
candidates_of-ids manifest [] e =
    let same = ok-injective e in
    (ap candidate_ids (sym same), subst (All (Measured manifest)) same tt)
candidates_of-ids manifest (id ∷ ids) e =
    let (entry, g, e₁) = >>=-eq_ok (ok_or (get_elem? manifest id) _) _ e in
    let (c, n, e₂) = >>=-eq_ok (new_candidate id entry.file_size) _ e₁ in
    let (rest, r, e₃) = >>=-eq_ok (candidates_of manifest ids) _ e₂ in
    let (_, z, n') = >>=-eq_ok (reject_if (entry.file_size == 0) _) _ n in
    let made = ok-injective n' in
    let same = ok-injective e₃ in
    let (names, all) = candidates_of-ids manifest ids r in
    let own : CatalogCandidate = record { file_id = id; logical_bytes = entry.file_size } in
    let measured : Measured manifest own = record {
      entry = entry;
      there = ok_or-eq_ok _ _ g;
      size = refl;
      some_bytes = ground arith;
    } in
    (
      ap candidate_ids (sym same)
          ∙ ap (λ (x : CatalogCandidate). x.file_id ∷ candidate_ids rest) (sym made)
          ∙ ap (◌∷◌ id) names,
      subst (All (Measured manifest)) same (subst (Measured manifest) made measured, all),
    )

-- The candidates that are collected are one for each file that has a task of its own, in strictly
-- ascending order of their ids, each with the size of its file, which is not empty.
pub collect_fresh_catalog_candidates-Ascends :
    (manifest : List ManifestEntry) (lanes : List (List TransferTask)) (cs : List CatalogCandidate)
    (file_id : ℕ)
    → collect_fresh_catalog_candidates manifest lanes ≡ ok cs
    → Ascends (candidate_ids cs)
      × All (Measured manifest) cs
      × (contains file_id (candidate_ids cs) ≡ contains file_id (ids_of_tasks (flatten lanes)))
unfolding collect_fresh_catalog_candidates
collect_fresh_catalog_candidates-Ascends manifest lanes cs file_id e =
    let (ids, t, e₁) = >>=-eq_ok (task_file_ids manifest (flatten lanes)) _ e in
    let (names, all) = candidates_of-ids manifest (dedup (sort_ids ids)) e₁ in
    (
      subst Ascends (sym names) (dedup-Ascends (sort_ids ids) (sort_ids-InOrder ids)),
      all,
      ap (contains file_id) names
          ∙ contains-dedup file_id (sort_ids ids)
          ∙ contains-sort_ids file_id ids
          ∙ ap (contains file_id) (task_file_ids-ids_of_tasks manifest (flatten lanes) t),
    )
