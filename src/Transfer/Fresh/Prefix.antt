-- ===== src/Transfer/Fresh/Prefix.antt =====
-- multistream_copy.rs: the completed files are those of the completed generations.
use networkcopy_speed.Common.{
  ℕ, zero, suc, ◌+◌, ◌≤◌, ◌<◌, ◌≡◌, refl, sym, ap, subst, inl, inr, Bool, true, false, not, ◌||◌,
  Bool-cases, Option-cases, List, [], ◌∷◌, some, some-injective, length, take, get_elem?, All, ltb,
  leb, ◌==◌, arith, ok, >>=-eq_ok, ok_or-eq_ok, ok-injective, reject_if, ok_or, checked_add,
  checked_add-eq_some,
}
use networkcopy_speed.Resume.Sets.{set_contains}
use networkcopy_speed.Cdc.Catalog.Types.{CatalogCandidate, CatalogGeneration, CatalogPlan}
use networkcopy_speed.Transfer.Fresh.{
  FreshGenerationPlan, ends_before, partition_point, has_file, catalog_generation_index_for_file_id,
  count_completed, has_no_files, count_prefix, check_completed, apply_fresh_resume_prefix,
}

-- Every file of the generation is complete.
abbrev pub Complete : List ℕ → CatalogGeneration → Type 0
Complete completed g = All (λ c. set_contains ltb c.file_id completed ≡ true) g.transfer_files

-- One of the generations has the file.
abbrev pub some_has_file : List CatalogGeneration → ℕ → Bool
some_has_file [] file_id = false
some_has_file (g ∷ gs) file_id = has_file file_id g.transfer_files || some_has_file gs file_id

count_completed-le :
    (completed : List ℕ) (cs : List CatalogCandidate) → count_completed completed cs ≤ length cs
count_completed-le completed [] = omega arith
count_completed-le completed (c ∷ cs) = elim (Bool-cases (set_contains ltb c.file_id completed)) [
  | inl e ↦ rw (count_completed, e) (omega (arith, count_completed-le completed cs))
  | inr e ↦ rw (count_completed, e) (omega (arith, count_completed-le completed cs))
]

count_completed-all :
    (completed : List ℕ) (cs : List CatalogCandidate)
    → count_completed completed cs ≡ length cs
    → All (λ c. set_contains ltb c.file_id completed ≡ true) cs
count_completed-all completed [] h = tt
count_completed-all completed (c ∷ cs) h =
    elim (Bool-cases (set_contains ltb c.file_id completed)) [
      | inl e ↦ (
        e,
        count_completed-all completed cs
            (let h' = (rw (count_completed, e) at h) in omega (arith, h')),
      )
      | inr e ↦
          (let h' = (rw (count_completed, e) at h) in
            absurd (omega (arith, h', count_completed-le completed cs)))
    ]

-- The generations that the loop counts are complete.
count_prefix-Complete :
    (completed : List ℕ) (count : ℕ) (gs : List CatalogGeneration) {count' : ℕ}
    → count_prefix completed count gs ≡ ok count'
    → (n : ℕ) × (count' ≡ count + n) × (n ≤ length gs) × All (Complete completed) (take n gs)
unfolding count_prefix
count_prefix-Complete completed count [] e = (0, omega (arith, ok-injective e), omega arith, tt)
count_prefix-Complete completed count (g ∷ gs) e =
    let (_, _, e₁) = >>=-eq_ok (reject_if (has_no_files g.transfer_files) _) _ e in
    elim (Bool-cases (count_completed completed g.transfer_files == length g.transfer_files)) [
      | inl z ↦
          let (next, c, e₂) = >>=-eq_ok (ok_or (checked_add count 1) _) _ (rw z at e₁) in
          let (next_is, _) = checked_add-eq_some count 1 (ok_or-eq_ok _ _ c) in
          let (n, is, room, all) = count_prefix-Complete completed next gs e₂ in
          let whole = count_completed-all completed g.transfer_files (ground arith) in
          (suc n, omega (arith, next_is, is), omega (arith, room), (whole, all))
      | inr z ↦
          let (_, _, e₂) =
            >>=-eq_ok (reject_if (not (count_completed completed g.transfer_files == 0)) _) _
              (rw z at e₁) in
          (0, omega (arith, ok-injective e₂), omega arith, tt)
    ]

or_right : (a : Bool) {b : Bool} → b ≡ true → (a || b) ≡ true
or_right true e = refl
or_right false e = e

-- A generation among the first ones, with the file.
some_has_file-get_elem? :
    (gs : List CatalogGeneration) (file_id i n : ℕ) {g : CatalogGeneration}
    → get_elem? gs i ≡ some g
    → i < n
    → has_file file_id g.transfer_files ≡ true
    → some_has_file (take n gs) file_id ≡ true
some_has_file-get_elem? [] file_id i n e h has = cc
some_has_file-get_elem? (x ∷ gs) file_id i zero e h has = absurd (omega (arith, h))
some_has_file-get_elem? (x ∷ gs) file_id zero (suc n) e h has =
    let here : has_file file_id x.transfer_files ≡ true =
      subst (λ (y : CatalogGeneration). has_file file_id y.transfer_files ≡ true)
        (sym (some-injective e)) has in
    rw here refl
some_has_file-get_elem? (x ∷ gs) file_id (suc i) (suc n) e h has =
    or_right (has_file file_id x.transfer_files)
      (some_has_file-get_elem? gs file_id i n e (omega (arith, h)) has)

found :
    (catalog : CatalogPlan) (file_id index count : ℕ)
    → catalog_generation_index_for_file_id catalog file_id ≡ some index
    → index < count
    → some_has_file (take count catalog.generations) file_id ≡ true
unfolding catalog_generation_index_for_file_id
found catalog file_id index count e below =
    let at =
      partition_point (λ (g : CatalogGeneration). ends_before file_id g.transfer_files)
        catalog.generations in
    elim (Option-cases (get_elem? catalog.generations at)) [
      | inl none_there ↦
          (let bad = (rw (catalog_generation_index_for_file_id, none_there) at e) in cc)
      | inr (g, there) ↦ elim (Bool-cases (has_file file_id g.transfer_files)) [
        | inl has ↦
            let same : at ≡ index =
              some-injective (rw (catalog_generation_index_for_file_id, there, has) at e) in
            some_has_file-get_elem? catalog.generations file_id at count there
              (omega (arith, same, below)) has
        | inr has ↦ (let bad = (rw (catalog_generation_index_for_file_id, there, has) at e) in cc)
      ]
    ]

check_completed-some_has_file :
    (catalog : CatalogPlan) (count : ℕ) (ids : List ℕ)
    → check_completed catalog count ids ≡ ok tt
    → All (λ file_id. some_has_file (take count catalog.generations) file_id ≡ true) ids
unfolding check_completed catalog_generation_index_for_file_id
check_completed-some_has_file catalog count [] e = tt
check_completed-some_has_file catalog count (file_id ∷ ids) e =
    let (index, i, e₁) =
      >>=-eq_ok (ok_or (catalog_generation_index_for_file_id catalog file_id) _) _ e in
    let (_, b, e₂) = >>=-eq_ok (reject_if (leb count index) _) _ e₁ in
    let below : index < count = (ground arith) in
    (
      found catalog file_id index count (ok_or-eq_ok _ _ i) below,
      check_completed-some_has_file catalog count ids e₂,
    )

-- Where a resumed prefix is applied, the counted generations are the first ones of the plan, each of their
-- files is completed, and each completed file is in one of them.
pub apply_fresh_resume_prefix-Complete :
    (plan : FreshGenerationPlan) (completed : List ℕ) (plan' : FreshGenerationPlan)
    → apply_fresh_resume_prefix plan completed ≡ ok plan'
    → (plan'.completed_generation_count ≤ length plan.catalog.generations)
      × All (Complete completed) (take plan'.completed_generation_count plan.catalog.generations)
      × All
          (λ file_id.
            some_has_file (take plan'.completed_generation_count plan.catalog.generations) file_id
            ≡ true)
          completed
unfolding apply_fresh_resume_prefix
apply_fresh_resume_prefix-Complete plan completed plan' e =
    let (_, _, e₁) = >>=-eq_ok (reject_if (not (plan.completed_generation_count == 0)) _) _ e in
    let (count, c, e₂) = >>=-eq_ok (count_prefix completed 0 plan.catalog.generations) _ e₁ in
    let (_, d, e₃) = >>=-eq_ok (check_completed plan.catalog count completed) _ e₂ in
    let same : count ≡ plan'.completed_generation_count =
      ap (λ p. p.completed_generation_count) (ok-injective e₃) in
    let (n, is, room, all) = count_prefix-Complete completed 0 plan.catalog.generations c in
    let n_is : n ≡ plan'.completed_generation_count = (omega (arith, is, same)) in
    (
      omega (arith, n_is, room),
      subst (λ k. All (Complete completed) (take k plan.catalog.generations)) n_is all,
      subst
          (λ k.
            All (λ file_id. some_has_file (take k plan.catalog.generations) file_id ≡ true)
              completed)
          same (check_completed-some_has_file plan.catalog count completed d),
    )
