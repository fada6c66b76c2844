-- ===== src/Cdc/Catalog/Sorting.antt =====
-- session_cdc_catalog.rs: how `plan` sorts its candidates, and which it accepts.
use mathlib.Core.List.{Perm}
use mathlib.Core.List.Perm
use networkcopy_speed.Common.{
  ℕ, ◌+◌, ◌≤◌, ◌<◌, ◌≡◌, ◌≢◌, refl, inl, inr, List, [], ◌∷◌, Option, none, some, leb, IoError, ok,
  reject_if, ok_or, >>=-eq_ok, checked_add, arith, All, u64_mod, Bool-cases, length, ◌==◌,
}
use networkcopy_speed.Cdc.Catalog.Types.{CatalogCandidate, estimated_entries, sum_from}
use networkcopy_speed.Cdc.Catalog.Entries.{check_order}
use networkcopy_speed.Cdc.Catalog.Bounds.{Fits}
use networkcopy_speed.Cdc.Catalog.Agreement.{bytes_of, Above, Ascends}
use networkcopy_speed.Cdc.Catalog.Planner.{insert_by_id, sort_by_id, validate_from, invalid_input}

-- Candidates that can be planned: none is empty, and the entries of each can be computed.
abbrev pub Usable : CatalogCandidate → Type 0
Usable c = (c.logical_bytes ≢ 0) × Fits c

-- No two files have the same id.
abbrev pub Distinct : List CatalogCandidate → Type 0
Distinct [] = Unit {0}
Distinct (c ∷ cs) = All (λ d. d.file_id ≢ c.file_id) cs × Distinct cs

insert_by_id-Perm :
    (c : CatalogCandidate) (ds : List CatalogCandidate) → Perm (insert_by_id c ds) (c ∷ ds)
unfolding insert_by_id
insert_by_id-Perm c [] = Perm.refl (c ∷ [])
insert_by_id-Perm c (d ∷ ds) = elim (Bool-cases (leb c.file_id d.file_id)) [
  | inl e ↦ rw e (Perm.refl (c ∷ d ∷ ds))
  | inr e ↦ rw e (Perm.trans (Perm.cons d (insert_by_id-Perm c ds)) (Perm.swap c d ds))
]

-- Sorting reorders the candidates.
pub sort_by_id-Perm : (cs : List CatalogCandidate) → Perm (sort_by_id cs) cs
unfolding sort_by_id
sort_by_id-Perm [] = Perm.refl []
sort_by_id-Perm (c ∷ cs) =
    Perm.trans (insert_by_id-Perm c (sort_by_id cs)) (Perm.cons c (sort_by_id-Perm cs))

insert_by_id-All :
    (P : CatalogCandidate → Type 0) (c : CatalogCandidate) (ds : List CatalogCandidate)
    → P c
    → All P ds
    → All P (insert_by_id c ds)
unfolding insert_by_id
insert_by_id-All P c [] h hs = (h, tt)
insert_by_id-All P c (d ∷ ds) h hs = elim (Bool-cases (leb c.file_id d.file_id)) [
  | inl e ↦ rw e (h, hs)
  | inr e ↦ rw e (hs.0, insert_by_id-All P c ds h hs.1)
]

pub sort_by_id-All :
    (P : CatalogCandidate → Type 0) (cs : List CatalogCandidate) → All P cs → All P (sort_by_id cs)
unfolding sort_by_id
sort_by_id-All P [] hs = tt
sort_by_id-All P (c ∷ cs) hs = insert_by_id-All P c (sort_by_id cs) hs.0 (sort_by_id-All P cs hs.1)

insert_by_id-bytes_of :
    (c : CatalogCandidate) (ds : List CatalogCandidate)
    → bytes_of (insert_by_id c ds) ≡ c.logical_bytes + bytes_of ds
unfolding insert_by_id
insert_by_id-bytes_of c [] = refl
insert_by_id-bytes_of c (d ∷ ds) = elim (Bool-cases (leb c.file_id d.file_id)) [
  | inl e ↦ rw e refl
  | inr e ↦ rw e (omega (arith, insert_by_id-bytes_of c ds))
]

pub sort_by_id-bytes_of : (cs : List CatalogCandidate) → bytes_of (sort_by_id cs) ≡ bytes_of cs
unfolding sort_by_id
sort_by_id-bytes_of [] = refl
sort_by_id-bytes_of (c ∷ cs) =
    omega (arith, insert_by_id-bytes_of c (sort_by_id cs), sort_by_id-bytes_of cs)

insert_by_id-Ascends :
    (previous : Option ℕ) (c : CatalogCandidate) (ds : List CatalogCandidate)
    → Above previous c.file_id
    → All (λ d. d.file_id ≢ c.file_id) ds
    → Ascends previous ds
    → Ascends previous (insert_by_id c ds)
unfolding insert_by_id
insert_by_id-Ascends previous c [] a f s = (a, tt)
insert_by_id-Ascends previous c (d ∷ ds) a f s = elim (Bool-cases (leb c.file_id d.file_id)) [
  | inl e ↦ rw e (a, ((ground arith), s.1))
  | inr e ↦ rw e (s.0, insert_by_id-Ascends (some d.file_id) c ds (ground arith) f.1 s.1)
]

-- Candidates with distinct ids ascend strictly once they are sorted.
pub sort_by_id-Ascends : (cs : List CatalogCandidate) → Distinct cs → Ascends none (sort_by_id cs)
unfolding sort_by_id
sort_by_id-Ascends [] h = tt
sort_by_id-Ascends (c ∷ cs) h =
    insert_by_id-Ascends none c (sort_by_id cs) tt (sort_by_id-All _ cs h.0)
      (sort_by_id-Ascends cs h.1)

-- There are no more files than bytes.
pub length-bytes_of : (cs : List CatalogCandidate) → All Usable cs → length cs ≤ bytes_of cs
length-bytes_of [] h = omega arith
length-bytes_of (c ∷ cs) h = omega (arith, length-bytes_of cs h.1, h.0.0)

pub validate_from_complete :
    (previous : Option ℕ) (cs : List CatalogCandidate)
    → Ascends previous cs
    → All Usable cs
    → validate_from previous cs ≡ ok tt
unfolding validate_from estimated_entries
validate_from_complete previous [] a h = refl
validate_from_complete none (c ∷ cs) a h =
    ground (arith, validate_from_complete (some c.file_id) cs a.1 h.1, h.0.0, h.0.1)
validate_from_complete (some p) (c ∷ cs) a h =
    ground (arith, validate_from_complete (some c.file_id) cs a.1 h.1, h.0.0, h.0.1, a.0)

estimated_entries-eq_ok : (c : CatalogCandidate) {n : ℕ} → estimated_entries c ≡ ok n → Fits c
unfolding estimated_entries
estimated_entries-eq_ok c e = ground arith

pub check_order-eq_ok :
    (duplicate unsorted : IoError) (previous : Option ℕ) (id : ℕ)
    → check_order duplicate unsorted previous id ≡ ok tt
    → Above previous id
check_order-eq_ok duplicate unsorted none id e = tt
check_order-eq_ok duplicate unsorted (some p) id e = ground arith

pub validate_from_sound :
    (previous : Option ℕ) (cs : List CatalogCandidate)
    → validate_from previous cs ≡ ok tt
    → Ascends previous cs × All Usable cs
unfolding validate_from
validate_from_sound previous [] e = (tt, tt)
validate_from_sound previous (c ∷ cs) e =
    let (_, some_bytes, e') =
      >>=-eq_ok
        (reject_if (c.logical_bytes == 0) (invalid_input "session CDC candidate must not be empty"))
        _ e in
    let (_, ordered, e'') = >>=-eq_ok (check_order _ _ previous c.file_id) _ e' in
    let (_, estimate, e''') = >>=-eq_ok (estimated_entries c) _ e'' in
    let (ascends, usable) = validate_from_sound (some c.file_id) cs e''' in
    (
      (check_order-eq_ok _ _ previous c.file_id ordered, ascends),
      (((ground arith), estimated_entries-eq_ok c estimate), usable),
    )

pub sum_from-eq_ok :
    (total : ℕ) (cs : List CatalogCandidate) {n : ℕ}
    → total < u64_mod
    → sum_from total cs ≡ ok n
    → (total + bytes_of cs < u64_mod) × (n ≡ total + bytes_of cs)
unfolding sum_from
sum_from-eq_ok total [] h e = (omega arith, ground arith)
sum_from-eq_ok total (c ∷ cs) h e =
    let (sum, s, e') = >>=-eq_ok (ok_or (checked_add total c.logical_bytes) _) _ e in
    let small : total + c.logical_bytes < u64_mod = (ground arith) in
    let (bound, eq) = sum_from-eq_ok sum cs (ground arith) e' in
    let here : sum ≡ total + c.logical_bytes = (ground arith) in
    (omega (arith, bound, here), omega (arith, eq, here))
