-- ===== src/Manager/Queue/Removal.antt =====
-- What remove and clear_completed of TransferQueue take away.
use mathlib.Core.List.{Perm, Sublist, Sublistᴰ, perm_middle}
use mathlib.Core.List.Perm
use networkcopy_speed.Common.{
  ℕ, zero, suc, ◌+◌, ◌≡◌, ◌≢◌, refl, sym, subst, ◌⊎◌, inl, inr, Bool, true, false, not, ◌||◌, List,
  [], ◌∷◌, ◌++◌, Option, none, some, arith, length, All, All-mono, find, retain, get_elem?,
  position, remove_at, Option-cases, Bool-cases,
}
use networkcopy_speed.Manager.Queue.Request.{QueuedTransfer, is_running, is_completed}
use networkcopy_speed.Manager.Queue.Items.{DistinctIds}
use networkcopy_speed.Manager.Queue.Invariant.{IsValid}
use networkcopy_speed.Manager.Queue.Reorder.{PinnedAt, is_bound-PinnedAt, is_running_at-PinnedAt}
use networkcopy_speed.Manager.Queue.{
  TransferQueue, has_id, is_bound, is_running_at, remove, clear_completed,
}

find_other :
    (id : ℕ) (xs : List QueuedTransfer)
    → All (λ (y : QueuedTransfer). y.id ≢ id) xs
    → find (has_id id) xs ≡ none
find_other id [] h = refl
find_other id (x ∷ xs) h = ground (arith, find_other id xs h.1)

-- Taking away the entry at the position of an id: which it is, and that no other has the id.
removed_entry :
    (id : ℕ) (xs : List QueuedTransfer) (i : ℕ)
    → DistinctIds xs
    → position (has_id id) xs ≡ some i
    → (x : QueuedTransfer) × (get_elem? xs i ≡ some x)
      × (x.id ≡ id)
      × Perm (x ∷ remove_at xs i) xs
      × (find (has_id id) (remove_at xs i) ≡ none)
unfolding remove_at
removed_entry id [] i d e = cc
removed_entry id (x ∷ xs) zero d e =
    let named : x.id ≡ id = (ground arith) in
    (
      x,
      refl,
      named,
      Perm.refl _,
      find_other id xs (subst (λ k. All (λ (y : QueuedTransfer). y.id ≢ k) xs) named d.0),
    )
removed_entry id (x ∷ xs) (suc i) d e =
    let (y, ey, named, p, gone) = removed_entry id xs i d.1 (ground arith) in
    (y, ey, named, Perm.trans (Perm.swap _ _ _) (Perm.cons x p), ground arith)

-- What `remove` does when it takes an entry `x` away.
abbrev pub Removes :
    TransferQueue → ℕ → TransferQueue × Option QueuedTransfer → QueuedTransfer → Type 0
Removes q id result x =
    (result.1 ≡ some x)
    × (x.id ≡ id)
    × (is_running x.state ≡ false)
    × (is_bound q id ≡ false)
    × Perm (x ∷ result.0.items) q.items
    × (find (has_id id) result.0.items ≡ none)

removed-Removes :
    (q : TransferQueue) (id i : ℕ)
    → DistinctIds q.items
    → position (has_id id) q.items ≡ some i
    → (is_bound q id || is_running_at q i) ≡ false
    → (x : QueuedTransfer) × Removes q id
        (record q { items = remove_at q.items i }, get_elem? q.items i)
        x
unfolding is_running_at
removed-Removes q id i d e free =
    let (x, ex, named, p, gone) = removed_entry id q.items i d e in
    (x, (ex, named, ground arith, ground arith, p, gone))

refused_removal :
    (q : TransferQueue) (id i : ℕ)
    → position (has_id id) q.items ≡ some i
    → (is_bound q id || is_running_at q i) ≡ true
    → PinnedAt q i
refused_removal q id i p h = elim (Bool-cases (is_bound q id)) [
  | inl e ↦ is_bound-PinnedAt q id i p e
  | inr f₁ ↦ is_running_at-PinnedAt q i (ground arith)
]

-- `remove` has nothing to do: no entry has the id, or the entry is running or bound.
abbrev pub CannotLeave : TransferQueue → ℕ → Type 0
CannotLeave q id =
    (position (has_id id) q.items ≡ none)
    ⊎ ((i : ℕ) × (position (has_id id) q.items ≡ some i) × PinnedAt q i)

-- On a valid queue `remove` changes nothing and returns nothing only where no entry has the id or where
-- the entry with it is running or bound. Else it returns the entry with the id, which is neither
-- running nor bound; the others stay, and none of them has the id.
pub remove_lem :
    (q : TransferQueue) (id : ℕ)
    → IsValid q
    → (CannotLeave q id × (remove q id ≡ (q, none)))
      ⊎ ((x : QueuedTransfer) × Removes q id (remove q id) x)
unfolding remove
remove_lem q id v = elim (Option-cases (position (has_id id) q.items)) [
  | inl e ↦ inl (inl e, rw (e, remove))
  | inr (i, e) ↦ elim (Bool-cases (is_bound q id || is_running_at q i)) [
    | inl refused ↦ inl (inr (i, e, refused_removal q id i e refused), rw (e, remove) (rw refused))
    | inr free ↦
        let same : remove q id ≡ (record q { items = remove_at q.items i }, get_elem? q.items i) =
          rw (e, remove) (rw free) in
        inr (
          subst
            (λ (r : TransferQueue × Option QueuedTransfer). (x : QueuedTransfer) × Removes q id r x)
            (sym same) (removed-Removes q id i v.distinct e free))
  ]
]

module _ {ℓ} {A : Type ℓ} (t : A → Bool) where
  retain_holds : (xs : List A) → All (λ x. t x ≡ true) (retain t xs)
  retain_holds [] = tt
  retain_holds (x ∷ xs) = elim (Bool-cases (t x)) [
    | inl e ↦ rw (e, retain) (e, retain_holds xs)
    | inr e ↦ rw (e, retain) (retain_holds xs)
  ]

  retain_fails : (xs : List A) → All (λ x. t x ≡ false) (retain (λ x. not (t x)) xs)
  retain_fails [] = tt
  retain_fails (x ∷ xs) = elim (Bool-cases (t x)) [
    | inl e ↦ rw (e, retain) (retain_fails xs)
    | inr e ↦ rw (e, retain) (e, retain_fails xs)
  ]

  retain-perm : (xs : List A) → Perm (retain t xs ++ retain (λ x. not (t x)) xs) xs
  retain-perm [] = Perm.refl []
  retain-perm (x ∷ xs) = elim (Bool-cases (t x)) [
    | inl e ↦ rw (e, retain) (Perm.cons x (retain-perm xs))
    | inr e ↦ rw (e, retain) (Perm.trans (perm_middle _ _) (Perm.cons x (retain-perm xs)))
  ]

  retain-sublistᴰ : (xs : List A) → Sublistᴰ (retain t xs) xs
  retain-sublistᴰ [] = Sublistᴰ.slnil
  retain-sublistᴰ (x ∷ xs) = elim (Bool-cases (t x)) [
    | inl e ↦ rw (e, retain) (Sublistᴰ.cons-cons refl (retain-sublistᴰ xs))
    | inr e ↦ rw (e, retain) (Sublistᴰ.cons (retain-sublistᴰ xs))
  ]

  length-retain :
      (xs : List A) → length (retain t xs) + length (retain (λ x. not (t x)) xs) ≡ length xs
  length-retain [] = omega arith
  length-retain (x ∷ xs) = ground (arith, length-retain xs)

-- An entry that `clear_completed` takes: completed, and not bound.
abbrev pub IsCleared : TransferQueue → QueuedTransfer → Type 0
IsCleared q x = (is_completed x.state ≡ true) × (is_bound q x.id ≡ false)

-- `clear_completed` takes exactly the completed entries that are not bound, keeps the others in their
-- order, and returns how many it has taken.
pub clear_completed_lem :
    (q : TransferQueue)
    → (gone : List QueuedTransfer) × Perm ((clear_completed q).0.items ++ gone) q.items
      × Sublist (clear_completed q).0.items q.items
      × All (λ x. ¬ IsCleared q x) (clear_completed q).0.items
      × All (IsCleared q) gone
      × ((clear_completed q).1 ≡ length gone)
unfolding clear_completed
clear_completed_lem q =
    let keep = λ (x : QueuedTransfer). not (is_completed x.state) || is_bound q x.id in
    (
      retain (λ x. not (keep x)) q.items,
      retain-perm keep q.items,
      ∣ retain-sublistᴰ keep q.items ∣₁,
      All-mono (λ x h c. ground arith) (retain keep q.items) (retain_holds keep q.items),
      All-mono (λ x h. ground arith) (retain (λ x. not (keep x)) q.items)
          (retain_fails keep q.items),
      omega (arith, length-retain keep q.items),
    )
