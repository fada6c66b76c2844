-- ===== src/Manager/Queue/Positions.antt =====
-- The position of an entry that is searched for, and two neighbours of a list that trade places.
use mathlib.Core.List.{Perm}
use mathlib.Core.List.Perm
use networkcopy_speed.Common.{
  ℕ, zero, suc, ◌<◌, ◌≡◌, ◌≢◌, refl, Bool, true, List, [], ◌∷◌, some, arith, length, get_elem?,
  position, swap_next,
}

module _ {ℓ} {A : Type ℓ} where
  pub position-get_elem? :
      (t : A → Bool) (xs : List A) (i : ℕ)
      → position t xs ≡ some i
      → (x : A) × (get_elem? xs i ≡ some x) × (t x ≡ true)
  position-get_elem? t [] i e = cc
  position-get_elem? t (x ∷ xs) zero e = (x, refl, ground arith)
  position-get_elem? t (x ∷ xs) (suc i) e = position-get_elem? t xs i (ground arith)

  pub get_elem?-lt : (xs : List A) (i : ℕ) {x : A} → get_elem? xs i ≡ some x → i < length xs
  get_elem?-lt [] i e = cc
  get_elem?-lt (y ∷ xs) zero e = omega arith
  get_elem?-lt (y ∷ xs) (suc i) e = omega (arith, get_elem?-lt xs i e)

  pub lt-get_elem? : (xs : List A) (i : ℕ) → i < length xs → (x : A) × (get_elem? xs i ≡ some x)
  lt-get_elem? [] i h = elim h [ ]
  lt-get_elem? (x ∷ xs) zero h = (x, refl)
  lt-get_elem? (x ∷ xs) (suc i) h = lt-get_elem? xs i (omega arith)

  pub swap_next-perm : (xs : List A) (i : ℕ) → Perm (swap_next xs i) xs
  unfolding swap_next
  swap_next-perm [] i = Perm.refl []
  swap_next-perm (x ∷ []) i = Perm.refl _
  swap_next-perm (x ∷ y ∷ xs) zero = Perm.swap _ _ _
  swap_next-perm (x ∷ y ∷ xs) (suc i) = Perm.cons x (swap_next-perm (y ∷ xs) i)

  -- The two elements trade places.
  pub get_elem?-swap_next :
      (xs : List A) (i : ℕ)
      → suc i < length xs
      → (get_elem? (swap_next xs i) i ≡ get_elem? xs (suc i))
        × (get_elem? (swap_next xs i) (suc i) ≡ get_elem? xs i)
  unfolding swap_next
  get_elem?-swap_next [] i h = elim h [ ]
  get_elem?-swap_next (x ∷ []) i h = absurd (omega arith)
  get_elem?-swap_next (x ∷ y ∷ xs) zero h = (refl, refl)
  get_elem?-swap_next (x ∷ y ∷ xs) (suc i) h = get_elem?-swap_next (y ∷ xs) i (omega arith)

  -- Every other element stays where it is.
  pub get_elem?-swap_next_ne :
      (xs : List A) (i j : ℕ) → j ≢ i → j ≢ suc i → get_elem? (swap_next xs i) j ≡ get_elem? xs j
  unfolding swap_next
  get_elem?-swap_next_ne [] i j h k = refl
  get_elem?-swap_next_ne (x ∷ []) i j h k = refl
  get_elem?-swap_next_ne (x ∷ y ∷ xs) zero zero h k = absurd (h refl)
  get_elem?-swap_next_ne (x ∷ y ∷ xs) zero (suc zero) h k = absurd (k refl)
  get_elem?-swap_next_ne (x ∷ y ∷ xs) zero (suc (suc j)) h k = refl
  get_elem?-swap_next_ne (x ∷ y ∷ xs) (suc i) zero h k = refl
  get_elem?-swap_next_ne (x ∷ y ∷ xs) (suc i) (suc j) h k =
      get_elem?-swap_next_ne (y ∷ xs) i j (omega arith) (omega arith)
