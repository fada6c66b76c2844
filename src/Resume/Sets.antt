-- ===== src/Resume/Sets.antt =====
-- `BTreeSet` as the list of its elements in ascending order.
use networkcopy_speed.Common.{
  ◌≡◌, refl, inl, inr, Bool, true, false, not, ◌||◌, List, [], ◌∷◌, ◌++◌, All, All-mono, retain,
  length, suc, if◌then◌else◌, Bool-cases, arith, ap,
}

-- A strict order by its test.
pub record IsOrder {ℓ} {A : Type ℓ} (before : A → A → Bool) : Type ℓ where
  pub asymmetric : (x y : A) → before x y ≡ true → before y x ≡ false
  pub transitive : (x y z : A) → before x y ≡ true → before y z ≡ true → before x z ≡ true
  pub total : (x y : A) → before x y ≡ false → before y x ≡ false → x ≡ y

-- `BTreeSet::insert`, with whether the element is new.
unfoldable pub set_insert {ℓ} : {A : Type ℓ} → (A → A → Bool) → A → List A → List A × Bool
set_insert before x [] = (x ∷ [], true)
set_insert before x (y ∷ ys) =
    let rest = set_insert before x ys in
    if before x y
    then (x ∷ y ∷ ys, true)
    else if before y x
    then (y ∷ rest.0, rest.1)
    else (y ∷ ys, false)

-- `BTreeSet::contains`.
abbrev pub set_contains {ℓ} : {A : Type ℓ} → (A → A → Bool) → A → List A → Bool
set_contains before x [] = false
set_contains before x (y ∷ ys) = not (before x y || before y x) || set_contains before x ys

abbrev pub IsAscending {ℓ} : {A : Type ℓ} → (A → A → Bool) → List A → Type 0
IsAscending before [] = Unit {0}
IsAscending before (x ∷ xs) = All (λ y. before x y ≡ true) xs × IsAscending before xs

module _ {ℓ} {A : Type ℓ} (before : A → A → Bool) where
  pub set_insert-All {κ} :
      (P : A → Type κ) (x : A) (xs : List A) → P x → All P xs → All P (set_insert before x xs).0
  unfolding set_insert
  set_insert-All P x [] h hs = (h, tt)
  set_insert-All P x (y ∷ ys) h hs = elim (Bool-cases (before x y)) [
    | inl e ↦ rw e (h, hs)
    | inr e ↦ elim (Bool-cases (before y x)) [
      | inl f ↦ rw (e, f) (hs.0, set_insert-All P x ys h hs.1)
      | inr f ↦ rw (e, f) hs
    ]
  ]

  -- An insertion keeps the order.
  pub set_insert-IsAscending :
      IsOrder before
      → (x : A) (xs : List A) → IsAscending before xs
      → IsAscending before (set_insert before x xs).0
  unfolding set_insert
  set_insert-IsAscending o x [] h = (tt, tt)
  set_insert-IsAscending o x (y ∷ ys) h = elim (Bool-cases (before x y)) [
    | inl e ↦ rw e ((e, All-mono (λ z g. o.transitive x y z e g) ys h.0), h)
    | inr e ↦ elim (Bool-cases (before y x)) [
      | inl f ↦
          rw (e, f)
            (set_insert-All (λ z. before y z ≡ true) x ys f h.0, set_insert-IsAscending o x ys h.1)
      | inr f ↦ rw (e, f) h
    ]
  ]

  -- An insertion that answers false changes nothing.
  pub set_insert-false :
      (x : A) (xs : List A) → (set_insert before x xs).1 ≡ false → (set_insert before x xs).0 ≡ xs
  unfolding set_insert
  set_insert-false x [] h = cc
  set_insert-false x (y ∷ ys) h = elim (Bool-cases (before x y)) [
    | inl e ↦ ground arith
    | inr e ↦ elim (Bool-cases (before y x)) [
      | inl f ↦ rw (e, f) (ap (◌∷◌ y) (set_insert-false x ys (ground arith)))
      | inr f ↦ rw (e, f) refl
    ]
  ]

  pub length-set_insert :
      (x : A) (xs : List A)
      → (set_insert before x xs).1 ≡ true
      → length (set_insert before x xs).0 ≡ suc (length xs)
  unfolding set_insert
  length-set_insert x [] h = refl
  length-set_insert x (y ∷ ys) h = elim (Bool-cases (before x y)) [
    | inl e ↦ rw e refl
    | inr e ↦ elim (Bool-cases (before y x)) [
      | inl f ↦ rw (e, f) (ap suc (length-set_insert x ys (ground arith)))
      | inr f ↦ ground arith
    ]
  ]

  -- After an insertion the element is there.
  pub set_contains-set_insert :
      IsOrder before
      → (x : A) (xs : List A) → set_contains before x (set_insert before x xs).0 ≡ true
  unfolding set_insert
  set_contains-set_insert o x [] = elim (Bool-cases (before x x)) [
    | inl e ↦ ground (arith, o.asymmetric x x e)
    | inr e ↦ ground arith
  ]
  set_contains-set_insert o x (y ∷ ys) = elim (Bool-cases (before x y)) [
    | inl e ↦ elim (Bool-cases (before x x)) [
      | inl f ↦ ground (arith, o.asymmetric x x f)
      | inr f ↦ ground arith
    ]
    | inr e ↦ elim (Bool-cases (before y x)) [
      | inl f ↦ ground (arith, set_contains-set_insert o x ys)
      | inr f ↦ ground arith
    ]
  ]

  -- An element above all others is put behind them.
  pub set_insert-last :
      IsOrder before
      → (x : A) (xs : List A) → All (λ y. before y x ≡ true) xs
      → set_insert before x xs ≡ (xs ++ x ∷ [], true)
  unfolding set_insert
  set_insert-last o x [] h = refl
  set_insert-last o x (y ∷ ys) h = rw (o.asymmetric y x h.0, h.0, set_insert-last o x ys h.1) refl

  pub retain-All {κ} :
      (P : A → Type κ) (t : A → Bool) (xs : List A) → All P xs → All P (retain t xs)
  retain-All P t [] h = tt
  retain-All P t (x ∷ xs) h = elim (Bool-cases (t x)) [
    | inl e ↦ rw (e, retain) (h.0, retain-All P t xs h.1)
    | inr e ↦ rw (e, retain) (retain-All P t xs h.1)
  ]

  pub retain-IsAscending :
      (t : A → Bool) (xs : List A) → IsAscending before xs → IsAscending before (retain t xs)
  retain-IsAscending t [] h = tt
  retain-IsAscending t (x ∷ xs) h = elim (Bool-cases (t x)) [
    | inl e ↦ rw (e, retain) (retain-All _ t xs h.0, retain-IsAscending t xs h.1)
    | inr e ↦ rw (e, retain) (retain-IsAscending t xs h.1)
  ]
