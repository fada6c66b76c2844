-- ===== src/Transfer/Offer/Sets.antt =====
-- What membership of a set by its ascending list says of its elements.
use networkcopy_speed.Common.{
  ◌≡◌, refl, sym, subst, inl, inr, ◌⊎◌, Bool, true, false, ◌||◌, List, [], ◌∷◌, All, All-mono,
  Bool-cases, arith,
}
use networkcopy_speed.Resume.Sets.{IsOrder, set_insert, set_contains, set_insert-All}
use networkcopy_speed.Transfer.Offer.{within}

module _ {ℓ} {A : Type ℓ} (before : A → A → Bool) (o : IsOrder before) where
  -- What holds of all elements holds of an element that is found.
  pub set_contains-All {κ} :
      (P : A → Type κ) (x : A) (ys : List A) → All P ys → set_contains before x ys ≡ true → P x
  set_contains-All P x [] all e = cc
  set_contains-All P x (y ∷ ys) all e = elim (Bool-cases (before x y || before y x)) [
    | inl z ↦ set_contains-All P x ys all.1 (rw z at e)
    | inr z ↦
        let left : before x y ≡ false = (ground arith) in
        let right : before y x ≡ false = (ground arith) in
        subst P (sym (o.total x y left right)) all.0
  ]

  set_contains_self : (x : A) (ys : List A) → set_contains before x (x ∷ ys) ≡ true
  set_contains_self x ys = elim (Bool-cases (before x x)) [
    | inl e ↦ (let f = o.asymmetric x x e in absurd (ground arith))
    | inr e ↦ rw e refl
  ]

  set_contains_more :
      (x y : A) (ys : List A)
      → set_contains before x ys ≡ true
      → set_contains before x (y ∷ ys) ≡ true
  set_contains_more x y ys e = ground arith

  set_contains_all : (ys : List A) → All (λ y. set_contains before y ys ≡ true) ys
  set_contains_all [] = tt
  set_contains_all (y ∷ ys) = (
    set_contains_self y ys,
    All-mono (λ z h. set_contains_more z y ys h) ys (set_contains_all ys),
  )

  -- An element of a set behind an insertion is the new one or was there.
  pub set_insert-or :
      (x y : A) (ys : List A)
      → set_contains before x (set_insert before y ys).0 ≡ true
      → (x ≡ y) ⊎ (set_contains before x ys ≡ true)
  set_insert-or x y ys =
      set_contains-All (λ z. (z ≡ y) ⊎ (set_contains before z ys ≡ true)) x
        (set_insert before y ys).0
        (set_insert-All before (λ z. (z ≡ y) ⊎ (set_contains before z ys ≡ true)) y ys (inl refl)
          (All-mono (λ z h. inr h) ys (set_contains_all ys)))

  within-All :
      (a b : List A) → within before a b ≡ true → All (λ x. set_contains before x b ≡ true) a
  within-All [] b e = tt
  within-All (x ∷ a) b e = (ground arith, within-All a b (ground arith))

  -- An element of a set within another is in the other.
  pub within-set_contains :
      (x : A) (a b : List A)
      → within before a b ≡ true
      → set_contains before x a ≡ true
      → set_contains before x b ≡ true
  within-set_contains x a b w =
      set_contains-All (λ z. set_contains before z b ≡ true) x a (within-All a b w)
