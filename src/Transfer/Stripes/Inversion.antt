-- ===== src/Transfer/Stripes/Inversion.antt =====
-- striped_file.rs: what a stripe that is computed is, with no bound on the number of streams.
use networkcopy_speed.Common.{
  ℕ, ◌-◌, ◌*◌, min, ◌≤◌, ◌<◌, ◌≡◌, Bool-cases, inl, inr, false, leb, ◌==◌, ◌||◌, ok, arith, ap,
  reject_if, ok_or, ok-injective, >>=-eq_ok, lt→ltb, u64_mod, refl,
}
use networkcopy_speed.Transfer.Stripes.{div_ceil, stripe_range, checked_mul}

pub stripe_range-eq_ok :
    (l i n : ℕ) {offset length : ℕ}
    → stripe_range l i n ≡ ok (offset, length)
    → (i < n) × (offset ≡ min l (div_ceil l n * i)) × (length ≡ min (l - offset) (div_ceil l n))
unfolding stripe_range
stripe_range-eq_ok l i n {offset} {length} e =
    let (_, r, e₁) = >>=-eq_ok (reject_if (n == 0 || leb n i) _) _ e in
    let h : i < n = (ground arith) in
    elim (Bool-cases (l == 0)) [
      | inl z ↦
          let empty : l ≡ 0 = (ground arith) in
          let pairs = ok-injective (rw z at e₁) in
          (h, omega (arith, empty, ap (λ p. p.0) pairs), omega (arith, empty, ap (λ p. p.1) pairs))
      | inr z ↦
          let (off, m, e₂) = >>=-eq_ok (ok_or (checked_mul (div_ceil l n) i) _) _ (rw z at e₁) in
          let product : off ≡ div_ceil l n * i = (ground arith) in
          elim (Bool-cases (leb l off)) [
            | inl far ↦
                let past : l ≤ off = (ground arith) in
                let pairs = ok-injective (rw far at e₂) in
                (
                  h,
                  omega (arith, past, product, ap (λ p. p.0) pairs),
                  omega (arith, ap (λ p. p.0) pairs, ap (λ p. p.1) pairs),
                )
            | inr near ↦
                let inside : off < l = (ground arith) in
                let pairs = ok-injective (rw near at e₂) in
                (
                  h,
                  omega (arith, inside, product, ap (λ p. p.0) pairs),
                  omega (arith, ap (λ p. p.0) pairs, ap (λ p. p.1) pairs),
                )
          ]
    ]

-- A stripe is computed where the product of the stripes' size and the number of streams has 64 bits.
pub stripe_range_total :
    (l i n : ℕ)
    → i < n
    → div_ceil l n * i < u64_mod
    → (offset length : ℕ) × (stripe_range l i n ≡ ok (offset, length))
unfolding stripe_range
stripe_range_total l i n h room =
    let served : (n == 0 || leb n i) ≡ false = (ground arith) in
    let fits = lt→ltb (div_ceil l n * i) u64_mod room in
    elim (Bool-cases (l == 0)) [
      | inl z ↦ (0, 0, rw (served, z) refl)
      | inr z ↦ elim (Bool-cases (leb l (div_ceil l n * i))) [
        | inl far ↦ (l, 0, rw (served, z) (rw fits (rw far refl)))
        | inr near ↦ (
          div_ceil l n * i,
          min (l - div_ceil l n * i) (div_ceil l n),
          rw (served, z) (rw fits (rw near refl)),
        )
      ]
    ]
