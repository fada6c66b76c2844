-- ===== src/Wire/Slices.antt =====
-- A buffer taken apart into its fields by indices.
use networkcopy_speed.Common.{
  ℕ, zero, suc, ◌+◌, ◌-◌, ◌^◌, ◌≤◌, ◌<◌, ◌≡◌, refl, sym, ap, ◌∙◌, List, [], ◌∷◌, ◌++◌, none, some,
  arith, length, take, drop, get_elem?, All, take-append-drop, length-take,
}
use networkcopy_speed.Wire.Bytes.{
  IsByte, le_bytes, from_le_bytes, slice, le_bytes-from_le_bytes, from_le_bytes-lt,
}

-- `bytes[i]`, in range.
abbrev pub byte_at : ℕ → List ℕ → ℕ
byte_at i bytes = elim (get_elem? bytes i) [ none ↦ 0 | some b ↦ b ]

module _ {ℓ} {A : Type ℓ} where
  drop-nil : (n : ℕ) → drop {A = A} n [] ≡ []
  drop-nil zero = refl
  drop-nil (suc n) = refl

  drop-drop : (n m : ℕ) (xs : List A) → drop m (drop n xs) ≡ drop (n + m) xs
  drop-drop zero m xs = ap (λ (k : ℕ). drop k xs) (omega arith)
  drop-drop (suc n) m [] = drop-nil m ∙ sym (drop-nil (suc n + m))
  drop-drop (suc n) m (x ∷ xs) =
      let e : suc n + m ≡ suc (n + m) = (omega arith) in rw e (drop-drop n m xs)

-- From the field at `i` on: the field, and what follows it.
pub drop-slice : (i n : ℕ) (xs : List ℕ) → drop i xs ≡ slice i n xs ++ drop (i + n) xs
drop-slice i n xs =
    sym (take-append-drop n (drop i xs)) ∙ ap (◌++◌ (slice i n xs)) (drop-drop i n xs)

pub drop-byte_at :
    (i : ℕ) (xs : List ℕ) → i < length xs → drop i xs ≡ byte_at i xs ∷ drop (suc i) xs
drop-byte_at i [] h = absurd (omega arith)
drop-byte_at zero (x ∷ xs) h = refl
drop-byte_at (suc i) (x ∷ xs) h = drop-byte_at i xs (omega arith)

pub drop_all : (n : ℕ) (xs : List ℕ) → length xs ≡ n → drop n xs ≡ []
drop_all n [] e = drop-nil n
drop_all zero (x ∷ xs) e = absurd (omega arith)
drop_all (suc n) (x ∷ xs) e = drop_all n xs (omega arith)

All-drop {κ} : (P : ℕ → Type κ) (n : ℕ) (xs : List ℕ) → All P xs → All P (drop n xs)
All-drop P zero xs h = h
All-drop P (suc n) [] h = h
All-drop P (suc n) (x ∷ xs) h = All-drop P n xs h.1

All-take {κ} : (P : ℕ → Type κ) (n : ℕ) (xs : List ℕ) → All P xs → All P (take n xs)
All-take P zero xs h = tt
All-take P (suc n) [] h = tt
All-take P (suc n) (x ∷ xs) h = (h.0, All-take P n xs h.1)

length-drop : (n : ℕ) (xs : List ℕ) → length (drop n xs) + n ≡ length xs + (n - length xs)
length-drop zero xs = omega arith
length-drop (suc n) [] = omega arith
length-drop (suc n) (x ∷ xs) = omega (arith, length-drop n xs)

-- A little-endian field of a buffer of bytes, written again.
pub le_bytes-slice :
    (i n : ℕ) (xs : List ℕ)
    → i + n ≤ length xs
    → All IsByte xs
    → le_bytes n (from_le_bytes (slice i n xs)) ≡ slice i n xs
le_bytes-slice i n xs room h =
    let len : length (slice i n xs) ≡ n =
      length-take n (drop i xs) (omega (arith, length-drop i xs)) in
    rw len at (le_bytes-from_le_bytes (slice i n xs) (All-take IsByte n _ (All-drop IsByte i xs h)))

pub slice-lt :
    (i n : ℕ) (xs : List ℕ)
    → i + n ≤ length xs
    → All IsByte xs
    → from_le_bytes (slice i n xs) < 256 ^ n
slice-lt i n xs room h =
    let len : length (slice i n xs) ≡ n =
      length-take n (drop i xs) (omega (arith, length-drop i xs)) in
    rw len at (from_le_bytes-lt (slice i n xs) (All-take IsByte n _ (All-drop IsByte i xs h)))
