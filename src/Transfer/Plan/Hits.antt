-- ===== src/Transfer/Plan/Hits.antt =====
-- multistream_copy.rs: which tasks carry a byte of a file, and what the loop over the stripes of a
-- large file adds.
use native.Mathlib.Nat.{mul-suc}
use networkcopy_speed.Common.{
  ℕ, zero, suc, ◌+◌, ◌-◌, ◌*◌, min, ◌<◌, ◌≡◌, refl, sym, ap, subst, ◌∙◌, Bool, true, false, ◌&&◌,
  Bool-cases, inl, inr, List, [], ◌∷◌, length, ltb, leb, ◌==◌, if◌then◌else◌, arith, ==-refl, ok,
  >>=-eq_ok, ok-injective,
}
use networkcopy_speed.Transfer.Stripes.{div_ceil, stripe_range}
use networkcopy_speed.Transfer.Stripes.Inversion.{stripe_range-eq_ok}
use networkcopy_speed.Transfer.Plan.{
  TransferTask, whole_file, tiny_pack, stripe, Lane, assign, assign_stripes,
}
use networkcopy_speed.Transfer.Plan.Measure.{lanes_sum, lanes_sum-assign}

-- 1 where the test holds.
abbrev pub count_if : Bool → ℕ
count_if true = 1
count_if false = 0

abbrev pub occurrences : ℕ → List ℕ → ℕ
occurrences f [] = 0
occurrences f (id ∷ ids) = count_if (id == f) + occurrences f ids

-- How often the task carries the byte of the file.
abbrev pub carries : ℕ → ℕ → TransferTask → ℕ
carries f byte (whole_file id) = count_if (id == f)
carries f byte (tiny_pack ids total_bytes) = occurrences f ids
carries f byte (stripe id offset length) =
    count_if (id == f && (leb offset byte && ltb byte (offset + length)))

-- 1 where the stripes from number `i` on carry the byte.
abbrev pub left_to_carry : ℕ → ℕ → ℕ → ℕ → ℕ
left_to_carry size count i byte = count_if (leb (div_ceil size count * i) byte)

carry_sum :
    (byte size s p q offset length : ℕ)
    → q ≡ p + s
    → offset ≡ min size p
    → length ≡ min (size - offset) s
    → byte < size
    → count_if (leb offset byte && ltb byte (offset + length)) + count_if (leb q byte)
      ≡ count_if (leb p byte)
carry_sum byte size s p q offset length a b c d = ground arith

carry_empty :
    (byte size s p q offset length : ℕ)
    → q ≡ p + s
    → offset ≡ min size p
    → length ≡ min (size - offset) s
    → byte < size
    → (length == 0) ≡ true
    → count_if (leb q byte) ≡ count_if (leb p byte)
carry_empty byte size s p q offset length a b c d e = ground arith

suc_is : (i : ℕ) → suc i ≡ i + 1
suc_is i = omega arith

-- The stripe and those behind it carry what was left.
stripe_step :
    (f byte size count i : ℕ) {offset length : ℕ}
    → stripe_range size i count ≡ ok (offset, length)
    → byte < size
    → carries f byte (stripe f offset length) + left_to_carry size count (i + 1) byte
      ≡ left_to_carry size count i byte
stripe_step f byte size count i {offset} {length} e inside =
    let (h, offset_is, length_is) = stripe_range-eq_ok size i count e in
    let s = div_ceil size count in
    let next : s * (i + 1) ≡ s * i + s = subst (λ k. s * k ≡ s * i + s) (suc_is i) (mul-suc s i) in
    rw (==-refl f)
      (carry_sum byte size s (s * i) (s * (i + 1)) offset length next offset_is length_is inside)

empty_stripe :
    (byte size count i : ℕ) {offset length : ℕ}
    → stripe_range size i count ≡ ok (offset, length)
    → byte < size
    → (length == 0) ≡ true
    → left_to_carry size count (i + 1) byte ≡ left_to_carry size count i byte
empty_stripe byte size count i {offset} {length} e inside z =
    let (h, offset_is, length_is) = stripe_range-eq_ok size i count e in
    let s = div_ceil size count in
    let next : s * (i + 1) ≡ s * i + s = subst (λ k. s * k ≡ s * i + s) (suc_is i) (mul-suc s i) in
    carry_empty byte size s (s * i) (s * (i + 1)) offset length next offset_is length_is inside z

-- The loop over a large file's stripes carries what was left of that file.
pub assign_stripes_same :
    (f byte size count left i : ℕ) (lanes : List Lane) {lanes' : List Lane}
    → byte < size
    → assign_stripes f size count left i lanes ≡ ok lanes'
    → lanes_sum (carries f byte) lanes' + left_to_carry size count (i + left) byte
      ≡ lanes_sum (carries f byte) lanes + left_to_carry size count i byte
unfolding assign_stripes
assign_stripes_same f byte size count zero i lanes {lanes'} inside e =
    let same = ap (lanes_sum (carries f byte)) (ok-injective e) in
    let stay : i + 0 ≡ i = (omega arith) in
    subst
      (λ k.
        lanes_sum (carries f byte) lanes' + left_to_carry size count k byte
        ≡ lanes_sum (carries f byte) lanes + left_to_carry size count i byte)
      (sym stay) (omega (arith, same))
assign_stripes_same f byte size count (suc left) i lanes {lanes'} inside e =
    let ((offset, length), r, e₁) = >>=-eq_ok (stripe_range size i count) _ e in
    let (mid, m, e₂) =
      >>=-eq_ok (if length == 0 then ok lanes else assign (stripe f offset length) length _ lanes) _
        e₁ in
    let far : i + 1 + left ≡ i + suc left = (omega arith) in
    let rest =
      subst
        (λ k.
          lanes_sum (carries f byte) lanes' + left_to_carry size count k byte
          ≡ lanes_sum (carries f byte) mid + left_to_carry size count (i + 1) byte)
        far (assign_stripes_same f byte size count left (i + 1) mid inside e₂) in
    elim (Bool-cases (length == 0)) [
      | inl z ↦
          let same = ap (lanes_sum (carries f byte)) (ok-injective (rw z at m)) in
          omega (arith, rest, same, empty_stripe byte size count i r inside z)
      | inr z ↦
          let one =
            lanes_sum-assign (carries f byte) (stripe f offset length) length _ lanes (rw z at m) in
          omega (arith, rest, one, stripe_step f byte size count i r inside)
    ]

-- The loop over another file's stripes carries nothing of the file.
pub assign_stripes_other :
    (f byte id size count left i : ℕ) (lanes : List Lane) {lanes' : List Lane}
    → (id == f) ≡ false
    → assign_stripes id size count left i lanes ≡ ok lanes'
    → lanes_sum (carries f byte) lanes' ≡ lanes_sum (carries f byte) lanes
unfolding assign_stripes
assign_stripes_other f byte id size count zero i lanes other e =
    ap (lanes_sum (carries f byte)) (sym (ok-injective e))
assign_stripes_other f byte id size count (suc left) i lanes other e =
    let ((offset, length), r, e₁) = >>=-eq_ok (stripe_range size i count) _ e in
    let (mid, m, e₂) =
      >>=-eq_ok (if length == 0 then ok lanes else assign (stripe id offset length) length _ lanes)
        _ e₁ in
    let rest = assign_stripes_other f byte id size count left (i + 1) mid other e₂ in
    elim (Bool-cases (length == 0)) [
      | inl z ↦ rest ∙ ap (lanes_sum (carries f byte)) (sym (ok-injective (rw z at m)))
      | inr z ↦
          let one =
            lanes_sum-assign (carries f byte) (stripe id offset length) length _ lanes
              (rw z at m) in
          let none_of : carries f byte (stripe id offset length) ≡ 0 = (rw other refl) in
          omega (arith, rest, one, none_of)
    ]
