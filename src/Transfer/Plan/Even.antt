-- ===== src/Transfer/Plan/Even.antt =====
-- multistream_copy.rs: lanes whose bytes differ by no more than a stripe, and the loop over stripes.
use native.Mathlib.Nat.{mul-le-mul_right}
use networkcopy_speed.Common.{
  ℕ, zero, suc, ◌+◌, ◌*◌, ◌≤◌, ◌≡◌, ◌≢◌, sym, subst, Bool-cases, inl, inr, List, ◌∷◌, ◌++◌, length,
  All, All-append, All-append-split, All-mono, leb, ◌==◌, if◌then◌else◌, arith, IoError, ok,
  >>=-eq_ok, ok-injective, reject_if,
}
use networkcopy_speed.Transfer.Stripes.{div_ceil, stripe_range}
use networkcopy_speed.Transfer.Stripes.Division.{div_ceil_lem}
use networkcopy_speed.Transfer.Stripes.Inversion.{stripe_range-eq_ok}
use networkcopy_speed.Transfer.Plan.{
  TransferTask, stripe, Lane, assign, assign_stripes, large_file_stripe_count,
  max_resume_stripe_bytes,
}
use networkcopy_speed.Transfer.Plan.Lanes.{assign-Assigned, with_task}

-- No two lanes differ by more than the largest stripe: all lie between `least` and that much above it.
pub record Even (lanes : List Lane) : Type 0 where
  pub least : ℕ
  pub above : All (λ l. least ≤ l.assigned_bytes) lanes
  pub below : All (λ l. l.assigned_bytes ≤ least + max_resume_stripe_bytes) lanes

All-replaced :
    (P : Lane → Type 0) (front back : List Lane) (l l' : Lane)
    → P l'
    → All P (front ++ l ∷ back)
    → All P (front ++ l' ∷ back)
All-replaced P front back l l' h all =
    let (f, b) = All-append-split P front (l ∷ back) all in
    All-append P front (l' ∷ back) f (h, b.1)

All-chosen :
    (P : Lane → Type 0) (front back : List Lane) (l : Lane) → All P (front ++ l ∷ back) → P l
All-chosen P front back l all = (All-append-split P front (l ∷ back) all).1.0

-- A task that is no larger than the largest stripe goes to a lightest lane.
pub assign-Even :
    (task : TransferTask) (bytes : ℕ) (overflowed : IoError) (lanes : List Lane)
    {lanes' : List Lane}
    → bytes ≤ max_resume_stripe_bytes
    → Even lanes
    → assign task bytes overflowed lanes ≡ ok lanes'
    → Even lanes'
assign-Even task bytes o lanes {lanes'} small even e =
    let a = assign-Assigned task bytes o lanes e in
    let low =
      All-chosen (λ l. even.least ≤ l.assigned_bytes) a.front a.back a.lane
        (subst (All (λ l. even.least ≤ l.assigned_bytes)) a.before even.above) in
    record {
      least = a.lane.assigned_bytes;
      above = subst (All (λ l. a.lane.assigned_bytes ≤ l.assigned_bytes)) (sym a.after) (
          All-replaced (λ l. a.lane.assigned_bytes ≤ l.assigned_bytes) a.front a.back a.lane
            (with_task a.lane task bytes) (omega arith)
            (subst (All (λ l. a.lane.assigned_bytes ≤ l.assigned_bytes)) a.before a.lightest));
      below =
          subst (All (λ l. l.assigned_bytes ≤ a.lane.assigned_bytes + max_resume_stripe_bytes))
            (sym a.after)
            (All-replaced (λ l. l.assigned_bytes ≤ a.lane.assigned_bytes + max_resume_stripe_bytes)
              a.front a.back a.lane (with_task a.lane task bytes) (omega (arith, small))
              (subst (All (λ l. l.assigned_bytes ≤ a.lane.assigned_bytes + max_resume_stripe_bytes))
                a.before (All-mono (λ l h. omega (arith, h, low)) lanes even.below)));
    }

-- A stripe is no larger than the largest.
stripe_small :
    (size n i : ℕ) {count offset length : ℕ}
    → large_file_stripe_count size n ≡ ok count
    → stripe_range size i count ≡ ok (offset, length)
    → length ≤ max_resume_stripe_bytes
unfolding large_file_stripe_count
stripe_small size n i {count} {offset} {length} c e =
    let (_, r, c') = >>=-eq_ok (reject_if (n == 0) _) _ c in
    let count_is = ok-injective c' in
    let (h, offset_is, length_is) = stripe_range-eq_ok size i count e in
    let some_count : count ≢ 0 = (omega (arith, count_is)) in
    let (_, near) = div_ceil_lem size count some_count in
    let (covered, _) = div_ceil_lem size max_resume_stripe_bytes (omega arith) in
    elim (Bool-cases (leb (div_ceil size count) max_resume_stripe_bytes)) [
      | inl z ↦
          let small : div_ceil size count ≤ max_resume_stripe_bytes = (ground arith) in
          omega (arith, length_is, small)
      | inr z ↦
          let big : max_resume_stripe_bytes + 1 ≤ div_ceil size count = (ground arith) in
          let product : (max_resume_stripe_bytes + 1) * count ≤ div_ceil size count * count =
            mul-le-mul_right count big in
          absurd (omega (arith, product, near, covered, count_is))
    ]

pub assign_stripes-Even :
    (id size n count left i : ℕ) (lanes : List Lane) {lanes' : List Lane}
    → large_file_stripe_count size n ≡ ok count
    → Even lanes
    → assign_stripes id size count left i lanes ≡ ok lanes'
    → Even lanes'
unfolding assign_stripes
assign_stripes-Even id size n count zero i lanes c even e = subst Even (ok-injective e) even
assign_stripes-Even id size n count (suc left) i lanes c even e =
    let ((offset, length), r, e₁) = >>=-eq_ok (stripe_range size i count) _ e in
    let (mid, m, e₂) =
      >>=-eq_ok (if length == 0 then ok lanes else assign (stripe id offset length) length _ lanes)
        _ e₁ in
    let even' : Even mid = (elim (Bool-cases (length == 0)) [
      | inl z ↦ subst Even (ok-injective (rw z at m)) even
      | inr z ↦
          assign-Even (stripe id offset length) length _ lanes (stripe_small size n i c r) even
            (rw z at m)
    ]) in
    assign_stripes-Even id size n count left (i + 1) mid c even' e₂
