-- ===== src/Transfer/Stripes/Division.antt =====
-- Rounded-up division, for the stripes of a file.
use native.Mathlib.Nat.{div-add-mod, mod-lt, mul_comm, suc-mul}
use networkcopy_speed.Common.{
  ℕ, ◌+◌, ◌*◌, ◌/◌, ◌%◌, ◌≤◌, ◌<◌, ◌≡◌, ◌≢◌, Bool-cases, inl, inr, arith, ◌==◌,
}
use networkcopy_speed.Transfer.Stripes.{div_ceil}

-- The stripes' sizes together reach the file's length, and exceed it by less than a byte a stream.
pub div_ceil_lem : (a b : ℕ) → b ≢ 0 → (a ≤ div_ceil a b * b) × (div_ceil a b * b < a + b)
unfolding div_ceil
div_ceil_lem a b h =
    let split = div-add-mod a b in
    let below : a % b < b = mod-lt a (omega (arith, h)) in
    let flip = mul_comm b (a / b) in
    let more = suc-mul (a / b) b in
    elim (Bool-cases (a % b == 0)) [
      | inl e ↦
          let whole : a % b ≡ 0 = (ground arith) in
          rw e (omega (arith, split, whole, flip), omega (arith, split, whole, flip, h))
      | inr e ↦
          let some_rest : a % b ≢ 0 = (ground arith) in
          rw e
            (omega (arith, split, below, flip, more), omega (arith, split, some_rest, flip, more))
    ]
