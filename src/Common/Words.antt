-- ===== src/Common/Words.antt =====
-- Checked arithmetic on u64 and on the 64-bit usize.
use Prim.Native.Nat.{ℕ, ◌+◌, ◌-◌, ◌^◌, ◌<◌}
use mathlib.Core.Path.{◌≡◌}
use mathlib.Core.Option.{Option, none, some}
use native.Mathlib.Omega.{arith}
use networkcopy_speed.Common.Tests.{ltb, leb, if◌then◌else◌}

abbrev pub u64_mod : ℕ
u64_mod = 2 ^ 64

-- `u64::checked_add`.
abbrev pub checked_add : ℕ → ℕ → Option ℕ
checked_add a b = if ltb (a + b) u64_mod then some (a + b) else none

-- `u64::checked_sub`.
abbrev pub checked_sub : ℕ → ℕ → Option ℕ
checked_sub a b = if leb b a then some (a - b) else none

pub checked_add-lt : (a b : ℕ) → a + b < u64_mod → checked_add a b ≡ some (a + b)
checked_add-lt a b h = ground arith

pub checked_add-eq_some :
    (a b : ℕ) {c : ℕ} → checked_add a b ≡ some c → (c ≡ a + b) × (a + b < u64_mod)
checked_add-eq_some a b e = ground arith
