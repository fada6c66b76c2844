-- ===== src/Wire/Bytes.antt =====
-- Rust's `to_le_bytes`, `to_be_bytes` and their inverses, and reading from a stream of bytes.
use mathlib.Core.List.{reverse-reverse, reverse-cons}
use mathlib.Core.Path.{ap₂}
use native.Mathlib.Nat.{pow-succ'}
use networkcopy_speed.Common.{
  ℕ, zero, suc, ◌+◌, ◌*◌, ◌/◌, ◌%◌, ◌^◌, ◌≤◌, ◌<◌, ◌≡◌, refl, sym, ap, ◌∙◌, Bool, true, false, ◌&&◌,
  ◌==◌, List, [], ◌∷◌, ◌++◌, reverse, arith, length, length-append, take, drop, take-append,
  drop-append, take-append-drop, length-take, All, ltb, if◌then◌else◌, ok, err, IoError, IoResult,
  io_error, ErrorKind, ◌>>=◌, le→ltb_false,
}

abbrev pub IsByte : ℕ → Type 0
IsByte b = b < 256

-- `to_le_bytes` of an n-byte number.
unfoldable pub le_bytes : ℕ → ℕ → List ℕ
le_bytes zero v = []
le_bytes (suc n) v = (v % 256) ∷ le_bytes n (v / 256)

-- `from_le_bytes`.
unfoldable pub from_le_bytes : List ℕ → ℕ
from_le_bytes [] = 0
from_le_bytes (b ∷ bs) = b + 256 * from_le_bytes bs

unfoldable pub be_bytes : ℕ → ℕ → List ℕ
be_bytes n v = reverse (le_bytes n v)

pub from_be_bytes : List ℕ → ℕ
from_be_bytes bs = from_le_bytes (reverse bs)

pub length-le_bytes : (n v : ℕ) → length (le_bytes n v) ≡ n
unfolding le_bytes
length-le_bytes zero v = refl
length-le_bytes (suc n) v = ap suc (length-le_bytes n (v / 256))

pub from_le_bytes-le_bytes : (n v : ℕ) → v < 256 ^ n → from_le_bytes (le_bytes n v) ≡ v
unfolding le_bytes from_le_bytes
from_le_bytes-le_bytes zero v h = omega arith
from_le_bytes-le_bytes (suc n) v h =
    omega
      (arith, pow-succ' 256 n, from_le_bytes-le_bytes n (v / 256) (omega (arith, pow-succ' 256 n)))

-- A little-endian number gives back the bytes that it was read from.
pub le_bytes-from_le_bytes :
    (bs : List ℕ) → All IsByte bs → le_bytes (length bs) (from_le_bytes bs) ≡ bs
unfolding le_bytes from_le_bytes
le_bytes-from_le_bytes [] h = refl
le_bytes-from_le_bytes (b ∷ bs) h =
    ap₂ ◌∷◌ (omega arith) (ap (le_bytes (length bs)) (omega arith) ∙ le_bytes-from_le_bytes bs h.1)

pub from_le_bytes-lt : (bs : List ℕ) → All IsByte bs → from_le_bytes bs < 256 ^ length bs
unfolding from_le_bytes
from_le_bytes-lt [] h = omega arith
from_le_bytes-lt (b ∷ bs) h = omega (arith, pow-succ' 256 (length bs), from_le_bytes-lt bs h.1)

pub length-reverse {ℓ} : {A : Type ℓ} (xs : List A) → length (reverse xs) ≡ length xs
length-reverse [] = refl
length-reverse (x ∷ xs) =
    omega
      (arith, ap length (reverse-cons x xs), length-append (reverse xs) (x ∷ []), length-reverse xs)

pub length-be_bytes : (n v : ℕ) → length (be_bytes n v) ≡ n
unfolding be_bytes
length-be_bytes n v = length-reverse (le_bytes n v) ∙ length-le_bytes n v

pub from_be_bytes-be_bytes : (n v : ℕ) → v < 256 ^ n → from_be_bytes (be_bytes n v) ≡ v
unfolding be_bytes from_be_bytes
from_be_bytes-be_bytes n v h =
    ap from_le_bytes (reverse-reverse (le_bytes n v)) ∙ from_le_bytes-le_bytes n v h

pub le_bytes-IsByte : (n v : ℕ) → All IsByte (le_bytes n v)
unfolding le_bytes
le_bytes-IsByte zero v = tt
le_bytes-IsByte (suc n) v = (omega arith, le_bytes-IsByte n (v / 256))

-- A reader: what it takes from the front of the bytes that are left, and the rest.
abbrev pub Reader : Type 0 → Type 0
Reader A = List ℕ → IoResult (A × List ℕ)

abbrev pub unexpected_eof : IoError
unexpected_eof = io_error ErrorKind.unexpected_eof "failed to fill whole buffer"

-- `Read::read_exact` of a buffer of n bytes.
unfoldable pub read_exact : ℕ → Reader (List ℕ)
read_exact n bytes =
    if ltb (length bytes) n then err unexpected_eof else ok (take n bytes, drop n bytes)

pub read_exact-append :
    (n : ℕ) (xs rest : List ℕ) → length xs ≡ n → read_exact n (xs ++ rest) ≡ ok (xs, rest)
unfolding read_exact
read_exact-append n xs rest e = rw (
  ← e,
  le→ltb_false (length (xs ++ rest)) (length xs) (omega (arith, length-append xs rest)),
  take-append xs rest,
  drop-append xs rest,
)

-- What `read_exact` has taken stood in front of what it leaves.
pub read_exact-eq_ok :
    (n : ℕ) (bytes taken rest : List ℕ)
    → read_exact n bytes ≡ ok (taken, rest)
    → (bytes ≡ taken ++ rest) × (length taken ≡ n)
unfolding read_exact
read_exact-eq_ok n bytes taken rest e =
    let parts : (n ≤ length bytes) × (take n bytes ≡ taken) × (drop n bytes ≡ rest) =
      (ground arith) in
    (
      sym (take-append-drop n bytes) ∙ rw (parts.1, parts.2) refl,
      rw (← parts.1) (length-take n bytes parts.0),
    )

unfoldable pub read_le : ℕ → Reader ℕ
read_le n bytes = do (taken, rest) ← read_exact n bytes; ok (from_le_bytes taken, rest)

unfoldable pub read_be : ℕ → Reader ℕ
read_be n bytes = do (taken, rest) ← read_exact n bytes; ok (from_be_bytes taken, rest)

pub read_le-le_bytes :
    (n v : ℕ) (rest : List ℕ) → v < 256 ^ n → read_le n (le_bytes n v ++ rest) ≡ ok (v, rest)
unfolding read_le
read_le-le_bytes n v rest h =
    rw (read_exact-append n (le_bytes n v) rest (length-le_bytes n v), from_le_bytes-le_bytes n v h)

pub read_be-be_bytes :
    (n v : ℕ) (rest : List ℕ) → v < 256 ^ n → read_be n (be_bytes n v ++ rest) ≡ ok (v, rest)
unfolding read_be
read_be-be_bytes n v rest h =
    rw (read_exact-append n (be_bytes n v) rest (length-be_bytes n v), from_be_bytes-be_bytes n v h)

-- `==` of byte slices.
unfoldable pub same_bytes : List ℕ → List ℕ → Bool
same_bytes [] [] = true
same_bytes (a ∷ xs) (b ∷ ys) = a == b && same_bytes xs ys
same_bytes _ _ = false

pub same_bytes-eq : (xs ys : List ℕ) → same_bytes xs ys ≡ true → xs ≡ ys
unfolding same_bytes
same_bytes-eq [] [] h = refl
same_bytes-eq [] (y ∷ ys) h = cc
same_bytes-eq (x ∷ xs) [] h = cc
same_bytes-eq (x ∷ xs) (y ∷ ys) h = ground (arith, same_bytes-eq xs ys)

pub same_bytes_refl : (xs : List ℕ) → same_bytes xs xs ≡ true
unfolding same_bytes
same_bytes_refl [] = refl
same_bytes_refl (x ∷ xs) = ground (arith, same_bytes_refl xs)

-- `bytes[from..from + n]`, in range.
abbrev pub slice : ℕ → ℕ → List ℕ → List ℕ
slice from n bytes = take n (drop from bytes)
