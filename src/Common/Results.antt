-- ===== src/Common/Results.antt =====
-- Rust's `Result`, with `?` as the bind of a `do` block, and `std::io::Error` as its kind with the
-- constant part of its message.
use Prim.Native.Nat.{ℕ, compare, Ordering, ◌^◌}
use Prim.Native.String.{String}
use mathlib.Core.Path.{◌≡◌, refl}
use mathlib.Core.Logic.{◌⊎◌, inl, inr}
use mathlib.Core.Bool.{Bool, true, false}
use mathlib.Core.Option.{Option, none, some}

pub data Result {ℓ} (E : Type 0) (A : Type ℓ) : Type ℓ where
  ok : A → Result E A
  err : E → Result E A

infixl 5 ◌>>=◌ ◌>>◌
abbrev pub ◌>>=◌ {ℓ κ} :
    {E : Type 0} {A : Type ℓ} {B : Type κ} → Result E A → (A → Result E B) → Result E B
ok a >>= f = f a
err e >>= f = err e

abbrev pub ◌>>◌ {ℓ} : {E : Type 0} {B : Type ℓ} → Result E (Unit {0}) → Result E B → Result E B
m >> k = m >>= λ _. k

-- `if bad { return Err(e); }`
abbrev pub reject_if : {E : Type 0} → Bool → E → Result E (Unit {0})
reject_if true e = err e
reject_if false e = ok tt

abbrev pub ok_or {ℓ} : {E : Type 0} {A : Type ℓ} → Option A → E → Result E A
ok_or none e = err e
ok_or (some a) e = ok a

-- The `io::ErrorKind`s that the program makes.
pub data ErrorKind : Type 0 where
  invalid_data invalid_input not_found unexpected_eof would_block other : ErrorKind

pub record IoError : Type 0 where
  pub kind : ErrorKind
  pub message : String

abbrev pub io_error : ErrorKind → String → IoError
io_error k m = record { kind = k; message = m }

abbrev pub IoResult {ℓ} : Type ℓ → Type ℓ
IoResult A = Result IoError A

pub ok-injective {ℓ} :
    {E : Type 0} {A : Type ℓ} {a b : A} → ◌≡◌ {A = Result E A} (ok a) (ok b) → a ≡ b
ok-injective h = cc

pub ok_or-eq_ok {ℓ} :
    {E : Type 0} {A : Type ℓ} (o : Option A) (e : E) {a : A} → ok_or o e ≡ ok a → o ≡ some a
ok_or-eq_ok none e h = cc
ok_or-eq_ok (some a) e h = cc

abbrev pub Fails {ℓ} : {E : Type 0} {A : Type ℓ} → Result E A → Type 0
Fails (ok a) = ⊥
Fails (err e) = Unit {0}

pub Result-cases {ℓ} :
    {E : Type 0} {A : Type ℓ} (r : Result E A) → ((a : A) × (r ≡ ok a)) ⊎ ((e : E) × (r ≡ err e))
Result-cases (ok a) = inl (a, refl)
Result-cases (err e) = inr (e, refl)

-- Inversion of a successful bind, for proofs where the parts stay shut.
pub >>=-eq_ok {ℓ κ} :
    {E : Type 0} {A : Type ℓ} {B : Type κ} (m : Result E A) (f : A → Result E B) {b : B}
    → (m >>= f) ≡ ok b
    → (a : A) × (m ≡ ok a) × (f a ≡ ok b)
>>=-eq_ok (ok a) f h = (a, refl, h)
>>=-eq_ok (err e) f h = cc

-- `u32::try_from` on a `usize`, with its error mapped.
abbrev pub u32_try_from : {E : Type 0} → ℕ → E → Result E ℕ
u32_try_from n e = elim (compare n (2 ^ 32)) [ Ordering.lt ↦ ok n | _ ↦ err e ]

pub >>=-ok {ℓ} : {E : Type 0} {A : Type ℓ} (m : Result E A) → (m >>= ok) ≡ m
>>=-ok (ok a) = refl
>>=-ok (err e) = refl
