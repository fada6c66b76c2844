-- ===== src/Transfer/Stripes/Cover.antt =====
-- striped_file.rs: the stripes are a partition of the file.
use native.Mathlib.Nat.{mul-le-mul_left, mul-le-mul_right, mul-suc, div-add-mod, mod-lt, mul_comm}
use networkcopy_speed.Common.{
  ℕ, suc, zero, ◌+◌, ◌-◌, ◌*◌, ◌/◌, ◌%◌, min, ◌≤◌, ◌<◌, ◌≡◌, ◌≢◌, refl, sym, ◌∙◌, inl, inr, false,
  ltb, leb, ◌==◌, ◌||◌, ok, arith, lt→ltb, u64_mod, Bool-cases,
}
use networkcopy_speed.Transfer.Stripes.{div_ceil, stripe_range}
use networkcopy_speed.Transfer.Stripes.Division.{div_ceil_lem}

-- The stream's stripe: its offset and its length, within the file.
pub record RangeIs (file_len stream_id data_stream_count : ℕ) : Type 0 where
  pub offset : ℕ
  pub length : ℕ
  pub result : stripe_range file_len stream_id data_stream_count ≡ ok (offset, length)
  pub offset_is : offset ≡ min file_len (div_ceil file_len data_stream_count * stream_id)
  pub length_is : length ≡ min (file_len - offset) (div_ceil file_len data_stream_count)

-- The offset of a stripe does not overflow, with at most 32 streams.
offset-lt : (l i n : ℕ) → l < u64_mod → i < n → n ≤ 32 → div_ceil l n * i < u64_mod
offset-lt l i n small h few =
    let (_, above) = div_ceil_lem l n (omega (arith, h)) in
    let s = div_ceil l n in
    let grown : s * suc i ≤ s * n = mul-le-mul_left s h in
    let step : s * suc i ≡ s * i + s = mul-suc s i in
    elim (Bool-cases (leb n s)) [
      | inl e ↦
          let large : n ≤ s = (ground arith) in omega (arith, grown, step, above, large, small)
      | inr e ↦
          let tiny : s ≤ 32 = (ground arith) in
          let bound : s * i ≤ 32 * i = mul-le-mul_right i tiny in omega (arith, bound, h, few)
    ]

pub stripe_range-RangeIs : (l i n : ℕ) → l < u64_mod → i < n → n ≤ 32 → RangeIs l i n
unfolding stripe_range
stripe_range-RangeIs l i n small h few =
    let room = offset-lt l i n small h few in
    let served : (n == 0 || leb n i) ≡ false = (ground arith) in
    elim (Bool-cases (l == 0)) [
      | inl e ↦
          let empty : l ≡ 0 = (ground arith) in
          record {
            offset = 0;
            length = 0;
            result = rw (served, e) refl;
            offset_is = omega (arith, empty);
            length_is = omega arith;
          }
      | inr e ↦ elim (Bool-cases (leb l (div_ceil l n * i))) [
        | inl far ↦
            let past : l ≤ div_ceil l n * i = (ground arith) in
            record {
              offset = l;
              length = 0;
              result = rw (served, e) (rw (lt→ltb (div_ceil l n * i) u64_mod room) (rw far refl));
              offset_is = omega (arith, past);
              length_is = omega arith;
            }
        | inr near ↦
            let inside : div_ceil l n * i < l = (ground arith) in
            record {
              offset = div_ceil l n * i;
              length = min (l - div_ceil l n * i) (div_ceil l n);
              result = rw (served, e) (rw (lt→ltb (div_ceil l n * i) u64_mod room) (rw near refl));
              offset_is = omega (arith, inside);
              length_is = refl;
            }
      ]
    ]

-- Of a file whose length is of 64 bits, every one of at most 32 streams has a stripe, which lies within
-- the file: no product overflows.
pub stripe_range-le :
    (file_len stream_id data_stream_count : ℕ)
    → file_len < u64_mod
    → stream_id < data_stream_count
    → data_stream_count ≤ 32
    → (offset length : ℕ) × (stripe_range file_len stream_id data_stream_count
        ≡ ok (offset, length))
      × (offset + length ≤ file_len)
stripe_range-le l i n small h few =
    let t = stripe_range-RangeIs l i n small h few in
    (t.offset, t.length, t.result, omega (arith, t.offset_is, t.length_is))

-- The byte is one that the stream carries.
pub record Carries (file_len stream_id data_stream_count byte : ℕ) : Type 0 where
  pub offset : ℕ
  pub length : ℕ
  pub result : stripe_range file_len stream_id data_stream_count ≡ ok (offset, length)
  pub from : offset ≤ byte
  pub until : byte < offset + length

-- Such a byte lies between two multiples of the stripes' size.
Carries-between :
    (l j n b : ℕ)
    → l < u64_mod
    → j < n
    → n ≤ 32
    → b < l
    → Carries l j n b
    → (div_ceil l n * j ≤ b) × (b < div_ceil l n * suc j)
Carries-between l j n b small h few inside c =
    let t = stripe_range-RangeIs l j n small h few in
    let pairs : ok (t.offset, t.length) ≡ ok (c.offset, c.length) = sym t.result ∙ c.result in
    let same_offset : t.offset ≡ c.offset = (ground arith) in
    let same_length : t.length ≡ c.length = (ground arith) in
    let next = mul-suc (div_ceil l n) j in
    (
      omega (arith, t.offset_is, same_offset, c.from, inside),
      omega (
        arith, t.offset_is, t.length_is, same_offset, same_length, c.from, c.until, inside, next,
      ),
    )

-- Only one multiple's interval has the byte.
between_unique : (s i j b : ℕ) → s * i ≤ b → b < s * suc i → s * j ≤ b → b < s * suc j → j ≡ i
between_unique s i j b f u g v = elim (Bool-cases (ltb i j)) [
  | inl e ↦
      let up : s * suc i ≤ s * j = mul-le-mul_left s (ground arith) in absurd (omega (arith, up))
  | inr e ↦ elim (Bool-cases (ltb j i)) [
    | inl e' ↦
        let down : s * suc j ≤ s * i = mul-le-mul_left s (ground arith) in
        absurd (omega (arith, down))
    | inr e' ↦ ground arith
  ]
]

-- The stream whose number is the byte's, divided by the stripes' size.
carrier-Carries :
    (l i n b : ℕ)
    → l < u64_mod
    → i < n
    → n ≤ 32
    → b < l
    → div_ceil l n * i ≤ b
    → b < div_ceil l n * suc i
    → Carries l i n b
carrier-Carries l i n b small h few inside f u =
    let t = stripe_range-RangeIs l i n small h few in
    let next = mul-suc (div_ceil l n) i in
    record {
      offset = t.offset;
      length = t.length;
      result = t.result;
      from = omega (arith, t.offset_is, f);
      until = omega (arith, t.offset_is, t.length_is, next);
    }

positive_factor : (s n : ℕ) → 0 < s * n → 0 < s
positive_factor zero n h = omega (arith, mul_comm zero n)
positive_factor (suc s) n h = omega arith

quotient_lt : (s i n b : ℕ) → b < s * n → s * i ≤ b → i < n
quotient_lt s i n b u f = elim (Bool-cases (ltb i n)) [
  | inl e ↦ ground arith
  | inr e ↦ let up : s * n ≤ s * i = mul-le-mul_left s (ground arith) in absurd (omega (arith, up))
]

-- Of a file whose length is of 64 bits, in 1 to 32 streams, every byte is carried by exactly one.
pub stripe_range-Carries :
    (file_len data_stream_count byte : ℕ)
    → file_len < u64_mod
    → data_stream_count ≤ 32
    → data_stream_count ≢ 0
    → byte < file_len
    → (i : ℕ) × (i < data_stream_count)
      × Carries file_len i data_stream_count byte
      × ((j : ℕ) → j < data_stream_count → Carries file_len j data_stream_count byte → j ≡ i)
stripe_range-Carries l n b small few some_stream inside =
    let s = div_ceil l n in
    let (covered, _) = div_ceil_lem l n some_stream in
    let positive : 0 < s = positive_factor s n (omega (arith, covered)) in
    let split = div-add-mod b s in
    let below : b % s < s = mod-lt b positive in
    let i = b / s in
    let next = mul-suc s i in
    let from : s * i ≤ b = (omega (arith, split)) in
    let until : b < s * suc i = (omega (arith, split, below, next)) in
    let h : i < n = quotient_lt s i n b (omega (arith, covered)) from in
    (
      i,
      h,
      carrier-Carries l i n b small h few inside from until,
      λ j hj c.
          let (f, u) = Carries-between l j n b small hj few inside c in
          between_unique s i j b from until f u,
    )
