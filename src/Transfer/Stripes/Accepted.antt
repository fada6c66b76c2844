-- ===== src/Transfer/Stripes/Accepted.antt =====
-- striped_file.rs: the handshakes that a receiver accepts.
use networkcopy_speed.Common.{
  ℕ, ◌+◌, ◌^◌, ◌%◌, ◌≤◌, ◌<◌, ◌≡◌, ◌≢◌, refl, sym, ap, ◌∙◌, true, not, ◌||◌, ◌==◌, leb, ok,
  ok-injective, arith, reject_if, >>=-eq_ok, u64_mod,
}
use networkcopy_speed.Transfer.Stripes.Cover.{Carries, stripe_range-Carries}
use networkcopy_speed.Transfer.Stripes.{StripeHandshake, validate_handshake, stripe_range}

-- The guards of `validate_handshake`, as equations.
validate_handshake-eq_ok :
    (h : StripeHandshake) (file_len data_stream_count : ℕ)
    → data_stream_count < 2 ^ 32
    → validate_handshake h file_len data_stream_count ≡ ok tt
    → (h.file_len ≡ file_len)
      × (h.stream_count ≡ data_stream_count)
      × (stripe_range file_len h.stream_id data_stream_count ≡ ok (h.offset, h.length))
unfolding validate_handshake
validate_handshake-eq_ok h file_len n few e =
    let (_, l, e₁) = >>=-eq_ok (reject_if (not (h.file_len == file_len)) _) _ e in
    let (_, c, e₂) = >>=-eq_ok (reject_if (not (h.stream_count == n % 2 ^ 32)) _) _ e₁ in
    let ((offset, length), r, e₃) = >>=-eq_ok (stripe_range file_len h.stream_id n) _ e₂ in
    let same_offset : offset ≡ h.offset = (ground arith) in
    let same_length : length ≡ h.length = (ground arith) in
    (ground arith, ground arith, rw (← same_offset, ← same_length) r)

stripe_range-lt : (file_len i n : ℕ) {range : ℕ × ℕ} → stripe_range file_len i n ≡ ok range → i < n
unfolding stripe_range
stripe_range-lt file_len i n e =
    let (_, inside, _) = >>=-eq_ok (reject_if (n == 0 || leb n i) _) _ e in ground arith

-- The byte is in the stripe that the handshake announces.
abbrev pub Announces : StripeHandshake → ℕ → Type 0
Announces h byte = (h.offset ≤ byte) × (byte < h.offset + h.length)

accepted-Carries :
    (h : StripeHandshake) (file_len n byte : ℕ)
    → n < 2 ^ 32
    → validate_handshake h file_len n ≡ ok tt
    → Announces h byte
    → (h.stream_id < n) × Carries file_len h.stream_id n byte
accepted-Carries h file_len n byte few v (from, until) =
    let (_, _, r) = validate_handshake-eq_ok h file_len n few v in
    (
      stripe_range-lt file_len h.stream_id n r,
      record { offset = h.offset; length = h.length; result = r; from = from; until = until },
    )

handshake_eq :
    (g h : StripeHandshake)
    → g.stream_id ≡ h.stream_id
    → g.stream_count ≡ h.stream_count
    → g.file_len ≡ h.file_len
    → g.offset ≡ h.offset
    → g.length ≡ h.length
    → g ≡ h
handshake_eq g h a b c d e = cc

accepted_eq :
    (g h : StripeHandshake) (file_len n : ℕ)
    → n < 2 ^ 32
    → validate_handshake g file_len n ≡ ok tt
    → validate_handshake h file_len n ≡ ok tt
    → g.stream_id ≡ h.stream_id
    → g ≡ h
accepted_eq g h file_len n few v w same =
    let (fg, cg, rg) = validate_handshake-eq_ok g file_len n few v in
    let (fh, ch, rh) = validate_handshake-eq_ok h file_len n few w in
    let range : (g.offset, g.length) ≡ (h.offset, h.length) =
      ok-injective (sym rg ∙ ap (λ i. stripe_range file_len i n) same ∙ rh) in
    handshake_eq g h same (cg ∙ sym ch) (fg ∙ sym fh) (ap (λ p. p.0) range) (ap (λ p. p.1) range)

-- The handshake of a stream's own stripe is accepted.
own_handshake :
    (file_len i n offset length : ℕ)
    → n < 2 ^ 32
    → stripe_range file_len i n ≡ ok (offset, length)
    → validate_handshake
        (record {
          stream_id = i;
          stream_count = n;
          file_len = file_len;
          offset = offset;
          length = length;
        })
        file_len
        n
      ≡ ok tt
unfolding validate_handshake
own_handshake file_len i n offset length few r =
    let wraps : (n == n % 2 ^ 32) ≡ true = (ground arith) in
    let e₁ : (file_len == file_len) ≡ true = (ground arith) in
    let e₂ : (offset == offset) ≡ true = (ground arith) in
    let e₃ : (length == length) ≡ true = (ground arith) in rw (e₁, wraps, r) (rw (e₂, e₃) refl)

-- Of a file whose length is of 64 bits, in 1 to 32 streams, every byte is announced by exactly one
-- of the handshakes that are accepted.
pub validate_handshake_once :
    (file_len data_stream_count byte : ℕ)
    → file_len < u64_mod
    → data_stream_count ≤ 32
    → data_stream_count ≢ 0
    → byte < file_len
    → (h : StripeHandshake) × (validate_handshake h file_len data_stream_count ≡ ok tt)
      × Announces h byte
      × ((g : StripeHandshake)
          → validate_handshake g file_len data_stream_count ≡ ok tt
          → Announces g byte
          → g ≡ h)
validate_handshake_once l n b small few some_stream inside =
    let (i, below, c, only) = stripe_range-Carries l n b small few some_stream inside in
    let wide : n < 2 ^ 32 = (omega (arith, few)) in
    let h : StripeHandshake = record {
      stream_id = i;
      stream_count = n;
      file_len = l;
      offset = c.offset;
      length = c.length;
    } in
    let accepted : validate_handshake h l n ≡ ok tt =
      own_handshake l i n c.offset c.length wide c.result in
    (
      h,
      accepted,
      (c.from, c.until),
      λ g v a.
          let (lower, carries) = accepted-Carries g l n b wide v a in
          accepted_eq g h l n wide v accepted (only g.stream_id lower carries),
    )
