-- ===== src/Resume/Loading.antt =====
-- resume_state.rs: loading a journal that was saved.
use networkcopy_speed.Common.{
  ℕ, ◌^◌, ◌<◌, ◌≡◌, ◌⊎◌, sym, ◌∙◌, inl, inr, ◌&&◌, List, ◌==◌, ok, ok-injective, u32_try_from,
  >>=-eq_ok, Fails, Bool-cases, Result-cases, arith,
}
use networkcopy_speed.Resume.Marks.{IsWellFormed}
use networkcopy_speed.Resume.RoundTrip.{Fits, read_journal-write_to}
use networkcopy_speed.Resume.Journal.{
  ResumeJournal, write_to, read_journal, load_existing, invalid_input,
}

-- The transfer with this fingerprint and this number of data streams is the journal's.
abbrev pub BelongsTo : ResumeJournal → ℕ → ℕ → Type 0
BelongsTo j fingerprint streams =
    (fingerprint ≡ j.manifest_fingerprint) × (streams ≡ j.data_stream_count)

-- From the bytes the journal itself is loaded for its transfer, and nothing for another.
abbrev pub LoadsFor : ResumeJournal → ℕ → ℕ → List ℕ → Type 0
LoadsFor j fingerprint streams bytes =
    (BelongsTo j fingerprint streams × (load_existing bytes fingerprint streams ≡ ok j))
    ⊎ ((¬ BelongsTo j fingerprint streams) × Fails (load_existing bytes fingerprint streams))

loaded-BelongsTo :
    (j : ResumeJournal) (fingerprint streams : ℕ) (bytes : List ℕ) {k : ResumeJournal}
    → load_existing bytes fingerprint streams ≡ ok k
    → read_journal bytes ≡ ok j
    → BelongsTo j fingerprint streams
unfolding load_existing
loaded-BelongsTo j fingerprint streams bytes e r =
    let (n, s, e₁) =
      >>=-eq_ok
        (u32_try_from streams (invalid_input "expected resume stream count cannot be represented"))
        _ e in
    let (k, q, e₂) = >>=-eq_ok (read_journal bytes) _ e₁ in
    let here : n ≡ streams = (ground arith) in
    let same : k ≡ j = ok-injective (sym q ∙ r) in (ground arith, ground arith)

load_existing-read_journal :
    (j : ResumeJournal) (fingerprint streams : ℕ) (bytes : List ℕ)
    → j.data_stream_count < 2 ^ 32
    → read_journal bytes ≡ ok j
    → LoadsFor j fingerprint streams bytes
unfolding load_existing
load_existing-read_journal j fingerprint streams bytes small r =
    elim (Bool-cases (fingerprint == j.manifest_fingerprint && streams == j.data_stream_count)) [
      | inl e ↦
          let f : fingerprint ≡ j.manifest_fingerprint = (ground arith) in
          let s : streams ≡ j.data_stream_count = (ground arith) in inl ((f, s), ground arith)
      | inr e ↦
          let other : ¬ BelongsTo j fingerprint streams = (λ h. ground arith) in
          inr (
            other,
            elim (Result-cases (load_existing bytes fingerprint streams)) [
              | inl (k, l) ↦ absurd (other (loaded-BelongsTo j fingerprint streams bytes l r))
              | inr (x, l) ↦ rw l tt
            ],
          )
    ]

-- A well-formed journal whose fields are of their widths is written, and from what was written
-- `load_existing` loads the same journal where the fingerprint and the number of data streams that it
-- expects are the journal's, and fails for all others.
pub load_existing-write_to :
    (j : ResumeJournal) (fingerprint streams : ℕ)
    → IsWellFormed j
    → Fits j
    → (bytes : List ℕ) × (write_to j ≡ ok bytes) × LoadsFor j fingerprint streams bytes
load_existing-write_to j fingerprint streams w f =
    let (bytes, written, read) = read_journal-write_to j w f in
    (bytes, written, load_existing-read_journal j fingerprint streams bytes f.streams read)
