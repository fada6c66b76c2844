-- ===== src/Resume/Reading.antt =====
-- resume_state.rs: what a journal that was read is known to be.
use networkcopy_speed.Common.{
  ℕ, suc, zero, ◌+◌, ◌≤◌, ◌≡◌, ◌≢◌, true, not, ◌||◌, List, [], All, length, ltb, ◌==◌, ok,
  reject_if, >>=-eq_ok, arith,
}
use networkcopy_speed.Wire.Bytes.{read_exact, read_be, same_bytes}
use networkcopy_speed.Resume.Sets.{
  IsAscending, set_insert, set_insert-All, set_insert-IsAscending, length-set_insert,
}
use networkcopy_speed.Resume.Marks.{IsWellFormed, ltb-IsOrder, before_stripe-IsOrder}
use networkcopy_speed.Resume.Journal.{
  ResumeStripe, ResumeJournal, JournalHeader, before_stripe, journal_magic, journal_version_v1,
  journal_version, max_completed_stripes, max_completed_files, read_stripe, read_stripes,
  read_files, read_file_count, read_counts, read_header, read_journal, invalid_data,
}

read_stripes-eq_ok :
    (n : ℕ) (set : List ResumeStripe) (bytes : List ℕ) {out : List ResumeStripe} {rest : List ℕ}
    → IsAscending before_stripe set
    → All (λ s. s.length ≢ 0) set
    → read_stripes n set bytes ≡ ok (out, rest)
    → IsAscending before_stripe out × All (λ s. s.length ≢ 0) out × (length out ≡ length set + n)
unfolding read_stripes
read_stripes-eq_ok zero set bytes {out = out} a l e =
    let same : set ≡ out = (ground arith) in rw (← same) (a, l, omega arith)
read_stripes-eq_ok (suc n) set bytes a l e =
    let ((stripe, behind), _, e₁) = >>=-eq_ok (read_stripe bytes) _ e in
    let (_, some_length, e₂) =
      >>=-eq_ok
        (reject_if (stripe.length == 0)
          (invalid_data "resume journal contains a zero-length stripe"))
        _ e₁ in
    let (_, inserted, e₃) =
      >>=-eq_ok
        (reject_if (not (set_insert before_stripe stripe set).1)
          (invalid_data "resume journal contains a duplicate stripe"))
        _ e₂ in
    let new : (set_insert before_stripe stripe set).1 ≡ true = (ground arith) in
    let (a', l', count) =
      read_stripes-eq_ok n (set_insert before_stripe stripe set).0 behind
        (set_insert-IsAscending before_stripe before_stripe-IsOrder stripe set a)
        (set_insert-All before_stripe _ stripe set (ground arith) l) e₃ in
    (a', l', omega (arith, count, length-set_insert before_stripe stripe set new))

read_files-eq_ok :
    (n : ℕ) (set bytes : List ℕ) {out rest : List ℕ}
    → IsAscending ltb set
    → read_files n set bytes ≡ ok (out, rest)
    → IsAscending ltb out × (length out ≡ length set + n)
unfolding read_files
read_files-eq_ok zero set bytes {out = out} a e =
    let same : set ≡ out = (ground arith) in rw (← same) (a, omega arith)
read_files-eq_ok (suc n) set bytes a e =
    let ((id, behind), _, e₁) = >>=-eq_ok (read_be 8 bytes) _ e in
    let (_, inserted, e₂) =
      >>=-eq_ok
        (reject_if (not (set_insert ltb id set).1)
          (invalid_data "resume journal contains a duplicate completed file ID"))
        _ e₁ in
    let new : (set_insert ltb id set).1 ≡ true = (ground arith) in
    let (a', count) =
      read_files-eq_ok n (set_insert ltb id set).0 behind
        (set_insert-IsAscending ltb ltb-IsOrder id set a) e₂ in
    (a', omega (arith, count, length-set_insert ltb id set new))

-- What the header promises.
abbrev IsChecked : JournalHeader → Type 0
IsChecked h =
    (h.data_stream_count ≢ 0)
    × (h.stripe_count ≤ max_completed_stripes)
    × (h.completed_file_count ≤ max_completed_files)

read_counts-eq_ok :
    (version : ℕ) (bytes : List ℕ) {h : JournalHeader} {rest : List ℕ}
    → read_counts version bytes ≡ ok (h, rest)
    → IsChecked h
unfolding read_counts
read_counts-eq_ok version bytes e =
    let ((fingerprint, b₁), _, e₁) = >>=-eq_ok (read_be 8 bytes) _ e in
    let ((streams, b₂), _, e₂) = >>=-eq_ok (read_be 4 b₁) _ e₁ in
    let (_, some_stream, e₃) = >>=-eq_ok (reject_if (streams == 0) _) _ e₂ in
    let ((stripes, b₃), _, e₄) = >>=-eq_ok (read_be 4 b₂) _ e₃ in
    let ((files, b₄), _, e₅) = >>=-eq_ok (read_file_count version b₃) _ e₄ in
    (ground arith, ground arith, ground arith)

read_header-eq_ok :
    (bytes : List ℕ) {h : JournalHeader} {rest : List ℕ}
    → read_header bytes ≡ ok (h, rest)
    → IsChecked h
unfolding read_header
read_header-eq_ok bytes e =
    let ((magic, b₁), _, e₁) = >>=-eq_ok (read_exact 4 bytes) _ e in
    let (_, _, e₂) = >>=-eq_ok (reject_if (not (same_bytes magic journal_magic)) _) _ e₁ in
    let ((version, b₂), _, e₃) = >>=-eq_ok (read_be 2 b₁) _ e₂ in
    let (_, _, e₄) =
      >>=-eq_ok (reject_if (not (version == journal_version_v1 || version == journal_version)) _) _
        e₃ in
    let ((reserved, b₃), _, e₅) = >>=-eq_ok (read_be 2 b₂) _ e₄ in
    let (_, _, e₆) = >>=-eq_ok (reject_if (not (reserved == 0)) _) _ e₅ in
    read_counts-eq_ok version b₃ e₆

-- A journal that is read from any bytes has its stripes and file ids in order without duplicates, no
-- empty stripe, at least one data stream, and no more stripes and files than the limits allow.
pub read_journal-IsWellFormed :
    (bytes : List ℕ) (j : ResumeJournal)
    → read_journal bytes ≡ ok j
    → IsWellFormed j
      × (length j.completed_stripes ≤ max_completed_stripes)
      × (length j.completed_file_ids ≤ max_completed_files)
unfolding read_journal
read_journal-IsWellFormed bytes j e =
    let ((h, b₁), checked, e₁) = >>=-eq_ok (read_header bytes) _ e in
    let ((stripes, b₂), s, e₂) = >>=-eq_ok (read_stripes h.stripe_count [] b₁) _ e₁ in
    let ((files, b₃), f, e₃) = >>=-eq_ok (read_files h.completed_file_count [] b₂) _ e₂ in
    let (some_stream, few_stripes, few_files) = read_header-eq_ok bytes checked in
    let (a, l, n) = read_stripes-eq_ok h.stripe_count [] b₁ tt tt s in
    let (a', m) = read_files-eq_ok h.completed_file_count [] b₂ tt f in
    let made : ResumeJournal = record {
      manifest_fingerprint = h.manifest_fingerprint;
      data_stream_count = h.data_stream_count;
      completed_stripes = stripes;
      completed_file_ids = files;
    } in
    let same : made ≡ j = (ground arith) in
    rw (← same) (
      record { stripes = a; files = a'; lengths = l; streams = some_stream },
      omega (arith, n, few_stripes),
      omega (arith, m, few_files),
    )
