-- ===== src/Resume/RoundTrip.antt =====
-- resume_state.rs: a journal that is written is read back.
use mathlib.Core.List.{append_assoc, append-nil}
use networkcopy_speed.Common.{
  ℕ, ◌^◌, ◌≤◌, ◌<◌, ◌≡◌, ◌≢◌, refl, ap, ◌∙◌, Bool, true, false, List, [], ◌∷◌, ◌++◌, All,
  All-append-split, length, ltb, ◌==◌, ok, arith, le→ltb_false,
}
use networkcopy_speed.Wire.Bytes.{be_bytes, read_exact-append, read_be-be_bytes, same_bytes_refl}
use networkcopy_speed.Resume.Sets.{IsAscending, set_insert-last}
use networkcopy_speed.Resume.Marks.{IsWellFormed, ltb-IsOrder, before_stripe-IsOrder}
use networkcopy_speed.Resume.Journal.{
  ResumeStripe, ResumeJournal, JournalHeader, before_stripe, write_stripe, write_stripes,
  write_files, write_to, journal_magic, journal_version, max_completed_stripes, max_completed_files,
  read_stripe, read_stripes, read_files, read_file_count, read_counts, read_header, read_journal,
}

abbrev pub StripeFits : ResumeStripe → Type 0
StripeFits s = (s.file_id < 2 ^ 64) × (s.offset < 2 ^ 64) × (s.length < 2 ^ 64)

-- The fields are of their widths, and the counts within the limits of the file.
pub record Fits (j : ResumeJournal) : Type 0 where
  pub fingerprint : j.manifest_fingerprint < 2 ^ 64
  pub streams : j.data_stream_count < 2 ^ 32
  pub stripes : All StripeFits j.completed_stripes
  pub files : All (λ id. id < 2 ^ 64) j.completed_file_ids
  pub stripe_count : length j.completed_stripes ≤ max_completed_stripes
  pub file_count : length j.completed_file_ids ≤ max_completed_files

read_stripe-write_stripe :
    (s : ResumeStripe) (rest : List ℕ)
    → StripeFits s
    → read_stripe (write_stripe s ++ rest) ≡ ok (s, rest)
unfolding read_stripe write_stripe
read_stripe-write_stripe s rest (f, o, l) =
    rw
      (
        append_assoc (be_bytes 8 s.file_id) (be_bytes 8 s.offset ++ be_bytes 8 s.length) rest,
        append_assoc (be_bytes 8 s.offset) (be_bytes 8 s.length) rest,
        read_be-be_bytes 8 s.file_id (be_bytes 8 s.offset ++ (be_bytes 8 s.length ++ rest)) f,
      )
      (rw (read_be-be_bytes 8 s.offset (be_bytes 8 s.length ++ rest) o)
        (rw (read_be-be_bytes 8 s.length rest l) refl))

-- The elements of a set that ascends through its end are below what stands there.
IsAscending-last :
    {A : Type 0} (before : A → A → Bool) (xs : List A) (y : A) (ys : List A)
    → IsAscending before (xs ++ y ∷ ys)
    → All (λ x. before x y ≡ true) xs
IsAscending-last before [] y ys h = tt
IsAscending-last before (x ∷ xs) y ys h =
    ((All-append-split _ xs (y ∷ ys) h.0).1.0, IsAscending-last before xs y ys h.1)

read_stripes-write_stripes :
    (set ss : List ResumeStripe) (rest : List ℕ)
    → IsAscending before_stripe (set ++ ss)
    → All (λ s. s.length ≢ 0) ss
    → All StripeFits ss
    → read_stripes (length ss) set (write_stripes ss ++ rest) ≡ ok (set ++ ss, rest)
unfolding read_stripes write_stripes
read_stripes-write_stripes set [] rest a n f = rw (append-nil set) refl
read_stripes-write_stripes set (s ∷ ss) rest a n f =
    let some_length : (s.length == 0) ≡ false = (ground (arith, n.0)) in
    let moved : (set ++ s ∷ []) ++ ss ≡ set ++ s ∷ ss = append_assoc set (s ∷ []) ss in
    rw
      (
        append_assoc (write_stripe s) (write_stripes ss) rest,
        read_stripe-write_stripe s (write_stripes ss ++ rest) f.0,
      )
      (rw
        (
          some_length,
          set_insert-last before_stripe before_stripe-IsOrder s set
              (IsAscending-last before_stripe set s ss a),
        )
        (read_stripes-write_stripes (set ++ s ∷ []) ss rest (rw moved a) n.1 f.1
          ∙ ap (λ (t : List ResumeStripe). ok (t, rest)) moved))

read_files-write_files :
    (set ids : List ℕ) (rest : List ℕ)
    → IsAscending ltb (set ++ ids)
    → All (λ id. id < 2 ^ 64) ids
    → read_files (length ids) set (write_files ids ++ rest) ≡ ok (set ++ ids, rest)
unfolding read_files write_files
read_files-write_files set [] rest a f = rw (append-nil set) refl
read_files-write_files set (id ∷ ids) rest a f =
    let moved : (set ++ id ∷ []) ++ ids ≡ set ++ id ∷ ids = append_assoc set (id ∷ []) ids in
    rw
      (
        append_assoc (be_bytes 8 id) (write_files ids) rest,
        read_be-be_bytes 8 id (write_files ids ++ rest) f.0,
      )
      (rw (set_insert-last ltb ltb-IsOrder id set (IsAscending-last ltb set id ids a)) (
        read_files-write_files (set ++ id ∷ []) ids rest (rw moved a) f.1
        ∙ ap (λ (t : List ℕ). ok (t, rest)) moved))

abbrev header_of : ResumeJournal → JournalHeader
header_of j = record {
  manifest_fingerprint = j.manifest_fingerprint;
  data_stream_count = j.data_stream_count;
  stripe_count = length j.completed_stripes;
  completed_file_count = length j.completed_file_ids;
}

abbrev counts_bytes : ResumeJournal → List ℕ → List ℕ
counts_bytes j rest =
    be_bytes 8 j.manifest_fingerprint
    ++ (be_bytes 4 j.data_stream_count
        ++ (be_bytes 4 (length j.completed_stripes)
            ++ (be_bytes 4 (length j.completed_file_ids) ++ rest)))

read_counts-bytes :
    (j : ResumeJournal) (rest : List ℕ)
    → j.data_stream_count ≢ 0
    → Fits j
    → read_counts journal_version (counts_bytes j rest) ≡ ok (header_of j, rest)
unfolding read_counts read_file_count
read_counts-bytes j rest n f =
    let some_stream : (j.data_stream_count == 0) ≡ false = (ground (arith, n)) in
    rw (read_be-be_bytes 8 j.manifest_fingerprint _ f.fingerprint) (
      rw (read_be-be_bytes 4 j.data_stream_count _ f.streams) (
        rw
          (
            some_stream,
            read_be-be_bytes 4 (length j.completed_stripes) _ (omega (arith, f.stripe_count)),
          )
          (rw (read_be-be_bytes 4 (length j.completed_file_ids) _ (omega (arith, f.file_count))) (
            rw
              (
                le→ltb_false max_completed_stripes (length j.completed_stripes) f.stripe_count,
                le→ltb_false max_completed_files (length j.completed_file_ids) f.file_count,
              )
              refl))))

abbrev journal_bytes : ResumeJournal → List ℕ
journal_bytes j =
    journal_magic
    ++ (be_bytes 2 journal_version
        ++ (be_bytes 2 0
            ++ counts_bytes j
                (write_stripes j.completed_stripes ++ write_files j.completed_file_ids)))

write_to-journal_bytes : (j : ResumeJournal) → Fits j → write_to j ≡ ok (journal_bytes j)
unfolding write_to
write_to-journal_bytes j f = ground (arith, f.stripe_count, f.file_count)

read_header-bytes :
    (j : ResumeJournal) (rest : List ℕ)
    → j.data_stream_count ≢ 0
    → Fits j
    → read_header
        (journal_magic ++ (be_bytes 2 journal_version ++ (be_bytes 2 0 ++ counts_bytes j rest)))
      ≡ ok (header_of j, rest)
unfolding read_header
read_header-bytes j rest n f =
    rw
      (read_exact-append 4 journal_magic
        (be_bytes 2 journal_version ++ (be_bytes 2 0 ++ counts_bytes j rest)) refl)
      (rw
        (
          same_bytes_refl journal_magic,
          read_be-be_bytes 2 journal_version (be_bytes 2 0 ++ counts_bytes j rest) (omega arith),
        )
        (rw (read_be-be_bytes 2 0 (counts_bytes j rest) (omega arith))
          (read_counts-bytes j rest n f)))

-- A journal in order, without empty stripes and with a data stream, whose fields are of their widths and
-- whose counts are within the limits is written, and what was written is read back as the same journal.
pub read_journal-write_to :
    (j : ResumeJournal)
    → IsWellFormed j
    → Fits j
    → (bytes : List ℕ) × (write_to j ≡ ok bytes) × (read_journal bytes ≡ ok j)
unfolding read_journal
read_journal-write_to j w f =
    let stripes = write_stripes j.completed_stripes in
    let files = write_files j.completed_file_ids in
    let last : files ++ [] ≡ files = append-nil files in
    (
      journal_bytes j,
      write_to-journal_bytes j f,
      rw (read_header-bytes j (stripes ++ files) w.streams f) (
          rw (read_stripes-write_stripes [] j.completed_stripes files w.stripes w.lengths f.stripes)
            (rw (← last)
              (rw (read_files-write_files [] j.completed_file_ids [] w.files f.files) refl))),
    )
