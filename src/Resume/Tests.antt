-- ===== src/Resume/Tests.antt =====
-- A concrete journal, and the theorems on journals at it.
use networkcopy_speed.Common.{ℕ, ◌≤◌, ◌≡◌, refl, true, false, List, [], ◌∷◌, ok, length, arith}
use networkcopy_speed.Resume.Sets.{set_insert}
use networkcopy_speed.Resume.Marks.{
  IsWellFormed, Op, marks_stripe, marks_file, removes_files, step, run,
}
use networkcopy_speed.Resume.Model.{Models, file_after, stripe_after, run-new_journal-Models}
use networkcopy_speed.Resume.RoundTrip.{Fits, read_journal-write_to}
use networkcopy_speed.Resume.Reading.{read_journal-IsWellFormed}
use networkcopy_speed.Resume.Loading.{LoadsFor, load_existing-write_to}
use networkcopy_speed.Resume.Journal.{
  ResumeStripe, ResumeJournal, before_stripe, new_journal, new_stripe, mark_completed,
  mark_file_completed, remove_completed_files, write_to, read_journal, load_existing,
  max_completed_stripes, max_completed_files,
}

abbrev stripe : ℕ → ℕ → ℕ → ResumeStripe
stripe file_id offset length = record { file_id = file_id; offset = offset; length = length }

abbrev empty_journal : ResumeJournal
empty_journal = record {
  manifest_fingerprint = 0x1122_3344;
  data_stream_count = 4;
  completed_stripes = [];
  completed_file_ids = [];
}

abbrev saved : ResumeJournal
saved = record empty_journal {
  completed_stripes = stripe 1 0 10 ∷ stripe 1 10 5 ∷ stripe 3 0 7 ∷ [];
  completed_file_ids = 2 ∷ 9 ∷ [];
}

abbrev marks : List Op
marks =
    marks_stripe 3 0 7
    ∷ marks_stripe 1 10 5
    ∷ marks_file 9
    ∷ marks_stripe 1 0 10
    ∷ marks_stripe 8 0 0
    ∷ marks_stripe 6 0 1
    ∷ marks_file 6
    ∷ marks_file 2
    ∷ removes_files (6 ∷ 7 ∷ [])
    ∷ []

saved_from_marks : run empty_journal marks ≡ saved
unfolding run step new_stripe mark_completed mark_file_completed remove_completed_files set_insert
    before_stripe
saved_from_marks = refl

run-new_journal-Models_example :
    Models
      (run empty_journal marks)
      (0x1122_3344, 4)
      (λ f. file_after f marks false)
      (λ s. stripe_after s marks false)
unfolding new_journal
run-new_journal-Models_example = run-new_journal-Models 0x1122_3344 4 empty_journal marks refl

file_removed : file_after 6 marks false ≡ false
file_removed = refl

file_marked : file_after 9 marks false ≡ true
file_marked = refl

saved-IsWellFormed : IsWellFormed saved
unfolding before_stripe
saved-IsWellFormed = record {
  stripes = search arith;
  files = search arith;
  lengths = search arith;
  streams = search arith;
}

saved-Fits : Fits saved
saved-Fits = record {
  fingerprint = omega arith;
  streams = omega arith;
  stripes = search arith;
  files = search arith;
  stripe_count = omega arith;
  file_count = omega arith;
}

read_journal-write_to_example :
    (bytes : List ℕ) × (write_to saved ≡ ok bytes) × (read_journal bytes ≡ ok saved)
read_journal-write_to_example = read_journal-write_to saved saved-IsWellFormed saved-Fits

abbrev saved_bytes : List ℕ
saved_bytes = (read_journal-write_to saved saved-IsWellFormed saved-Fits).0

saved_is_read : read_journal saved_bytes ≡ ok saved
saved_is_read = (read_journal-write_to saved saved-IsWellFormed saved-Fits).2

read_journal-IsWellFormed_example :
    IsWellFormed saved
    × (length saved.completed_stripes ≤ max_completed_stripes)
    × (length saved.completed_file_ids ≤ max_completed_files)
read_journal-IsWellFormed_example = read_journal-IsWellFormed saved_bytes saved saved_is_read

saved_is_loaded : load_existing saved_bytes 0x1122_3344 4 ≡ ok saved
unfolding load_existing
saved_is_loaded = rw saved_is_read refl

load_existing-write_to_example :
    (bytes : List ℕ) × (write_to saved ≡ ok bytes) × LoadsFor saved 0x1122_3344 5 bytes
load_existing-write_to_example =
    load_existing-write_to saved 0x1122_3344 5 saved-IsWellFormed saved-Fits
