-- ===== src/Resume/Marks.antt =====
-- resume_state.rs: the journal under its operations.
use networkcopy_speed.Common.{
  ℕ, ◌≡◌, ◌≢◌, inl, inr, List, [], ◌∷◌, All, ltb, IoResult, ok, err, arith, Result-cases,
}
use networkcopy_speed.Resume.Sets.{
  IsOrder, IsAscending, set_insert-All, set_insert-IsAscending, retain-All, retain-IsAscending,
}
use networkcopy_speed.Resume.Journal.{
  ResumeStripe, ResumeJournal, before_stripe, new_stripe, new_journal, mark_completed,
  mark_file_completed, remove_completed_files,
}

pub ltb-IsOrder : IsOrder ltb
ltb-IsOrder = record {
  asymmetric = λ x y h. ground arith;
  transitive = λ x y z h g. ground arith;
  total = λ x y h g. ground arith;
}

stripe_eq :
    (a b : ResumeStripe) → a.file_id ≡ b.file_id → a.offset ≡ b.offset → a.length ≡ b.length → a ≡ b
stripe_eq a b e f g = cc

pub before_stripe-IsOrder : IsOrder before_stripe
unfolding before_stripe
before_stripe-IsOrder = record {
  asymmetric = λ x y h. ground arith;
  transitive = λ x y z h g. ground arith;
  total = λ x y h g. stripe_eq x y (ground arith) (ground arith) (ground arith);
}

-- The stripes and the file ids are in order without duplicates, no stripe is empty, and there is a
-- data stream.
pub record IsWellFormed (j : ResumeJournal) : Type 0 where
  pub stripes : IsAscending before_stripe j.completed_stripes
  pub files : IsAscending ltb j.completed_file_ids
  pub lengths : All (λ s. s.length ≢ 0) j.completed_stripes
  pub streams : j.data_stream_count ≢ 0

-- A call of the journal's methods. A stripe is made by `ResumeStripe::new` first.
pub data Op : Type 0 where
  marks_stripe : ℕ → ℕ → ℕ → Op
  marks_file : ℕ → Op
  removes_files : List ℕ → Op

abbrev mark_made : ResumeJournal → IoResult ResumeStripe → ResumeJournal
mark_made j (ok stripe) = (mark_completed j stripe).0
mark_made j (err e) = j

unfoldable pub step : ResumeJournal → Op → ResumeJournal
step j (marks_stripe file_id offset length) = mark_made j (new_stripe file_id offset length)
step j (marks_file file_id) = (mark_file_completed j file_id).0
step j (removes_files file_ids) = (remove_completed_files j file_ids).0

unfoldable pub run : ResumeJournal → List Op → ResumeJournal
run j [] = j
run j (op ∷ ops) = run (step j op) ops

mark_completed-IsWellFormed :
    (j : ResumeJournal) (s : ResumeStripe)
    → s.length ≢ 0
    → IsWellFormed j
    → IsWellFormed (mark_completed j s).0
unfolding mark_completed
mark_completed-IsWellFormed j s h w = record {
  stripes =
      set_insert-IsAscending before_stripe before_stripe-IsOrder s j.completed_stripes w.stripes;
  files = w.files;
  lengths = set_insert-All before_stripe _ s j.completed_stripes h w.lengths;
  streams = w.streams;
}

new_stripe-eq_ok :
    (file_id offset length : ℕ) {s : ResumeStripe}
    → new_stripe file_id offset length ≡ ok s
    → s.length ≢ 0
unfolding new_stripe
new_stripe-eq_ok file_id offset length e = ground arith

pub step-IsWellFormed : (j : ResumeJournal) (op : Op) → IsWellFormed j → IsWellFormed (step j op)
unfolding step mark_file_completed remove_completed_files
step-IsWellFormed j (marks_stripe file_id offset length) w =
    elim (Result-cases (new_stripe file_id offset length)) [
      | inl (s, e) ↦
          rw (e, mark_made)
            (mark_completed-IsWellFormed j s (new_stripe-eq_ok file_id offset length e) w)
      | inr (x, e) ↦ rw (e, mark_made) w
    ]
step-IsWellFormed j (marks_file file_id) w = record {
  stripes = w.stripes;
  files = set_insert-IsAscending ltb ltb-IsOrder file_id j.completed_file_ids w.files;
  lengths = w.lengths;
  streams = w.streams;
}
step-IsWellFormed j (removes_files file_ids) w = record {
  stripes = retain-IsAscending before_stripe _ j.completed_stripes w.stripes;
  files = retain-IsAscending ltb _ j.completed_file_ids w.files;
  lengths = retain-All before_stripe _ _ j.completed_stripes w.lengths;
  streams = w.streams;
}

run-IsWellFormed : (j : ResumeJournal) (ops : List Op) → IsWellFormed j → IsWellFormed (run j ops)
unfolding run
run-IsWellFormed j [] w = w
run-IsWellFormed j (op ∷ ops) w = run-IsWellFormed (step j op) ops (step-IsWellFormed j op w)

new_journal-IsWellFormed :
    (fingerprint streams : ℕ) (j : ResumeJournal)
    → new_journal fingerprint streams ≡ ok j
    → IsWellFormed j
unfolding new_journal
new_journal-IsWellFormed fingerprint streams j e = ground arith

-- Whatever sequence of its methods is called on a new journal, its stripes and its file ids are in
-- order without duplicates, no stripe is empty, and there is a data stream.
pub run-new_journal-IsWellFormed :
    (fingerprint streams : ℕ) (j : ResumeJournal) (ops : List Op)
    → new_journal fingerprint streams ≡ ok j
    → IsWellFormed (run j ops)
run-new_journal-IsWellFormed fingerprint streams j ops e =
    run-IsWellFormed j ops (new_journal-IsWellFormed fingerprint streams j e)
