-- ===== src/Resume/Model.antt =====
-- resume_state.rs: the journal as two sets, of stripes and of file ids. What each method does to them is
-- said of one element at a time, without the lists.
use networkcopy_speed.Common.{
  ℕ, ◌≡◌, refl, ap, ◌∙◌, inl, inr, Bool, false, not, ◌&&◌, ◌||◌, List, [], ◌∷◌, ◌==◌, retain, ltb,
  ok, arith, Bool-cases,
}
use networkcopy_speed.Resume.Sets.{IsOrder, set_insert, set_contains}
use networkcopy_speed.Resume.Marks.{
  IsWellFormed, Op, marks_stripe, marks_file, removes_files, step, run, ltb-IsOrder,
  before_stripe-IsOrder, run-new_journal-IsWellFormed,
}
use networkcopy_speed.Resume.Journal.{
  ResumeStripe, ResumeJournal, before_stripe, new_stripe, new_journal, mark_completed,
  mark_file_completed, remove_completed_files,
}

-- Is a file marked behind one call, if it was or was not before it?
abbrev pub file_step : ℕ → Op → Bool → Bool
file_step f (marks_stripe file_id offset length) was = was
file_step f (marks_file file_id) was = was || f == file_id
file_step f (removes_files file_ids) was = was && not (set_contains ltb f file_ids)

abbrev pub file_after : ℕ → List Op → Bool → Bool
file_after f [] was = was
file_after f (op ∷ ops) was = file_after f ops (file_step f op was)

abbrev is_stripe : ResumeStripe → ℕ → ℕ → ℕ → Bool
is_stripe s file_id offset length = s.file_id == file_id && s.offset == offset && s.length == length

-- Is a stripe marked behind one call, if it was or was not before it?
abbrev pub stripe_step : ResumeStripe → Op → Bool → Bool
stripe_step s (marks_stripe file_id offset length) was =
    was || is_stripe s file_id offset length && not (length == 0)
stripe_step s (marks_file file_id) was = was
stripe_step s (removes_files file_ids) was = was && not (set_contains ltb s.file_id file_ids)

abbrev pub stripe_after : ResumeStripe → List Op → Bool → Bool
stripe_after s [] was = was
stripe_after s (op ∷ ops) was = stripe_after s ops (stripe_step s op was)

module _ {ℓ} {A : Type ℓ} (before : A → A → Bool) (o : IsOrder before) where
  abbrev same : A → A → Bool
  same x y = not (before x y || before y x)

  set_contains-set_insert_eq :
      (x y : A) (ys : List A)
      → set_contains before x (set_insert before y ys).0 ≡ (set_contains before x ys || same x y)
  unfolding set_insert
  set_contains-set_insert_eq x y [] = ground arith
  set_contains-set_insert_eq x y (z ∷ ys) = elim (Bool-cases (before y z)) [
    | inl e ↦ rw e (ground arith)
    | inr e ↦ elim (Bool-cases (before z y)) [
      | inl f ↦ rw (e, f) (ground (arith, set_contains-set_insert_eq x y ys))
      | inr f ↦
          let one : y ≡ z = o.total y z e f in
          let alike : same x y ≡ same x z = ap (same x) one in rw (e, f) (ground arith)
    ]
  ]

  set_contains-retain_eq :
      (t : A → Bool) (x : A) (ys : List A)
      → set_contains before x (retain t ys) ≡ (set_contains before x ys && t x)
  set_contains-retain_eq t x [] = refl
  set_contains-retain_eq t x (y ∷ ys) = elim (Bool-cases (before x y || before y x)) [
    | inl e ↦ elim (Bool-cases (t y)) [
      | inl f ↦ rw (f, retain) (ground (arith, set_contains-retain_eq t x ys))
      | inr f ↦ rw (f, retain) (ground (arith, set_contains-retain_eq t x ys))
    ]
    | inr e ↦
        let one : x ≡ y = o.total x y (ground arith) (ground arith) in
        let alike : t x ≡ t y = ap t one in
        elim (Bool-cases (t y)) [
          | inl f ↦ rw (f, retain) (ground (arith, set_contains-retain_eq t x ys))
          | inr f ↦ rw (f, retain) (ground (arith, set_contains-retain_eq t x ys))
        ]
  ]

abbrev has_file : ResumeJournal → ℕ → Bool
has_file j f = set_contains ltb f j.completed_file_ids

abbrev has_stripe : ResumeJournal → ResumeStripe → Bool
has_stripe j s = set_contains before_stripe s j.completed_stripes

step-has_file :
    (j : ResumeJournal) (op : Op) (f : ℕ) → has_file (step j op) f ≡ file_step f op (has_file j f)
unfolding step mark_file_completed remove_completed_files mark_completed new_stripe
step-has_file j (marks_stripe file_id offset length) f = ground arith
step-has_file j (marks_file file_id) f =
    set_contains-set_insert_eq ltb ltb-IsOrder f file_id j.completed_file_ids
    ∙ (let alike : not (ltb f file_id || ltb file_id f) ≡ (f == file_id) = (ground arith) in
        rw alike refl)
step-has_file j (removes_files file_ids) f =
    set_contains-retain_eq ltb ltb-IsOrder _ f j.completed_file_ids

-- A stripe is the same as a new one exactly where all three fields are.
same-is_stripe :
    (s t : ResumeStripe)
    → not (before_stripe s t || before_stripe t s) ≡ is_stripe s t.file_id t.offset t.length
unfolding before_stripe
same-is_stripe s t = ground arith

step-has_stripe :
    (j : ResumeJournal) (op : Op) (s : ResumeStripe)
    → has_stripe (step j op) s ≡ stripe_step s op (has_stripe j s)
unfolding step mark_file_completed remove_completed_files mark_completed new_stripe
step-has_stripe j (marks_stripe file_id offset length) s =
    let t : ResumeStripe = record { file_id = file_id; offset = offset; length = length } in
    let inserted =
      set_contains-set_insert_eq before_stripe before_stripe-IsOrder s t j.completed_stripes in
    elim (Bool-cases (length == 0)) [
      | inl e ↦ rw e (ground arith)
      | inr e ↦ rw e (inserted ∙ rw (same-is_stripe s t) (ground arith))
    ]
step-has_stripe j (marks_file file_id) s = refl
step-has_stripe j (removes_files file_ids) s =
    set_contains-retain_eq before_stripe before_stripe-IsOrder _ s j.completed_stripes

run-has_file :
    (j : ResumeJournal) (ops : List Op) (f : ℕ)
    → has_file (run j ops) f ≡ file_after f ops (has_file j f)
unfolding run
run-has_file j [] f = refl
run-has_file j (op ∷ ops) f =
    run-has_file (step j op) ops f ∙ ap (file_after f ops) (step-has_file j op f)

run-has_stripe :
    (j : ResumeJournal) (ops : List Op) (s : ResumeStripe)
    → has_stripe (run j ops) s ≡ stripe_after s ops (has_stripe j s)
unfolding run
run-has_stripe j [] s = refl
run-has_stripe j (op ∷ ops) s =
    run-has_stripe (step j op) ops s ∙ ap (stripe_after s ops) (step-has_stripe j op s)

-- The transfer that the journal belongs to.
abbrev pub key : ResumeJournal → ℕ × ℕ
key j = (j.manifest_fingerprint, j.data_stream_count)

step-key : (j : ResumeJournal) (op : Op) → key (step j op) ≡ key j
unfolding step mark_file_completed remove_completed_files mark_completed new_stripe
step-key j (marks_stripe file_id offset length) = ground arith
step-key j (marks_file file_id) = refl
step-key j (removes_files file_ids) = refl

run-key : (j : ResumeJournal) (ops : List Op) → key (run j ops) ≡ key j
unfolding run
run-key j [] = refl
run-key j (op ∷ ops) = run-key (step j op) ops ∙ step-key j op

-- A journal stands for two sets and the key of its transfer.
pub record Models (j : ResumeJournal) (k : ℕ × ℕ) (file : ℕ → Bool) (stripe : ResumeStripe → Bool)
    : Type 0 where
  pub well_formed : IsWellFormed j
  pub keyed : key j ≡ k
  pub files : (f : ℕ) → set_contains ltb f j.completed_file_ids ≡ file f
  pub stripes : (s : ResumeStripe) → set_contains before_stripe s j.completed_stripes ≡ stripe s

-- Whatever sequence of its methods is called on a new journal, a file is in its set of file ids exactly
-- if it was marked and not removed since, and a stripe is in its set of stripes exactly if it was
-- marked, is not empty, and its file was not removed since. Fingerprint and number of data streams are
-- those that it was made with, both sets are in order without duplicates, no stripe is empty, and
-- there is a data stream.
pub run-new_journal-Models :
    (fingerprint streams : ℕ) (j : ResumeJournal) (ops : List Op)
    → new_journal fingerprint streams ≡ ok j
    → Models
        (run j ops)
        (fingerprint, streams)
        (λ f. file_after f ops false)
        (λ s. stripe_after s ops false)
unfolding new_journal
run-new_journal-Models fingerprint streams j ops e =
    let no_files : j.completed_file_ids ≡ [] = (ground arith) in
    let no_stripes : j.completed_stripes ≡ [] = (ground arith) in
    record {
      well_formed = run-new_journal-IsWellFormed fingerprint streams j ops e;
      keyed = run-key j ops ∙ ground arith;
      files = λ f.
          run-has_file j ops f ∙ ap (λ ids. file_after f ops (set_contains ltb f ids)) no_files;
      stripes = λ s.
          run-has_stripe j ops s
          ∙ ap (λ set. stripe_after s ops (set_contains before_stripe s set)) no_stripes;
    }
