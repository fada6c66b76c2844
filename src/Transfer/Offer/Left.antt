-- ===== src/Transfer/Offer/Left.antt =====
-- multistream_copy.rs: which bytes the plan still carries behind a receiver's offer.
use networkcopy_speed.Common.{
  ℕ, ◌+◌, ◌≡◌, ◌≢◌, refl, sym, ap, subst, ◌∙◌, inl, inr, Bool, true, false, not, ◌&&◌, List, [],
  ◌∷◌, Bool-cases, arith, ltb, leb, ◌==◌, ==→eq, retain, ok, >>=-eq_ok, ok-injective, reject_if,
  if◌then◌else◌, ok_or, checked_add,
}
use networkcopy_speed.Resume.Sets.{set_contains}
use networkcopy_speed.Resume.Journal.{ResumeStripe, before_stripe, new_stripe}
use networkcopy_speed.Transfer.Manifest.{ManifestEntry}
use networkcopy_speed.Transfer.Plan.{TransferTask, whole_file, tiny_pack, stripe, is_empty}
use networkcopy_speed.Transfer.Plan.Measure.{tasks_sum, tasks_sum-append}
use networkcopy_speed.Transfer.Plan.Hits.{occurrences, carries}
use networkcopy_speed.Transfer.Offer.{
  ResumeApplication, flatten, summarize_tiny_pack, apply_pack, count_resumed, add_lane_counts,
  apply_stripe, apply_task, apply_lane, apply_lanes,
}

-- Whether the stripe has the byte of the file.
abbrev pub covers : ℕ → ℕ → ResumeStripe → Bool
covers f byte s = s.file_id == f && (leb s.offset byte && ltb byte (s.offset + s.length))

-- How often the task carries the byte, where the receiver has offered it.
abbrev pub resumed : List ResumeStripe → ℕ → ℕ → TransferTask → ℕ
resumed offered f byte (whole_file id) = 0
resumed offered f byte (tiny_pack ids total_bytes) = 0
resumed offered f byte (stripe id offset bytes) =
    if set_contains before_stripe (record { file_id = id; offset = offset; length = bytes }) offered
    then carries f byte (stripe id offset bytes)
    else 0

-- What a task leaves, where the file is not unchanged.
abbrev pub Kept : List ResumeStripe → ℕ → ℕ → List TransferTask → List TransferTask → Type 0
Kept offered f byte tasks left =
    tasks_sum (carries f byte) left + tasks_sum (resumed offered f byte) tasks
    ≡ tasks_sum (carries f byte) tasks

true_clash : true ≢ false
true_clash e = cc

pub is_other :
    (f id : ℕ) (unchanged : List ℕ)
    → set_contains ltb f unchanged ≡ false
    → set_contains ltb id unchanged ≡ true
    → (id == f) ≡ false
is_other f id unchanged kept gone = elim (Bool-cases (id == f)) [
  | inl e ↦
      absurd (true_clash (sym gone ∙ ap (λ k. set_contains ltb k unchanged) (==→eq id f e) ∙ kept))
  | inr e ↦ e
]

occurrences-retain :
    (f : ℕ) (unchanged ids : List ℕ)
    → set_contains ltb f unchanged ≡ false
    → occurrences f (retain (λ id. not (set_contains ltb id unchanged)) ids) ≡ occurrences f ids
occurrences-retain f unchanged [] kept = refl
occurrences-retain f unchanged (id ∷ ids) kept = elim (Bool-cases (set_contains ltb id unchanged)) [
  | inl e ↦
      rw (retain, e)
        (rw (is_other f id unchanged kept e)
          (omega (arith, occurrences-retain f unchanged ids kept)))
  | inr e ↦ rw (retain, e) (omega (arith, occurrences-retain f unchanged ids kept))
]

is_empty-occurrences : (f : ℕ) (ids : List ℕ) → is_empty ids ≡ true → occurrences f ids ≡ 0
is_empty-occurrences f [] e = refl
is_empty-occurrences f (x ∷ xs) e = cc

-- A pack keeps the files that it is given.
pub apply_pack-carries :
    (f byte : ℕ) (manifest : List ManifestEntry) (ids : List ℕ) (a : ResumeApplication)
    {left : List TransferTask} {a' : ResumeApplication}
    → apply_pack manifest ids a ≡ ok (left, a')
    → tasks_sum (carries f byte) left ≡ occurrences f ids
unfolding apply_pack
apply_pack-carries f byte manifest ids a e = elim (Bool-cases (is_empty ids)) [
  | inl z ↦
      let same = ap (λ p. tasks_sum (carries f byte) p.0) (ok-injective (rw z at e)) in
      omega (arith, same, is_empty-occurrences f ids z)
  | inr z ↦
      let (summary, _, e') = >>=-eq_ok (summarize_tiny_pack manifest ids) _ (rw z at e) in
      let same = ap (λ p. tasks_sum (carries f byte) p.0) (ok-injective e') in omega (arith, same)
]

pub count_resumed-left :
    (offset bytes : ℕ) (a : ResumeApplication) {left : List TransferTask} {a' : ResumeApplication}
    → count_resumed offset bytes a ≡ ok (left, a')
    → left ≡ []
unfolding count_resumed
count_resumed-left offset bytes a e =
    let (_, _, e₁) = >>=-eq_ok (add_lane_counts a.logical_report _ bytes) _ e in
    let (_, _, e₂) = >>=-eq_ok (ok_or (checked_add a.resumed_bytes bytes) _) _ e₁ in
    let (_, _, e₃) = >>=-eq_ok (ok_or (checked_add a.stripe_count 1) _) _ e₂ in
    sym (ap (λ p. p.0) (ok-injective e₃))

pub apply_stripe-Kept :
    (f byte : ℕ) (offered : List ResumeStripe) (id offset bytes : ℕ) (a : ResumeApplication)
    {left : List TransferTask} {a' : ResumeApplication}
    → apply_stripe offered id offset bytes a ≡ ok (left, a')
    → Kept offered f byte (stripe id offset bytes ∷ []) left
unfolding apply_stripe new_stripe
apply_stripe-Kept f byte offered id offset bytes a {left} {a'} e =
    let (this, n, e₁) = >>=-eq_ok (new_stripe id offset bytes) _ e in
    let (_, _, n') = >>=-eq_ok (reject_if (bytes == 0) _) _ n in
    let is = ok-injective n' in
    let own : ResumeStripe = record { file_id = id; offset = offset; length = bytes } in
    let e₂ =
      subst
        (λ t.
          (if set_contains before_stripe t offered
            then count_resumed offset bytes a
            else ok (stripe id offset bytes ∷ [], a))
          ≡ ok (left, a'))
        (sym is) e₁ in
    elim (Bool-cases (set_contains before_stripe own offered)) [
      | inl z ↦
          let gone =
            ap (tasks_sum (carries f byte)) (count_resumed-left offset bytes a (rw z at e₂)) in
          rw z (omega (arith, gone))
      | inr z ↦
          let same = ap (λ p. tasks_sum (carries f byte) p.0) (ok-injective (rw z at e₂)) in
          rw z (omega (arith, same))
    ]

stripe_other :
    (f byte : ℕ) (offered : List ResumeStripe) (id offset bytes : ℕ) (left : List TransferTask)
    → (id == f) ≡ false
    → 0 ≡ tasks_sum (carries f byte) left
    → Kept offered f byte (stripe id offset bytes ∷ []) left
stripe_other f byte offered id offset bytes left other nothing =
    let own : ResumeStripe = record { file_id = id; offset = offset; length = bytes } in
    elim (Bool-cases (set_contains before_stripe own offered)) [
      | inl z ↦ rw (z, other) (omega (arith, nothing))
      | inr z ↦ rw (z, other) (omega (arith, nothing))
    ]

-- Of a file that is not unchanged a task leaves what is not resumed.
apply_task-Kept :
    (f byte : ℕ) (manifest : List ManifestEntry) (offered : List ResumeStripe) (unchanged : List ℕ)
    (task : TransferTask) (a : ResumeApplication) {left : List TransferTask}
    {a' : ResumeApplication}
    → set_contains ltb f unchanged ≡ false
    → apply_task manifest offered unchanged task a ≡ ok (left, a')
    → Kept offered f byte (task ∷ []) left
unfolding apply_task
apply_task-Kept f byte manifest offered unchanged (whole_file id) a kept e =
    elim (Bool-cases (set_contains ltb id unchanged)) [
      | inl z ↦
          let same = ap (λ p. tasks_sum (carries f byte) p.0) (ok-injective (rw z at e)) in
          rw (is_other f id unchanged kept z) (omega (arith, same))
      | inr z ↦
          let same = ap (λ p. tasks_sum (carries f byte) p.0) (ok-injective (rw z at e)) in
          omega (arith, same)
    ]
apply_task-Kept f byte manifest offered unchanged (stripe id offset bytes) a {left} kept e =
    elim (Bool-cases (set_contains ltb id unchanged)) [
      | inl z ↦
          let same = ap (λ p. tasks_sum (carries f byte) p.0) (ok-injective (rw z at e)) in
          let other = is_other f id unchanged kept z in
          stripe_other f byte offered id offset bytes left other same
      | inr z ↦ apply_stripe-Kept f byte offered id offset bytes a (rw z at e)
    ]
apply_task-Kept f byte manifest offered unchanged (tiny_pack ids total_bytes) a kept e =
    let some_ids = retain (λ id. not (set_contains ltb id unchanged)) ids in
    let same = apply_pack-carries f byte manifest some_ids a e in
    omega (arith, same, occurrences-retain f unchanged ids kept)

apply_lane-Kept :
    (f byte : ℕ) (manifest : List ManifestEntry) (offered : List ResumeStripe) (unchanged : List ℕ)
    (tasks : List TransferTask) (a : ResumeApplication) {left : List TransferTask}
    {a' : ResumeApplication}
    → set_contains ltb f unchanged ≡ false
    → apply_lane manifest offered unchanged tasks a ≡ ok (left, a')
    → Kept offered f byte tasks left
unfolding apply_lane
apply_lane-Kept f byte manifest offered unchanged [] a kept e =
    let same = ap (λ p. tasks_sum (carries f byte) p.0) (ok-injective e) in omega (arith, same)
apply_lane-Kept f byte manifest offered unchanged (task ∷ tasks) a kept e =
    let ((l, b), t, e₁) = >>=-eq_ok (apply_task manifest offered unchanged task a) _ e in
    let ((rest, c), r, e₂) = >>=-eq_ok (apply_lane manifest offered unchanged tasks b) _ e₁ in
    let same = ap (λ p. tasks_sum (carries f byte) p.0) (ok-injective e₂) in
    omega (
      arith,
      same,
      tasks_sum-append (carries f byte) l rest,
      apply_task-Kept f byte manifest offered unchanged task a kept t,
      apply_lane-Kept f byte manifest offered unchanged tasks b kept r,
    )

pub apply_lanes-Kept :
    (f byte : ℕ) (manifest : List ManifestEntry) (offered : List ResumeStripe) (unchanged : List ℕ)
    (lanes : List (List TransferTask)) (a : ResumeApplication) {lanes' : List (List TransferTask)}
    {a' : ResumeApplication}
    → set_contains ltb f unchanged ≡ false
    → apply_lanes manifest offered unchanged lanes a ≡ ok (lanes', a')
    → Kept offered f byte (flatten lanes) (flatten lanes')
unfolding apply_lanes
apply_lanes-Kept f byte manifest offered unchanged [] a kept e =
    let same = ap (λ p. tasks_sum (carries f byte) (flatten p.0)) (ok-injective e) in
    omega (arith, same)
apply_lanes-Kept f byte manifest offered unchanged (lane ∷ lanes) a kept e =
    let ((l, b), t, e₁) = >>=-eq_ok (apply_lane manifest offered unchanged lane a) _ e in
    let ((rest, c), r, e₂) = >>=-eq_ok (apply_lanes manifest offered unchanged lanes b) _ e₁ in
    let same = ap (λ p. tasks_sum (carries f byte) (flatten p.0)) (ok-injective e₂) in
    omega (
      arith,
      same,
      tasks_sum-append (carries f byte) l (flatten rest),
      tasks_sum-append (carries f byte) lane (flatten lanes),
      tasks_sum-append (resumed offered f byte) lane (flatten lanes),
      apply_lane-Kept f byte manifest offered unchanged lane a kept t,
      apply_lanes-Kept f byte manifest offered unchanged lanes b kept r,
    )
