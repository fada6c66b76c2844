-- ===== src/Transfer/Offer/Gone.antt =====
-- multistream_copy.rs: a receiver's offer takes what it names out of the plan.
use networkcopy_speed.Common.{
  ℕ, ◌<◌, ◌≡◌, ◌≢◌, refl, sym, ap, subst, ◌∙◌, inl, inr, ◌⊎◌, true, false, not, List, [], ◌∷◌, All,
  Bool-cases, arith, ltb, ◌==◌, ==→eq, retain, ok, >>=-eq_ok, ok-injective, reject_if,
}
use networkcopy_speed.Resume.Sets.{set_insert, set_contains}
use networkcopy_speed.Resume.Journal.{ResumeStripe, before_stripe, new_stripe}
use networkcopy_speed.Resume.Marks.{before_stripe-IsOrder}
use networkcopy_speed.Transfer.Manifest.{ManifestEntry}
use networkcopy_speed.Transfer.Plan.{TransferTask, whole_file, tiny_pack, stripe}
use networkcopy_speed.Transfer.Plan.Measure.{tasks_sum, tasks_sum-append}
use networkcopy_speed.Transfer.Plan.Hits.{occurrences, carries}
use networkcopy_speed.Transfer.Offer.{
  ResumeApplication, flatten, plan_stripes, planned_resume_stripes, overlaps, apply_task,
  apply_lane, apply_lanes, apply_resume_offer,
}
use networkcopy_speed.Transfer.Offer.Sets.{set_contains-All, set_insert-or, within-set_contains}
use networkcopy_speed.Transfer.Offer.Left.{
  covers, resumed, apply_lanes-Kept, apply_pack-carries, apply_stripe-Kept,
}
use networkcopy_speed.Transfer.Offer.Applied.{apply_resume_offer-Applied}

false_clash : false ≢ true
false_clash e = cc

not_it :
    (f id : ℕ) (unchanged : List ℕ)
    → set_contains ltb f unchanged ≡ true
    → set_contains ltb id unchanged ≡ false
    → (id == f) ≡ false
not_it f id unchanged gone kept = elim (Bool-cases (id == f)) [
  | inl e ↦
      absurd (false_clash (sym kept ∙ ap (λ k. set_contains ltb k unchanged) (==→eq id f e) ∙ gone))
  | inr e ↦ e
]

whole_other :
    (f byte id : ℕ) → (id == f) ≡ false → tasks_sum (carries f byte) (whole_file id ∷ []) ≡ 0
whole_other f byte id e = rw e refl

none_overlap :
    (offered : List ResumeStripe) (unchanged : List ℕ)
    → overlaps offered unchanged ≡ false
    → All (λ t. set_contains ltb t.file_id unchanged ≡ false) offered
none_overlap [] unchanged e = tt
none_overlap (t ∷ offered) unchanged e =
    (ground arith, none_overlap offered unchanged (ground arith))

occurrences-retain_gone :
    (f : ℕ) (unchanged ids : List ℕ)
    → set_contains ltb f unchanged ≡ true
    → occurrences f (retain (λ id. not (set_contains ltb id unchanged)) ids) ≡ 0
occurrences-retain_gone f unchanged [] gone = refl
occurrences-retain_gone f unchanged (id ∷ ids) gone =
    elim (Bool-cases (set_contains ltb id unchanged)) [
      | inl e ↦ rw (retain, e) (occurrences-retain_gone f unchanged ids gone)
      | inr e ↦
          let other = not_it f id unchanged gone e in
          rw (retain, e) (rw other (omega (arith, occurrences-retain_gone f unchanged ids gone)))
    ]

apply_task_gone :
    (f byte : ℕ) (manifest : List ManifestEntry) (offered : List ResumeStripe) (unchanged : List ℕ)
    (task : TransferTask) (a : ResumeApplication) {left : List TransferTask}
    {a' : ResumeApplication}
    → set_contains ltb f unchanged ≡ true
    → apply_task manifest offered unchanged task a ≡ ok (left, a')
    → tasks_sum (carries f byte) left ≡ 0
unfolding apply_task
apply_task_gone f byte manifest offered unchanged (whole_file id) a gone e =
    elim (Bool-cases (set_contains ltb id unchanged)) [
      | inl z ↦ ap (λ p. tasks_sum (carries f byte) p.0) (sym (ok-injective (rw z at e)))
      | inr z ↦
          let same = ap (λ p. tasks_sum (carries f byte) p.0) (sym (ok-injective (rw z at e))) in
          same ∙ whole_other f byte id (not_it f id unchanged gone z)
    ]
apply_task_gone f byte manifest offered unchanged (stripe id offset bytes) a gone e =
    elim (Bool-cases (set_contains ltb id unchanged)) [
      | inl z ↦ ap (λ p. tasks_sum (carries f byte) p.0) (sym (ok-injective (rw z at e)))
      | inr z ↦
          let kept = apply_stripe-Kept f byte offered id offset bytes a (rw z at e) in
          let none_of : carries f byte (stripe id offset bytes) ≡ 0 =
            (rw (not_it f id unchanged gone z) refl) in
          omega (arith, kept, none_of)
    ]
apply_task_gone f byte manifest offered unchanged (tiny_pack ids total_bytes) a gone e =
    apply_pack-carries f byte manifest (retain (λ id. not (set_contains ltb id unchanged)) ids) a e
    ∙ occurrences-retain_gone f unchanged ids gone

apply_lane_gone :
    (f byte : ℕ) (manifest : List ManifestEntry) (offered : List ResumeStripe) (unchanged : List ℕ)
    (tasks : List TransferTask) (a : ResumeApplication) {left : List TransferTask}
    {a' : ResumeApplication}
    → set_contains ltb f unchanged ≡ true
    → apply_lane manifest offered unchanged tasks a ≡ ok (left, a')
    → tasks_sum (carries f byte) left ≡ 0
unfolding apply_lane
apply_lane_gone f byte manifest offered unchanged [] a gone e =
    ap (λ p. tasks_sum (carries f byte) p.0) (sym (ok-injective e))
apply_lane_gone f byte manifest offered unchanged (task ∷ tasks) a gone e =
    let ((l, b), t, e₁) = >>=-eq_ok (apply_task manifest offered unchanged task a) _ e in
    let ((rest, c), r, e₂) = >>=-eq_ok (apply_lane manifest offered unchanged tasks b) _ e₁ in
    let same = ap (λ p. tasks_sum (carries f byte) p.0) (ok-injective e₂) in
    omega (
      arith,
      same,
      tasks_sum-append (carries f byte) l rest,
      apply_task_gone f byte manifest offered unchanged task a gone t,
      apply_lane_gone f byte manifest offered unchanged tasks b gone r,
    )

apply_lanes_gone :
    (f byte : ℕ) (manifest : List ManifestEntry) (offered : List ResumeStripe) (unchanged : List ℕ)
    (lanes : List (List TransferTask)) (a : ResumeApplication) {lanes' : List (List TransferTask)}
    {a' : ResumeApplication}
    → set_contains ltb f unchanged ≡ true
    → apply_lanes manifest offered unchanged lanes a ≡ ok (lanes', a')
    → tasks_sum (carries f byte) (flatten lanes') ≡ 0
unfolding apply_lanes
apply_lanes_gone f byte manifest offered unchanged [] a gone e =
    ap (λ p. tasks_sum (carries f byte) (flatten p.0)) (sym (ok-injective e))
apply_lanes_gone f byte manifest offered unchanged (lane ∷ lanes) a gone e =
    let ((l, b), t, e₁) = >>=-eq_ok (apply_lane manifest offered unchanged lane a) _ e in
    let ((rest, c), r, e₂) = >>=-eq_ok (apply_lanes manifest offered unchanged lanes b) _ e₁ in
    let same = ap (λ p. tasks_sum (carries f byte) (flatten p.0)) (ok-injective e₂) in
    omega (
      arith,
      same,
      tasks_sum-append (carries f byte) l (flatten rest),
      apply_lane_gone f byte manifest offered unchanged lane a gone t,
      apply_lanes_gone f byte manifest offered unchanged lanes b gone r,
    )

-- A planned stripe that is offered and has the byte is that of a task, which is resumed.
plan_stripes-resumed :
    (offered : List ResumeStripe) (f byte : ℕ) (s : ResumeStripe) (tasks : List TransferTask)
    (planned : List ResumeStripe) {planned' : List ResumeStripe}
    → plan_stripes tasks planned ≡ ok planned'
    → set_contains before_stripe s planned' ≡ true
    → set_contains before_stripe s offered ≡ true
    → covers f byte s ≡ true
    → (set_contains before_stripe s planned ≡ true) ⊎ (0 < tasks_sum (resumed offered f byte) tasks)
unfolding plan_stripes new_stripe
plan_stripes-resumed offered f byte s [] planned e c o v = inl (rw (ok-injective e) c)
plan_stripes-resumed offered f byte s (whole_file id ∷ tasks) planned e c o v =
    elim (plan_stripes-resumed offered f byte s tasks planned e c o v) [
      | inl x ↦ inl x
      | inr x ↦ inr (omega (arith, x))
    ]
plan_stripes-resumed offered f byte s (tiny_pack ids bytes ∷ tasks) planned e c o v =
    elim (plan_stripes-resumed offered f byte s tasks planned e c o v) [
      | inl x ↦ inl x
      | inr x ↦ inr (omega (arith, x))
    ]
plan_stripes-resumed offered f byte s (stripe id offset bytes ∷ tasks) planned e c o v =
    let (new, n, e₁) = >>=-eq_ok (new_stripe id offset bytes) _ e in
    let (_, _, n') = >>=-eq_ok (reject_if (bytes == 0) _) _ n in
    let (_, _, e₂) = >>=-eq_ok (reject_if (not (set_insert before_stripe new planned).1) _) _ e₁ in
    let own : ResumeStripe = record { file_id = id; offset = offset; length = bytes } in
    let is : own ≡ new = ok-injective n' in
    elim (plan_stripes-resumed offered f byte s tasks (set_insert before_stripe new planned).0 e₂ c
      o v) [
        | inr x ↦ inr (omega (arith, x))
        | inl x ↦ elim (set_insert-or before_stripe before_stripe-IsOrder s new planned x) [
          | inr old ↦ inl old
          | inl same ↦
              let here : s ≡ own = same ∙ sym is in
              let offered_too : set_contains before_stripe own offered ≡ true =
                (subst (λ t. set_contains before_stripe t offered ≡ true) here o) in
              let has : covers f byte own ≡ true = (subst (λ t. covers f byte t ≡ true) here v) in
              inr (rw (offered_too, has) (omega arith))
        ]
      ]

overlaps-none :
    (s : ResumeStripe) (offered : List ResumeStripe) (unchanged : List ℕ)
    → overlaps offered unchanged ≡ false
    → set_contains before_stripe s offered ≡ true
    → set_contains ltb s.file_id unchanged ≡ false
overlaps-none s offered unchanged e c =
    set_contains-All before_stripe before_stripe-IsOrder
      (λ t. set_contains ltb t.file_id unchanged ≡ false) s offered
      (none_overlap offered unchanged e) c

-- Behind an applied offer no task carries a byte that the plan carried once, where an offered stripe has
-- it or its file is offered as unchanged.
pub apply_resume_offer_once :
    (lanes : List (List TransferTask)) (manifest : List ManifestEntry) (offered : List ResumeStripe)
    (unchanged : List ℕ) (lanes' : List (List TransferTask)) (a : ResumeApplication) (f byte : ℕ)
    → apply_resume_offer lanes manifest offered unchanged ≡ ok (lanes', a)
    → tasks_sum (carries f byte) (flatten lanes) ≡ 1
    → ((s : ResumeStripe) × (set_contains before_stripe s offered ≡ true)
        × (covers f byte s ≡ true))
      ⊎ (set_contains ltb f unchanged ≡ true)
    → tasks_sum (carries f byte) (flatten lanes') ≡ 0
unfolding planned_resume_stripes
apply_resume_offer_once lanes manifest offered unchanged lanes' a f byte e once named =
    let d = apply_resume_offer-Applied lanes manifest offered unchanged e in
    elim named [
      | inr gone ↦ apply_lanes_gone f byte manifest offered unchanged lanes d.before gone d.result
      | inl (s, o, v) ↦
          let file : s.file_id ≡ f = ==→eq s.file_id f (ground arith) in
          let kept : set_contains ltb f unchanged ≡ false =
            subst (λ i. set_contains ltb i unchanged ≡ false) file
              (overlaps-none s offered unchanged d.no_overlap o) in
          let there =
            within-set_contains before_stripe before_stripe-IsOrder s offered d.planned d.is_within
              o in
          elim (plan_stripes-resumed offered f byte s (flatten lanes) [] d.is_planned there o v) [
            | inl x ↦ absurd (false_clash x)
            | inr x ↦ omega (
              arith,
              once,
              x,
              apply_lanes-Kept f byte manifest offered unchanged lanes d.before kept d.result,
            )
          ]
    ]
