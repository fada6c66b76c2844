-- ===== src/Transfer/Offer/Applied.antt =====
-- multistream_copy.rs: a receiver's offer takes nothing out of the plan that it does not name.
use networkcopy_speed.Common.{
  ℕ, ◌≡◌, refl, ap, ◌∙◌, inl, inr, true, false, not, List, [], ◌∷◌, All, Bool-cases, arith, ltb,
  ◌==◌, ok, >>=-eq_ok, ok-injective, reject_if, length,
}
use networkcopy_speed.Resume.Sets.{set_contains}
use networkcopy_speed.Resume.Journal.{ResumeStripe, before_stripe}
use networkcopy_speed.Resume.Marks.{before_stripe-IsOrder}
use networkcopy_speed.Transfer.Manifest.{ManifestEntry}
use networkcopy_speed.Transfer.Plan.{TransferTask, whole_file, tiny_pack, stripe}
use networkcopy_speed.Transfer.Plan.Measure.{tasks_sum}
use networkcopy_speed.Transfer.Plan.Hits.{carries}
use networkcopy_speed.Transfer.Offer.{
  ResumeApplication, flatten, planned_resume_stripes, within, validate_resume_offer,
  validate_unchanged_offer, overlaps, apply_unchanged, nothing_applied, apply_lanes,
  apply_resume_offer,
}
use networkcopy_speed.Transfer.Offer.Sets.{set_contains-All}
use networkcopy_speed.Transfer.Offer.Left.{covers, resumed, apply_lanes-Kept}

-- The parts of an application that succeeds.
pub record Applied (lanes : List (List TransferTask)) (manifest : List ManifestEntry)
    (offered : List ResumeStripe) (unchanged : List ℕ) (lanes' : List (List TransferTask))
    : Type 0 where
  pub planned : List ResumeStripe
  pub is_planned : planned_resume_stripes lanes ≡ ok planned
  pub is_within : within before_stripe offered planned ≡ true
  pub no_overlap : overlaps offered unchanged ≡ false
  pub before : ResumeApplication
  pub behind : ResumeApplication
  pub result : apply_lanes manifest offered unchanged lanes before ≡ ok (lanes', behind)

pub apply_resume_offer-Applied :
    (lanes : List (List TransferTask)) (manifest : List ManifestEntry) (offered : List ResumeStripe)
    (unchanged : List ℕ) {lanes' : List (List TransferTask)} {a : ResumeApplication}
    → apply_resume_offer lanes manifest offered unchanged ≡ ok (lanes', a)
    → Applied lanes manifest offered unchanged lanes'
unfolding apply_resume_offer validate_resume_offer
apply_resume_offer-Applied lanes manifest offered unchanged e =
    let (_, v, e₁) = >>=-eq_ok (validate_resume_offer lanes offered) _ e in
    let (planned, p, w) = >>=-eq_ok (planned_resume_stripes lanes) _ v in
    let (_, _, e₂) = >>=-eq_ok (validate_unchanged_offer manifest unchanged) _ e₁ in
    let (_, o, e₃) = >>=-eq_ok (reject_if (overlaps offered unchanged) _) _ e₂ in
    let (before, _, e₄) = >>=-eq_ok (apply_unchanged manifest unchanged nothing_applied) _ e₃ in
    let ((left, behind), r, e₅) =
      >>=-eq_ok (apply_lanes manifest offered unchanged lanes before) _ e₄ in
    let (_, _, e₆) = >>=-eq_ok (reject_if (not (behind.stripe_count == length offered)) _) _ e₅ in
    let (_, _, e₇) =
      >>=-eq_ok (reject_if (not (behind.unchanged_file_count == length unchanged)) _) _ e₆ in
    record {
      planned = planned;
      is_planned = p;
      is_within = ground arith;
      no_overlap = ground arith;
      before = before;
      behind = behind;
      result =
          r
          ∙ ap (λ (l : List (List TransferTask)). ok (l, behind)) (ap (λ p. p.0) (ok-injective e₇));
    }

-- No offered stripe has the byte, so none of the tasks that carry it is resumed.
resumed_none :
    (offered : List ResumeStripe) (f byte : ℕ)
    → All (λ s. covers f byte s ≡ false) offered
    → (tasks : List TransferTask) → tasks_sum (resumed offered f byte) tasks ≡ 0
resumed_none offered f byte none_has [] = refl
resumed_none offered f byte none_has (whole_file id ∷ tasks) =
    omega (arith, resumed_none offered f byte none_has tasks)
resumed_none offered f byte none_has (tiny_pack ids bytes ∷ tasks) =
    omega (arith, resumed_none offered f byte none_has tasks)
resumed_none offered f byte none_has (stripe id offset bytes ∷ tasks) =
    let own : ResumeStripe = record { file_id = id; offset = offset; length = bytes } in
    let rest = resumed_none offered f byte none_has tasks in
    elim (Bool-cases (set_contains before_stripe own offered)) [
      | inl z ↦
          let missed =
            set_contains-All before_stripe before_stripe-IsOrder (λ s. covers f byte s ≡ false) own
              offered none_has z in
          rw (z, missed) (omega (arith, rest))
      | inr z ↦ rw z (omega (arith, rest))
    ]

-- An applied offer leaves every byte of a file that is not unchanged, and that no offered stripe has, to be
-- carried as often as before.
pub apply_resume_offer-carries :
    (lanes : List (List TransferTask)) (manifest : List ManifestEntry) (offered : List ResumeStripe)
    (unchanged : List ℕ) (lanes' : List (List TransferTask)) (a : ResumeApplication) (f byte : ℕ)
    → apply_resume_offer lanes manifest offered unchanged ≡ ok (lanes', a)
    → set_contains ltb f unchanged ≡ false
    → All (λ s. covers f byte s ≡ false) offered
    → tasks_sum (carries f byte) (flatten lanes') ≡ tasks_sum (carries f byte) (flatten lanes)
apply_resume_offer-carries lanes manifest offered unchanged lanes' a f byte e kept none_has =
    let d = apply_resume_offer-Applied lanes manifest offered unchanged e in
    omega (
      arith,
      apply_lanes-Kept f byte manifest offered unchanged lanes d.before kept d.result,
      resumed_none offered f byte none_has (flatten lanes),
    )
