-- ===== src/Transfer/Offer/Tests.antt =====
-- A concrete offer, and the theorems on it.
use networkcopy_speed.Common.{ℕ, ◌≡◌, refl, inl, true, List, [], ◌∷◌, ok}
use networkcopy_speed.Resume.Sets.{set_insert, set_contains}
use networkcopy_speed.Resume.Journal.{ResumeStripe, before_stripe, new_stripe}
use networkcopy_speed.Transfer.Manifest.{ManifestEntry, FileClass, tiny, medium, large}
use networkcopy_speed.Transfer.Plan.{TransferTask, whole_file, tiny_pack, stripe}
use networkcopy_speed.Transfer.Plan.Measure.{tasks_sum}
use networkcopy_speed.Transfer.Plan.Hits.{carries}
use networkcopy_speed.Transfer.Offer.{
  ResumeApplication, flatten, plan_stripes, planned_resume_stripes, validate_resume_offer,
  known_files, validate_unchanged_offer, add_lane_counts, apply_unchanged, sum_tiny,
  summarize_tiny_pack, apply_pack, count_resumed, apply_stripe, apply_task, apply_lane, apply_lanes,
  apply_resume_offer,
}
use networkcopy_speed.Transfer.Offer.Applied.{apply_resume_offer-carries}
use networkcopy_speed.Transfer.Offer.Gone.{apply_resume_offer_once}

abbrev entry_of : ℕ → FileClass → ManifestEntry
entry_of size class = record {
  relative_path = size ∷ [];
  file_size = size;
  last_write_time = 0;
  file_attributes = 0;
  class = class;
}

abbrev some_manifest : List ManifestEntry
some_manifest = entry_of 7 tiny ∷ entry_of 90 medium ∷ entry_of 20 large ∷ entry_of 5 tiny ∷ []

abbrev some_lanes : List (List TransferTask)
some_lanes =
    (stripe 2 0 10 ∷ whole_file 1 ∷ []) ∷ (stripe 2 10 10 ∷ tiny_pack (0 ∷ 3 ∷ []) 12 ∷ []) ∷ []

abbrev second_half : ResumeStripe
second_half = record { file_id = 2; offset = 10; length = 10 }

abbrev left_lanes : List (List TransferTask)
left_lanes = (stripe 2 0 10 ∷ whole_file 1 ∷ []) ∷ (tiny_pack (0 ∷ []) 7 ∷ []) ∷ []

abbrev counts : ResumeApplication
counts = record {
  logical_report = record { files_copied = 1; bytes_copied = 15 };
  stripe_count = 1;
  resumed_bytes = 10;
  unchanged_file_count = 1;
  unchanged_bytes = 5;
}

-- The second half of a striped file and a tiny file are offered.
some_offer :
    apply_resume_offer some_lanes some_manifest (second_half ∷ []) (3 ∷ [])
    ≡ ok (left_lanes, counts)
unfolding apply_resume_offer validate_resume_offer planned_resume_stripes plan_stripes new_stripe
    set_insert before_stripe validate_unchanged_offer known_files apply_unchanged add_lane_counts
    apply_lanes apply_lane apply_task apply_stripe count_resumed apply_pack summarize_tiny_pack
    sum_tiny
some_offer = refl

apply_resume_offer-carries_example :
    tasks_sum (carries 2 3) (flatten left_lanes) ≡ tasks_sum (carries 2 3) (flatten some_lanes)
apply_resume_offer-carries_example =
    apply_resume_offer-carries some_lanes some_manifest (second_half ∷ []) (3 ∷ []) left_lanes
      counts 2 3 some_offer refl (refl, tt)

second_half_offered : set_contains before_stripe second_half (second_half ∷ []) ≡ true
unfolding before_stripe
second_half_offered = refl

apply_resume_offer_once_example : tasks_sum (carries 2 13) (flatten left_lanes) ≡ 0
apply_resume_offer_once_example =
    apply_resume_offer_once some_lanes some_manifest (second_half ∷ []) (3 ∷ []) left_lanes counts 2
      13 some_offer refl (inl (second_half, second_half_offered, refl))
