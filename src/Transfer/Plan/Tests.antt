-- ===== src/Transfer/Plan/Tests.antt =====
-- Concrete plans, and the theorems on them at concrete inputs.
use networkcopy_speed.Common.{ℕ, ◌≡◌, refl, List, [], ◌∷◌, length, All, arith, ok}
use networkcopy_speed.Transfer.Manifest.{
  ManifestEntry, FileClass, tiny, medium, large, classify_file,
}
use networkcopy_speed.Transfer.Stripes.{div_ceil, stripe_range}
use networkcopy_speed.Transfer.Plan.{
  whole_file, tiny_pack, stripe, Lane, lightest_from, least_loaded_lane, push_task, assign,
  is_lighter, assign_stripes, classify, classify_all, large_file_stripe_count, insert_by_size,
  sort_by_size, assign_whole_files, tiny_packs_from, build_tiny_packs, assign_packs,
  build_transfer_plan,
}
use networkcopy_speed.Transfer.Plan.Measure.{lanes_sum}
use networkcopy_speed.Transfer.Plan.Hits.{carries}
use networkcopy_speed.Transfer.Plan.Coverage.{build_transfer_plan-carries}
use networkcopy_speed.Transfer.Plan.Packs.{Closed, packed_ids, build_tiny_packs-Closed}
use networkcopy_speed.Transfer.Plan.Adds.{loads}
use networkcopy_speed.Transfer.Plan.Books.{entries_sum}
use networkcopy_speed.Transfer.Plan.Total.{build_transfer_plan-entries_sum}

abbrev entry_of : ℕ → FileClass → ManifestEntry
entry_of size class = record {
  relative_path = size ∷ [];
  file_size = size;
  last_write_time = 0;
  file_attributes = 0;
  class = class;
}

-- Two tiny files around a medium and a large one.
abbrev small_manifest : List ManifestEntry
small_manifest =
    entry_of 7 tiny ∷ entry_of 1000000 medium ∷ entry_of 67108864 large ∷ entry_of 262144 tiny ∷ []

abbrev small_lanes : List Lane
small_lanes =
    record { tasks = stripe 2 0 33554432 ∷ whole_file 1 ∷ []; assigned_bytes = 34554432 }
    ∷ record {
      tasks = stripe 2 33554432 33554432 ∷ tiny_pack (0 ∷ 3 ∷ []) 262151 ∷ [];
      assigned_bytes = 33816583;
    }
    ∷ []

small_plan : build_transfer_plan small_manifest 2 ≡ ok small_lanes
unfolding build_transfer_plan classify_all classify classify_file large_file_stripe_count
    assign_stripes stripe_range div_ceil assign least_loaded_lane lightest_from is_lighter push_task
    assign_whole_files sort_by_size insert_by_size build_tiny_packs tiny_packs_from assign_packs
small_plan = refl

build_transfer_plan-carries_example : lanes_sum (carries 2 40000000) small_lanes ≡ 1
build_transfer_plan-carries_example =
    build_transfer_plan-carries small_manifest 2 2 40000000 (entry_of 67108864 large) small_lanes
      small_plan refl (omega arith)

small_packs : build_tiny_packs small_manifest (0 ∷ 3 ∷ []) ≡ ok ((0 ∷ 3 ∷ [], 262151) ∷ [])
unfolding build_tiny_packs tiny_packs_from classify_file
small_packs = refl

build_tiny_packs-Closed_example :
    All (Closed small_manifest) ((0 ∷ 3 ∷ [], 262151) ∷ [])
    × (packed_ids ((0 ∷ 3 ∷ [], 262151) ∷ []) ≡ 0 ∷ 3 ∷ [])
build_tiny_packs-Closed_example =
    build_tiny_packs-Closed small_manifest (0 ∷ 3 ∷ []) ((0 ∷ 3 ∷ [], 262151) ∷ []) small_packs

build_transfer_plan-entries_sum_example :
    (lanes : List Lane) × (build_transfer_plan small_manifest 2 ≡ ok lanes)
    × (length lanes ≡ 2)
    × (loads lanes ≡ entries_sum small_manifest)
build_transfer_plan-entries_sum_example =
    build_transfer_plan-entries_sum small_manifest 2 (omega arith) (omega arith) (omega arith)
