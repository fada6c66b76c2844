-- ===== src/Transfer/Execution/Parts.antt =====
-- multistream_copy.rs: the generations and the trailing lanes have the tasks of the plan, each in the
-- generation of its file.
use networkcopy_speed.Common.{
  ℕ, ◌+◌, ◌≡◌, refl, ap, subst, true, false, not, ◌&&◌, List, [], ◌∷◌, Option, none, some, length,
  All, ltb, ◌==◌, arith, ok, >>=-eq_ok, ok_or-eq_ok, ok-injective, reject_if, ok_or,
}
use networkcopy_speed.Cdc.Catalog.Types.{CatalogGeneration}
use networkcopy_speed.Transfer.Plan.{TransferTask, other_error}
use networkcopy_speed.Transfer.Plan.Hits.{carries}
use networkcopy_speed.Transfer.Fresh.{FreshGenerationPlan, has_file}
use networkcopy_speed.Transfer.Execution.{
  Lanes, FreshGenerationExecution, catalog_task_file_id, place_lanes, count_tasks, all_empty,
  check_tasks, check_lanes, check_generations, is_some, check_trailing_lane, check_trailing,
  validate_fresh_generation_execution, copies, build_fresh_generation_execution,
}
use networkcopy_speed.Transfer.Execution.Sums.{
  lists_sum, execution_sum, execution_sum-place_lanes, lists_sum-copies, generations_sum-copies,
}

-- The task is of a file of the generation.
abbrev pub IsOf : CatalogGeneration → TransferTask → Type 0
IsOf g task =
    (file_id : ℕ) × (catalog_task_file_id task ≡ some file_id)
    × (has_file file_id g.transfer_files ≡ true)

-- Generation by generation, the tasks are of its files, and a completed one has none.
abbrev pub Sorted : ℕ → ℕ → List CatalogGeneration → List Lanes → Type 0
Sorted completed index (g ∷ gs) (lanes ∷ generations) =
    All (All (IsOf g)) lanes
    × ((ltb index completed && not (all_empty lanes)) ≡ false)
    × Sorted completed (index + 1) gs generations
Sorted completed index [] generations = Unit {0}
Sorted completed index (g ∷ gs) [] = Unit {0}

-- The task is a pack.
abbrev pub Trails : TransferTask → Type 0
Trails task = catalog_task_file_id task ≡ none

check_tasks-IsOf :
    (g : CatalogGeneration) (tasks : List TransferTask) {u : Unit {0}}
    → check_tasks g tasks ≡ ok u
    → All (IsOf g) tasks
unfolding check_tasks
check_tasks-IsOf g [] e = tt
check_tasks-IsOf g (task ∷ tasks) e =
    let (file_id, f, e₁) = >>=-eq_ok (ok_or (catalog_task_file_id task) _) _ e in
    let (_, h, e₂) = >>=-eq_ok (reject_if (not (has_file file_id g.transfer_files)) _) _ e₁ in
    ((file_id, ok_or-eq_ok _ _ f, ground arith), check_tasks-IsOf g tasks e₂)

check_lanes-IsOf :
    (g : CatalogGeneration) (lanes : Lanes) {u : Unit {0}}
    → check_lanes g lanes ≡ ok u
    → All (All (IsOf g)) lanes
unfolding check_lanes
check_lanes-IsOf g [] e = tt
check_lanes-IsOf g (lane ∷ lanes) e =
    let (_, c, e₁) = >>=-eq_ok (check_tasks g lane) _ e in
    (check_tasks-IsOf g lane c, check_lanes-IsOf g lanes e₁)

check_generations-Sorted :
    (lane_count completed index : ℕ) (gs : List CatalogGeneration) (generations : List Lanes)
    {u : Unit {0}}
    → check_generations lane_count completed index gs generations ≡ ok u
    → Sorted completed index gs generations
unfolding check_generations
check_generations-Sorted lane_count completed index [] generations e = tt
check_generations-Sorted lane_count completed index (g ∷ gs) [] e = tt
check_generations-Sorted lane_count completed index (g ∷ gs) (lanes ∷ generations) e =
    let (_, _, e₁) = >>=-eq_ok (reject_if (not (length lanes == lane_count)) _) _ e in
    let (_, c, e₂) = >>=-eq_ok (reject_if (ltb index completed && not (all_empty lanes)) _) _ e₁ in
    let (_, l, e₃) = >>=-eq_ok (check_lanes g lanes) _ e₂ in
    (
      check_lanes-IsOf g lanes l,
      ground arith,
      check_generations-Sorted lane_count completed (index + 1) gs generations e₃,
    )

no_file : (o : Option ℕ) → is_some o ≡ false → o ≡ none
no_file none e = refl
no_file (some a) e = cc

check_trailing_lane-Trails :
    (tasks : List TransferTask) {u : Unit {0}} → check_trailing_lane tasks ≡ ok u → All Trails tasks
unfolding check_trailing_lane
check_trailing_lane-Trails [] e = tt
check_trailing_lane-Trails (task ∷ tasks) e =
    let (_, c, e₁) = >>=-eq_ok (reject_if (is_some (catalog_task_file_id task)) _) _ e in
    (no_file (catalog_task_file_id task) (ground arith), check_trailing_lane-Trails tasks e₁)

check_trailing-Trails :
    (lanes : Lanes) {u : Unit {0}} → check_trailing lanes ≡ ok u → All (All Trails) lanes
unfolding check_trailing
check_trailing-Trails [] e = tt
check_trailing-Trails (lane ∷ lanes) e =
    let (_, c, e₁) = >>=-eq_ok (check_trailing_lane lane) _ e in
    (check_trailing_lane-Trails lane c, check_trailing-Trails lanes e₁)

-- An execution that is built carries every byte of every file as often as the plan's lanes; its
-- generations have only tasks of their own files, and the completed ones none; and only packs trail.
pub build_fresh_generation_execution-Sorted :
    (plan : FreshGenerationPlan) (lanes : Lanes) (execution : FreshGenerationExecution) (f byte : ℕ)
    → build_fresh_generation_execution plan lanes ≡ ok execution
    → (execution_sum (carries f byte) execution ≡ lists_sum (carries f byte) lanes)
      × Sorted plan.completed_generation_count 0 plan.catalog.generations execution.generation_lanes
      × All (All Trails) execution.trailing_lanes
unfolding build_fresh_generation_execution validate_fresh_generation_execution
build_fresh_generation_execution-Sorted plan lanes execution f byte e =
    let start : FreshGenerationExecution = record {
      generation_lanes = copies (length plan.catalog.generations) (copies (length lanes) []);
      trailing_lanes = copies (length lanes) [];
    } in
    let (expected, c, e₁) =
      >>=-eq_ok (count_tasks (other_error "remaining transfer task count overflowed") 0 lanes) _
        e in
    let (x, p, e₂) = >>=-eq_ok (place_lanes plan.catalog 0 lanes start) _ e₁ in
    let (_, v, e₃) =
      >>=-eq_ok (validate_fresh_generation_execution plan x (length lanes) expected) _ e₂ in
    let same = ok-injective e₃ in
    let (_, _, v₁) =
      >>=-eq_ok
        (reject_if (ltb (length plan.catalog.generations) plan.completed_generation_count) _) _ v in
    let (_, _, v₂) =
      >>=-eq_ok (reject_if (not (length x.generation_lanes == length plan.catalog.generations)) _) _
        v₁ in
    let (_, _, v₃) = >>=-eq_ok (reject_if (not (length x.trailing_lanes == length lanes)) _) _ v₂ in
    let (_, g, v₄) =
      >>=-eq_ok
        (check_generations (length lanes) plan.completed_generation_count 0 plan.catalog.generations
          x.generation_lanes)
        _ v₃ in
    let (_, t, _) = >>=-eq_ok (check_trailing x.trailing_lanes) _ v₄ in
    let sorted =
      check_generations-Sorted (length lanes) plan.completed_generation_count 0
        plan.catalog.generations x.generation_lanes g in
    (
      omega (
        arith,
        ap (execution_sum (carries f byte)) same,
        execution_sum-place_lanes (carries f byte) plan.catalog 0 lanes start p,
        generations_sum-copies (carries f byte) (length plan.catalog.generations) (length lanes),
        lists_sum-copies (carries f byte) (length lanes),
      ),
      subst
          (λ y.
            Sorted plan.completed_generation_count 0 plan.catalog.generations y.generation_lanes)
          same sorted,
      subst (λ y. All (All Trails) y.trailing_lanes) same
          (check_trailing-Trails x.trailing_lanes t),
    )
