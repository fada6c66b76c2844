-- ===== src/Transfer/Execution/Sums.antt =====
-- multistream_copy.rs: the sorting of a plan's tasks loses none and doubles none.
use networkcopy_speed.Common.{
  ℕ, zero, suc, ◌+◌, ◌≡◌, refl, ap, List, [], ◌∷◌, Option, none, some, arith, ok, >>=-eq_ok,
  ok-injective, ok_or,
}
use networkcopy_speed.Cdc.Catalog.Types.{CatalogPlan}
use networkcopy_speed.Transfer.Plan.{TransferTask}
use networkcopy_speed.Transfer.Plan.Measure.{tasks_sum, tasks_sum-append}
use networkcopy_speed.Transfer.Fresh.{catalog_generation_index_for_file_id}
use networkcopy_speed.Transfer.Execution.{
  Lanes, FreshGenerationExecution, catalog_task_file_id, push_lane, push_generation, place_task,
  place_tasks, place_lanes, copies,
}

module _ (measure : TransferTask → ℕ) where
  abbrev pub lists_sum : Lanes → ℕ
  lists_sum [] = 0
  lists_sum (lane ∷ lanes) = tasks_sum measure lane + lists_sum lanes

  abbrev pub generations_sum : List Lanes → ℕ
  generations_sum [] = 0
  generations_sum (lanes ∷ generations) = lists_sum lanes + generations_sum generations

  -- Over all the tasks of an execution.
  abbrev pub execution_sum : FreshGenerationExecution → ℕ
  execution_sum e = generations_sum e.generation_lanes + lists_sum e.trailing_lanes

  lists_sum-push_lane :
      (lane_id : ℕ) (task : TransferTask) (lanes : Lanes) {lanes' : Lanes}
      → push_lane lane_id task lanes ≡ ok lanes'
      → lists_sum lanes' ≡ lists_sum lanes + measure task
  unfolding push_lane
  lists_sum-push_lane lane_id task [] e = cc
  lists_sum-push_lane zero task (lane ∷ lanes) e =
      let same = ap lists_sum (ok-injective e) in
      omega (arith, same, tasks_sum-append measure lane (task ∷ []))
  lists_sum-push_lane (suc lane_id) task (lane ∷ lanes) e =
      let (rest, r, e') = >>=-eq_ok (push_lane lane_id task lanes) _ e in
      let same = ap lists_sum (ok-injective e') in
      omega (arith, same, lists_sum-push_lane lane_id task lanes r)

  generations_sum-push_generation :
      (index lane_id : ℕ) (task : TransferTask) (generations : List Lanes)
      {generations' : List Lanes}
      → push_generation index lane_id task generations ≡ ok generations'
      → generations_sum generations' ≡ generations_sum generations + measure task
  unfolding push_generation
  generations_sum-push_generation index lane_id task [] e = cc
  generations_sum-push_generation zero lane_id task (lanes ∷ generations) e =
      let (lanes', l, e') = >>=-eq_ok (push_lane lane_id task lanes) _ e in
      let same = ap generations_sum (ok-injective e') in
      omega (arith, same, lists_sum-push_lane lane_id task lanes l)
  generations_sum-push_generation (suc index) lane_id task (lanes ∷ generations) e =
      let (rest, r, e') = >>=-eq_ok (push_generation index lane_id task generations) _ e in
      let same = ap generations_sum (ok-injective e') in
      omega (arith, same, generations_sum-push_generation index lane_id task generations r)

  execution_sum-place_task :
      (catalog : CatalogPlan) (lane_id : ℕ) (task : TransferTask) (file : Option ℕ)
      (x : FreshGenerationExecution) {x' : FreshGenerationExecution}
      → place_task catalog lane_id task file x ≡ ok x'
      → execution_sum x' ≡ execution_sum x + measure task
  unfolding place_task
  execution_sum-place_task catalog lane_id task none x e =
      let (trailing, t, e') = >>=-eq_ok (push_lane lane_id task x.trailing_lanes) _ e in
      let same = ap execution_sum (ok-injective e') in
      omega (arith, same, lists_sum-push_lane lane_id task x.trailing_lanes t)
  execution_sum-place_task catalog lane_id task (some file_id) x e =
      let (index, i, e₁) =
        >>=-eq_ok (ok_or (catalog_generation_index_for_file_id catalog file_id) _) _ e in
      let (generations, g, e₂) =
        >>=-eq_ok (push_generation index lane_id task x.generation_lanes) _ e₁ in
      let same = ap execution_sum (ok-injective e₂) in
      omega (arith, same, generations_sum-push_generation index lane_id task x.generation_lanes g)

  execution_sum-place_tasks :
      (catalog : CatalogPlan) (lane_id : ℕ) (tasks : List TransferTask)
      (x : FreshGenerationExecution) {x' : FreshGenerationExecution}
      → place_tasks catalog lane_id tasks x ≡ ok x'
      → execution_sum x' ≡ execution_sum x + tasks_sum measure tasks
  unfolding place_tasks
  execution_sum-place_tasks catalog lane_id [] x e =
      let same = ap execution_sum (ok-injective e) in omega (arith, same)
  execution_sum-place_tasks catalog lane_id (task ∷ tasks) x e =
      let (mid, m, e') =
        >>=-eq_ok (place_task catalog lane_id task (catalog_task_file_id task) x) _ e in
      omega (
        arith,
        execution_sum-place_task catalog lane_id task (catalog_task_file_id task) x m,
        execution_sum-place_tasks catalog lane_id tasks mid e',
      )

  pub execution_sum-place_lanes :
      (catalog : CatalogPlan) (lane_id : ℕ) (lanes : Lanes) (x : FreshGenerationExecution)
      {x' : FreshGenerationExecution}
      → place_lanes catalog lane_id lanes x ≡ ok x'
      → execution_sum x' ≡ execution_sum x + lists_sum lanes
  unfolding place_lanes
  execution_sum-place_lanes catalog lane_id [] x e =
      let same = ap execution_sum (ok-injective e) in omega (arith, same)
  execution_sum-place_lanes catalog lane_id (lane ∷ lanes) x e =
      let (mid, m, e') = >>=-eq_ok (place_tasks catalog lane_id lane x) _ e in
      omega (
        arith,
        execution_sum-place_tasks catalog lane_id lane x m,
        execution_sum-place_lanes catalog (lane_id + 1) lanes mid e',
      )

  pub lists_sum-copies : (n : ℕ) → lists_sum (copies n []) ≡ 0
  lists_sum-copies zero = refl
  lists_sum-copies (suc n) = omega (arith, lists_sum-copies n)

  pub generations_sum-copies : (n m : ℕ) → generations_sum (copies n (copies m [])) ≡ 0
  generations_sum-copies zero m = refl
  generations_sum-copies (suc n) m = omega (arith, generations_sum-copies n m, lists_sum-copies m)
