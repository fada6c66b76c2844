-- ===== src/Transfer/Plan/Measure.antt =====
-- multistream_copy.rs: sums over the tasks of a plan's lanes, and what the planner's loops add to them.
use networkcopy_speed.Common.{
  ℕ, zero, suc, ◌+◌, ◌≡◌, refl, ap, ◌∙◌, List, [], ◌∷◌, ◌++◌, arith, IoError, ok, >>=-eq_ok,
  ok-injective,
}
use networkcopy_speed.Transfer.Manifest.{ManifestEntry}
use networkcopy_speed.Transfer.Plan.{
  TransferTask, whole_file, tiny_pack, Lane, assign, assign_whole_files, assign_packs, empty_lanes,
  size_of,
}
use networkcopy_speed.Transfer.Plan.Lanes.{assign-Assigned, with_task}

module _ (measure : TransferTask → ℕ) where
  -- The sum of the measures of a lane's tasks.
  abbrev pub tasks_sum : List TransferTask → ℕ
  tasks_sum [] = 0
  tasks_sum (t ∷ ts) = measure t + tasks_sum ts

  -- The sum of the measures of all the lanes' tasks.
  abbrev pub lanes_sum : List Lane → ℕ
  lanes_sum [] = 0
  lanes_sum (l ∷ ls) = tasks_sum l.tasks + lanes_sum ls

  pub tasks_sum-append :
      (ts : List TransferTask) (us : List TransferTask)
      → tasks_sum (ts ++ us) ≡ tasks_sum ts + tasks_sum us
  tasks_sum-append [] us = omega arith
  tasks_sum-append (t ∷ ts) us = omega (arith, tasks_sum-append ts us)

  lanes_sum-append : (ls ks : List Lane) → lanes_sum (ls ++ ks) ≡ lanes_sum ls + lanes_sum ks
  lanes_sum-append [] ks = omega arith
  lanes_sum-append (l ∷ ls) ks = omega (arith, lanes_sum-append ls ks)

  -- An assignment adds its task's measure.
  pub lanes_sum-assign :
      (task : TransferTask) (bytes : ℕ) (overflowed : IoError) (lanes : List Lane)
      {lanes' : List Lane}
      → assign task bytes overflowed lanes ≡ ok lanes'
      → lanes_sum lanes' ≡ lanes_sum lanes + measure task
  lanes_sum-assign task bytes o lanes {lanes'} e =
      let a = assign-Assigned task bytes o lanes e in
      let was = ap lanes_sum a.before ∙ lanes_sum-append a.front (a.lane ∷ a.back) in
      let is =
        ap lanes_sum a.after ∙ lanes_sum-append a.front (with_task a.lane task bytes ∷ a.back) in
      let more = tasks_sum-append a.lane.tasks (task ∷ []) in omega (arith, was, is, more)

  pub lanes_sum-empty_lanes : (n : ℕ) → lanes_sum (empty_lanes n) ≡ 0
  lanes_sum-empty_lanes zero = refl
  lanes_sum-empty_lanes (suc n) = omega (arith, lanes_sum-empty_lanes n)

  abbrev pub files_sum : List ℕ → ℕ
  files_sum [] = 0
  files_sum (id ∷ ids) = measure (whole_file id) + files_sum ids

  abbrev pub packs_sum : List (List ℕ × ℕ) → ℕ
  packs_sum [] = 0
  packs_sum ((ids, bytes) ∷ packs) = measure (tiny_pack ids bytes) + packs_sum packs

  pub packs_sum-append :
      (ps qs : List (List ℕ × ℕ)) → packs_sum (ps ++ qs) ≡ packs_sum ps + packs_sum qs
  packs_sum-append [] qs = omega arith
  packs_sum-append ((ids, bytes) ∷ ps) qs = omega (arith, packs_sum-append ps qs)

  pub lanes_sum-assign_whole_files :
      (manifest : List ManifestEntry) (ids : List ℕ) (lanes : List Lane) {lanes' : List Lane}
      → assign_whole_files manifest ids lanes ≡ ok lanes'
      → lanes_sum lanes' ≡ lanes_sum lanes + files_sum ids
  unfolding assign_whole_files
  lanes_sum-assign_whole_files manifest [] lanes e = omega (arith, ap lanes_sum (ok-injective e))
  lanes_sum-assign_whole_files manifest (id ∷ ids) lanes e =
      let (mid, m, e') = >>=-eq_ok (assign (whole_file id) (size_of manifest id) _ lanes) _ e in
      let one = lanes_sum-assign (whole_file id) (size_of manifest id) _ lanes m in
      omega (arith, one, lanes_sum-assign_whole_files manifest ids mid e')

  pub lanes_sum-assign_packs :
      (packs : List (List ℕ × ℕ)) (lanes : List Lane) {lanes' : List Lane}
      → assign_packs packs lanes ≡ ok lanes'
      → lanes_sum lanes' ≡ lanes_sum lanes + packs_sum packs
  unfolding assign_packs
  lanes_sum-assign_packs [] lanes e = omega (arith, ap lanes_sum (ok-injective e))
  lanes_sum-assign_packs ((ids, bytes) ∷ packs) lanes e =
      let (mid, m, e') = >>=-eq_ok (assign (tiny_pack ids bytes) bytes _ lanes) _ e in
      let one = lanes_sum-assign (tiny_pack ids bytes) bytes _ lanes m in
      omega (arith, one, lanes_sum-assign_packs packs mid e')
