-- ===== src/Transfer/Plan/Adds.antt =====
-- multistream_copy.rs: assignments that succeed, and the bytes they add.
use networkcopy_speed.Common.{
  ℕ, zero, suc, ◌+◌, ◌<◌, ◌≡◌, refl, sym, ap, ◌∙◌, List, [], ◌∷◌, ◌++◌, length, get_elem?, some,
  arith, IoError, IoResult, ok, checked_add-lt, u64_mod, ◌>>=◌,
}
use networkcopy_speed.Transfer.Plan.{
  TransferTask, Lane, push_task, lightest_from, least_loaded_lane, assign,
}
use networkcopy_speed.Transfer.Plan.Lanes.{assign-Assigned, with_task, least_loaded_lane-Chosen}

-- The lanes' bytes together.
abbrev pub loads : List Lane → ℕ
loads [] = 0
loads (l ∷ ls) = l.assigned_bytes + loads ls

loads-append : (ls ks : List Lane) → loads (ls ++ ks) ≡ loads ls + loads ks
loads-append [] ks = omega arith
loads-append (l ∷ ls) ks = omega (arith, loads-append ls ks)

length-with_task :
    (front back : List Lane) (l l' : Lane)
    → length (front ++ l ∷ back) ≡ length (front ++ l' ∷ back)
length-with_task [] back l l' = refl
length-with_task (x ∷ front) back l l' = ap suc (length-with_task front back l l')

-- The lanes that an action makes, of as many bytes more.
pub record Adds (bytes : ℕ) (lanes : List Lane) (r : IoResult (List Lane)) : Type 0 where
  pub lanes' : List Lane
  pub result : r ≡ ok lanes'
  pub sum : loads lanes' ≡ loads lanes + bytes
  pub same_length : length lanes' ≡ length lanes

push_task_total :
    (index : ℕ) (task : TransferTask) (bytes : ℕ) (o : IoError) (lanes : List Lane) {l : Lane}
    → get_elem? lanes index ≡ some l
    → loads lanes + bytes < u64_mod
    → (lanes' : List Lane) × (push_task index task bytes o lanes ≡ ok lanes')
unfolding push_task
push_task_total index task bytes o [] g room = cc
push_task_total zero task bytes o (l ∷ ls) g room = (
  with_task l task bytes ∷ ls,
  rw (checked_add-lt l.assigned_bytes bytes (omega (arith, room))) refl,
)
push_task_total (suc index) task bytes o (l ∷ ls) g room =
    let (ls', e) = push_task_total index task bytes o ls g (omega (arith, room)) in
    (l ∷ ls', rw e refl)

assign_total :
    (task : TransferTask) (bytes : ℕ) (o : IoError) (lanes : List Lane)
    → 0 < length lanes
    → loads lanes + bytes < u64_mod
    → (lanes' : List Lane) × (assign task bytes o lanes ≡ ok lanes')
unfolding assign least_loaded_lane
assign_total task bytes o [] some_lane room = absurd (omega (arith, some_lane))
assign_total task bytes o (l ∷ ls) some_lane room =
    let c = least_loaded_lane-Chosen (l ∷ ls) {index = lightest_from 0 l 1 ls} refl in
    push_task_total (lightest_from 0 l 1 ls) task bytes o (l ∷ ls) c.there room

pub assign-Adds :
    (task : TransferTask) (bytes : ℕ) (o : IoError) (lanes : List Lane)
    → 0 < length lanes
    → loads lanes + bytes < u64_mod
    → Adds bytes lanes (assign task bytes o lanes)
assign-Adds task bytes o lanes some_lane room =
    let (lanes', e) = assign_total task bytes o lanes some_lane room in
    let a = assign-Assigned task bytes o lanes e in
    let l' = with_task a.lane task bytes in
    let was = ap loads a.before ∙ loads-append a.front (a.lane ∷ a.back) in
    let is = ap loads a.after ∙ loads-append a.front (l' ∷ a.back) in
    record {
      lanes' = lanes';
      result = e;
      sum = omega (arith, was, is);
      same_length =
          ap length a.after ∙ length-with_task a.front a.back l' a.lane ∙ sym (ap length a.before);
    }

pub Adds-bind :
    {b c : ℕ} {lanes : List Lane} {m : IoResult (List Lane)} (k : List Lane → IoResult (List Lane))
    (a : Adds b lanes m)
    → Adds c a.lanes' (k a.lanes')
    → Adds (b + c) lanes (m >>= k)
Adds-bind k a d = record {
  lanes' = d.lanes';
  result = ap (λ r. r >>= k) a.result ∙ d.result;
  sum = omega (arith, a.sum, d.sum);
  same_length = d.same_length ∙ a.same_length;
}

pub Adds-cast :
    {b c : ℕ} {lanes : List Lane} {r : IoResult (List Lane)}
    → b ≡ c
    → Adds b lanes r
    → Adds c lanes r
Adds-cast same a = record {
  lanes' = a.lanes';
  result = a.result;
  sum = omega (arith, a.sum, same);
  same_length = a.same_length;
}

pub Adds-none : (lanes : List Lane) → Adds 0 lanes (ok lanes)
Adds-none lanes = record { lanes' = lanes; result = refl; sum = omega arith; same_length = refl }
