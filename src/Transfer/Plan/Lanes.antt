-- ===== src/Transfer/Plan/Lanes.antt =====
-- multistream_copy.rs: what one assignment of a task does to the lanes.
use networkcopy_speed.Common.{
  ℕ, zero, suc, ◌+◌, ◌≤◌, ◌≡◌, refl, sym, ap, subst, ◌∙◌, true, false, Bool-cases, ok_or-eq_ok,
  ok-injective, inl, inr, List, [], ◌∷◌, ◌++◌, length, length-append, get_elem?, All, All-append,
  All-mono, some, arith, IoError, ok, ok_or, checked_add, checked_add-eq_some, >>=-eq_ok,
}
use mathlib.Core.List.{append_assoc}
use networkcopy_speed.Transfer.Plan.{
  TransferTask, Lane, is_lighter, lightest_from, least_loaded_lane, push_task, assign,
}

-- The lane with one more task.
abbrev pub with_task : Lane → TransferTask → ℕ → Lane
with_task lane task bytes = record {
  tasks = lane.tasks ++ task ∷ [];
  assigned_bytes = lane.assigned_bytes + bytes;
}

abbrev pub Lightest : Lane → List Lane → Type 0
Lightest lane lanes = All (λ x. lane.assigned_bytes ≤ x.assigned_bytes) lanes

-- The new lanes are the old ones, but that one of the lightest has the task.
pub record Assigned (task : TransferTask) (bytes : ℕ) (lanes lanes' : List Lane) : Type 0 where
  pub front : List Lane
  pub lane : Lane
  pub back : List Lane
  pub before : lanes ≡ front ++ lane ∷ back
  pub after : lanes' ≡ front ++ with_task lane task bytes ∷ back
  pub lightest : Lightest lane lanes

module _ {ℓ} {A : Type ℓ} where
  get_elem?-front :
      (xs ys : List A) (i : ℕ) {a : A} → get_elem? xs i ≡ some a → get_elem? (xs ++ ys) i ≡ some a
  get_elem?-front [] ys i e = cc
  get_elem?-front (x ∷ xs) ys zero e = e
  get_elem?-front (x ∷ xs) ys (suc i) e = get_elem?-front xs ys i e

  get_elem?-length :
      (xs : List A) (a : A) (ys : List A) → get_elem? (xs ++ a ∷ ys) (length xs) ≡ some a
  get_elem?-length [] a ys = refl
  get_elem?-length (x ∷ xs) a ys = get_elem?-length xs a ys

-- The index names a lane that is lightest of all.
pub record Chosen (index : ℕ) (lanes : List Lane) : Type 0 where
  pub lane : Lane
  pub there : get_elem? lanes index ≡ some lane
  pub lightest : Lightest lane lanes

is_lighter-le : (a b : Lane) → is_lighter a b ≡ true → a.assigned_bytes ≤ b.assigned_bytes
unfolding is_lighter
is_lighter-le a b e = ground arith

not_lighter-le : (a b : Lane) → is_lighter a b ≡ false → b.assigned_bytes ≤ a.assigned_bytes
unfolding is_lighter
not_lighter-le a b e = ground arith

lightest_from-Chosen :
    (done : List Lane) (best : ℕ) (lane : Lane) (next : ℕ) (ls : List Lane)
    → next ≡ length done
    → get_elem? done best ≡ some lane
    → Lightest lane done
    → Chosen (lightest_from best lane next ls) (done ++ ls)
unfolding lightest_from
lightest_from-Chosen done best lane next [] n g light = record {
  lane = lane;
  there = get_elem?-front done [] best g;
  lightest = All-append (λ x. lane.assigned_bytes ≤ x.assigned_bytes) done [] light tt;
}
lightest_from-Chosen done best lane next (l ∷ ls) n g light =
    let grown : next + 1 ≡ length (done ++ l ∷ []) =
      omega (arith, n, length-append done (l ∷ [])) in
    elim (Bool-cases (is_lighter l lane)) [
      | inl e ↦
          let less = is_lighter-le l lane e in
          rw (e, lightest_from, ← append_assoc done (l ∷ []) ls)
            (lightest_from-Chosen (done ++ l ∷ []) next l (next + 1) ls grown
              (subst (λ i. get_elem? (done ++ l ∷ []) i ≡ some l) (sym n)
                (get_elem?-length done l []))
              (All-append (λ x. l.assigned_bytes ≤ x.assigned_bytes) done (l ∷ [])
                (All-mono (λ x h. omega (arith, h, less)) done light) (omega arith, tt)))
      | inr e ↦
          let less = not_lighter-le l lane e in
          rw (e, lightest_from, ← append_assoc done (l ∷ []) ls)
            (lightest_from-Chosen (done ++ l ∷ []) best lane (next + 1) ls grown
              (get_elem?-front done (l ∷ []) best g)
              (All-append (λ x. lane.assigned_bytes ≤ x.assigned_bytes) done (l ∷ []) light
                (less, tt)))
    ]

pub least_loaded_lane-Chosen :
    (lanes : List Lane) {index : ℕ} → least_loaded_lane lanes ≡ ok index → Chosen index lanes
unfolding least_loaded_lane
least_loaded_lane-Chosen [] e = cc
least_loaded_lane-Chosen (l ∷ ls) {index} e =
    let same : lightest_from 0 l 1 ls ≡ index = cc in
    subst (λ i. Chosen i (l ∷ ls)) same
      (lightest_from-Chosen (l ∷ []) 0 l 1 ls refl refl (omega arith, tt))

record Pushed (task : TransferTask) (bytes : ℕ) (lane : Lane) (lanes lanes' : List Lane)
    : Type 0 where
  front : List Lane
  back : List Lane
  before : lanes ≡ front ++ lane ∷ back
  after : lanes' ≡ front ++ with_task lane task bytes ∷ back

push_task-Pushed :
    (index : ℕ) (task : TransferTask) (bytes : ℕ) (overflowed : IoError) (lanes : List Lane)
    {lanes' : List Lane} {lane : Lane}
    → get_elem? lanes index ≡ some lane
    → push_task index task bytes overflowed lanes ≡ ok lanes'
    → Pushed task bytes lane lanes lanes'
unfolding push_task
push_task-Pushed index task bytes o [] g e = cc
push_task-Pushed zero task bytes o (l ∷ ls) {lanes'} {lane} g e =
    let same : l ≡ lane = cc in
    let (sum, a, e') = >>=-eq_ok (ok_or (checked_add l.assigned_bytes bytes) o) _ e in
    let (is_sum, _) = checked_add-eq_some l.assigned_bytes bytes (ok_or-eq_ok _ o a) in
    record {
      front = [];
      back = ls;
      before = ap (◌∷ ls) same;
      after =
          sym (ok-injective e')
          ∙ ap (λ b. record { tasks = l.tasks ++ task ∷ []; assigned_bytes = b } ∷ ls) is_sum
          ∙ ap (λ x. with_task x task bytes ∷ ls) same;
    }
push_task-Pushed (suc index) task bytes o (l ∷ ls) {lanes'} {lane} g e =
    let (rest, r, e') = >>=-eq_ok (push_task index task bytes o ls) _ e in
    let p = push_task-Pushed index task bytes o ls g r in
    record {
      front = l ∷ p.front;
      back = p.back;
      before = ap (◌∷◌ l) p.before;
      after = sym (ok-injective e') ∙ ap (◌∷◌ l) p.after;
    }

pub assign-Assigned :
    (task : TransferTask) (bytes : ℕ) (overflowed : IoError) (lanes : List Lane)
    {lanes' : List Lane}
    → assign task bytes overflowed lanes ≡ ok lanes'
    → Assigned task bytes lanes lanes'
unfolding assign
assign-Assigned task bytes o lanes {lanes'} e =
    let (index, i, e') = >>=-eq_ok (least_loaded_lane lanes) _ e in
    let c = least_loaded_lane-Chosen lanes i in
    let p = push_task-Pushed index task bytes o lanes c.there e' in
    record {
      front = p.front;
      lane = c.lane;
      back = p.back;
      before = p.before;
      after = p.after;
      lightest = c.lightest;
    }
