-- ===== src/Manager/Queue/History.antt =====
-- TransferQueue under every sequence of its operations.
use networkcopy_speed.Common.{
  ℕ, ◌≤◌, ◌<◌, ◌≡◌, ap, Bool, true, false, ◌&&◌, not, List, [], ◌∷◌, some, arith, ok, err,
  Result-cases, inl, inr, ◌==◌,
}
use networkcopy_speed.Manager.Text.{Text}
use networkcopy_speed.Manager.Queue.Request.{
  QueuedTransferRequest, QueuedTransferState, may_retain_active_binding, Outcome,
}
use networkcopy_speed.Manager.Queue.Binding.{ActiveQueueBinding}
use networkcopy_speed.Manager.Queue.Invariant.{IsValid}
use networkcopy_speed.Manager.Queue.Preserve.{
  add-eq_ok, add-IsValid, move_up-IsValid, move_down-IsValid, remove-IsValid,
  clear_completed-IsValid,
}
use networkcopy_speed.Manager.Queue.States.{
  set_state-IsValid, reset_to_pending-IsValid, skip-IsValid, set_active_binding-IsValid,
  clear_active_binding-IsValid,
}
use networkcopy_speed.Manager.Queue.{
  TransferQueue, default, add_with_desktop_layout, move_up, move_down, remove, clear_completed,
  set_state, reset_to_pending, skip, set_active_binding, clear_active_binding,
  set_paused_after_current, is_bound,
}

-- A call of one of the queue's public methods.
pub data Op : Type 0 where
  adds : QueuedTransferRequest → Bool → Op
  moves_up moves_down removes resets skips : ℕ → Op
  clears_completed clears_binding : Op
  sets_state : ℕ → QueuedTransferState → Text → Op
  binds : ActiveQueueBinding → Op
  pauses : Bool → Op

-- The queue after a fallible call: an error leaves it as it was.
abbrev after_add : TransferQueue → Outcome (TransferQueue × ℕ) → TransferQueue
after_add q (ok (r, id)) = r
after_add q (err e) = q

abbrev after : TransferQueue → Outcome TransferQueue → TransferQueue
after q (ok r) = r
after q (err e) = q

unfoldable pub step : TransferQueue → Op → TransferQueue
step q (adds request layout) = after_add q (add_with_desktop_layout q request layout)
step q (moves_up id) = (move_up q id).0
step q (moves_down id) = (move_down q id).0
step q (removes id) = (remove q id).0
step q (resets id) = (reset_to_pending q id).0
step q (skips id) = (skip q id).0
step q clears_completed = (clear_completed q).0
step q clears_binding = (clear_active_binding q).0
step q (sets_state id state message) = after q (set_state q id state message)
step q (binds b) = after q (set_active_binding q b)
step q (pauses paused) = set_paused_after_current q paused

unfoldable pub run : TransferQueue → List Op → TransferQueue
run q [] = q
run q (op ∷ ops) = run (step q op) ops

pauses-IsValid : (q : TransferQueue) (p : Bool) → IsValid q → IsValid (set_paused_after_current q p)
unfolding set_paused_after_current
pauses-IsValid q p v = record {
  positive = v.positive;
  bounded = v.bounded;
  items_valid = v.items_valid;
  distinct = v.distinct;
  retained = v.retained;
}

pub step-IsValid : (q : TransferQueue) (op : Op) → IsValid q → IsValid (step q op)
unfolding step
step-IsValid q (adds request layout) v =
    elim (Result-cases (add_with_desktop_layout q request layout)) [
      | inl ((r, id), e) ↦ rw (e, after_add) (add-IsValid q r request layout id e v)
      | inr (m, e) ↦ rw (e, after_add) v
    ]
step-IsValid q (moves_up id) v = move_up-IsValid q id v
step-IsValid q (moves_down id) v = move_down-IsValid q id v
step-IsValid q (removes id) v = remove-IsValid q id v
step-IsValid q (resets id) v = reset_to_pending-IsValid q id v
step-IsValid q (skips id) v = skip-IsValid q id v
step-IsValid q clears_completed v = clear_completed-IsValid q v
step-IsValid q clears_binding v = clear_active_binding-IsValid q v
step-IsValid q (sets_state id state message) v =
    elim (Result-cases (set_state q id state message)) [
      | inl (r, e) ↦ rw (e, after) (set_state-IsValid q r id state message e v)
      | inr (m, e) ↦ rw (e, after) v
    ]
step-IsValid q (binds b) v = elim (Result-cases (set_active_binding q b)) [
  | inl (r, e) ↦ rw (e, after) (set_active_binding-IsValid q r b e v)
  | inr (m, e) ↦ rw (e, after) v
]
step-IsValid q (pauses p) v = pauses-IsValid q p v

pub run-IsValid : (q : TransferQueue) (ops : List Op) → IsValid q → IsValid (run q ops)
unfolding run
run-IsValid q [] v = v
run-IsValid q (op ∷ ops) v = run-IsValid (step q op) ops (step-IsValid q op v)

pub default-IsValid : IsValid default
unfolding default
default-IsValid = record {
  positive = omega arith;
  bounded = omega arith;
  items_valid = tt;
  distinct = tt;
  retained = tt;
}

-- Whatever sequence of calls of its methods is made on a new queue, the queue that results has a positive
-- next id, at most 256 entries, valid entries with distinct ids below the next id, and an active binding
-- only of an entry that is running or blocked.
pub run-default-IsValid : (ops : List Op) → IsValid (run default ops)
run-default-IsValid ops = run-IsValid default ops default-IsValid

step-next_id-le : (q : TransferQueue) (op : Op) → q.next_id ≤ (step q op).next_id
unfolding step add_with_desktop_layout move_up move_down remove clear_completed set_state
    reset_to_pending skip set_active_binding clear_active_binding set_paused_after_current
step-next_id-le q (adds request layout) = ground arith
step-next_id-le q op = ground arith

run-next_id-le : (q : TransferQueue) (ops : List Op) → q.next_id ≤ (run q ops).next_id
unfolding run
run-next_id-le q [] = omega arith
run-next_id-le q (op ∷ ops) = omega (arith, step-next_id-le q op, run-next_id-le (step q op) ops)

-- An id that `add` hands out is below every id that an `add` after it hands out, whatever calls
-- stand between the two, removals included.
pub add-lt-add :
    (q r s t : TransferQueue) (first second : QueuedTransferRequest) (k l : Bool) (i j : ℕ)
    (ops : List Op)
    → add_with_desktop_layout q first k ≡ ok (r, i)
    → run r ops ≡ s
    → add_with_desktop_layout s second l ≡ ok (t, j)
    → i < j
add-lt-add q r s t first second k l i j ops e f g =
    let (_, _, ei, er) = add-eq_ok q r first k i e in
    let (_, _, ej, _) = add-eq_ok s t second l j g in
    let grown = run-next_id-le r ops in
    omega (
      arith,
      grown,
      ap (λ (x : TransferQueue). x.next_id) er,
      ap (λ (x : TransferQueue). x.next_id) f,
    )

-- A call that may take the binding away: `clear_active_binding`, and a write of a state that may
-- not retain it to the bound entry.
abbrev pub releases : ℕ → Op → Bool
releases bound (sets_state id state message) = not (may_retain_active_binding state) && id == bound
releases bound clears_binding = true
releases bound op = false

-- A call that is neither `clear_active_binding` nor a `set_state` of the bound entry to a state that may
-- not retain a binding leaves the active binding as it was, whether the call fails or not.
pub step-active_binding :
    (q : TransferQueue) (op : Op) (b : ActiveQueueBinding)
    → q.active_binding ≡ some b
    → releases b.queue_id op ≡ false
    → (step q op).active_binding ≡ some b
unfolding step add_with_desktop_layout move_up move_down remove clear_completed set_state
    reset_to_pending skip set_active_binding clear_active_binding set_paused_after_current is_bound
step-active_binding q (adds request layout) b e h = ground arith
step-active_binding q op b e h = ground arith
