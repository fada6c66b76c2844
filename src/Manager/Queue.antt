-- ===== src/Manager/Queue.antt =====
-- management_queue.rs: TransferQueue. An operation returns the new queue with its result; where it
-- returns an error the source has not changed the queue yet.
pub mod Request
pub mod Binding
pub mod Items
pub mod Invariant
pub mod Preserve
pub mod States
pub mod Positions
pub mod Reorder
pub mod Removal
pub mod Writes
mod Tests
pub mod Requests
pub mod History
use networkcopy_speed.Common.{
  ℕ, zero, suc, ◌+◌, ◌-◌, ◌^◌, Bool, true, false, ◌&&◌, ◌||◌, not, List, [], ◌∷◌, ◌++◌, Option,
  none, some, length, find, retain, get_elem?, swap_next, remove_at, position, Result, ok, err,
  IoError, reject_if, ok_or, ◌>>=◌, ◌>>◌, ltb, leb, ◌==◌, if◌then◌else◌,
}
use networkcopy_speed.Manager.Text
use networkcopy_speed.Manager.Text.{Text, codes}
use Request.{
  QueuedTransfer, QueuedTransferRequest, QueuedTransferState, pending, running, blocked, failed,
  completed, cancelled, is_pending, is_running, is_completed, may_retain_active_binding,
  validate_request, validate_item, validate_optional_text, Outcome,
}
use Binding.{ActiveQueueBinding, same_binding, validate_for_queue}

abbrev pub max_queue_entries : ℕ
max_queue_entries = 256

-- QueuedTransferId::from_raw; an id is its number.
pub from_raw : ℕ → Option ℕ
from_raw value = if value == 0 then none else some value

pub record TransferQueue : Type 0 where
  pub next_id : ℕ
  pub paused_after_current : Bool
  pub items : List QueuedTransfer
  pub active_binding : Option ActiveQueueBinding

-- TransferQueue::default.
pub default : TransferQueue
default = record { next_id = 1; paused_after_current = false; items = []; active_binding = none }

-- `|item| item.id == id`.
abbrev pub has_id : ℕ → QueuedTransfer → Bool
has_id id item = item.id == id

-- A write through `iter_mut().find(|item| item.id == id)`.
abbrev pub modify :
    ℕ → (QueuedTransfer → QueuedTransfer) → List QueuedTransfer → List QueuedTransfer
modify id f [] = []
modify id f (item ∷ items) = if has_id id item then f item ∷ items else item ∷ modify id f items

abbrev pub string_error : {A : Type 0} → Result IoError A → Outcome A
string_error (ok a) = ok a
string_error (err e) = err e.message

pub is_bound : TransferQueue → ℕ → Bool
is_bound q id = elim q.active_binding [ none ↦ false | some binding ↦ binding.queue_id == id ]

pub set_paused_after_current : TransferQueue → Bool → TransferQueue
set_paused_after_current q paused = record q { paused_after_current = paused }

pub set_active_binding : TransferQueue → ActiveQueueBinding → Outcome TransferQueue
set_active_binding q binding = elim q.active_binding [
  | some existing ↦
      if same_binding existing binding
      then ok q
      else err "transfer queue already retains an active binding"
  | none ↦ do
    string_error (validate_for_queue binding q.items)
    ok (record q { active_binding = some binding })
]

pub clear_active_binding : TransferQueue → TransferQueue × Option ActiveQueueBinding
clear_active_binding q = (record q { active_binding = none }, q.active_binding)

-- `u64::checked_add(1)`.
abbrev checked_next : ℕ → Option ℕ
checked_next n = if ltb (n + 1) (2 ^ 64) then some (n + 1) else none

pub add_with_desktop_layout :
    TransferQueue → QueuedTransferRequest → Bool → Outcome (TransferQueue × ℕ)
unfolding from_raw
add_with_desktop_layout q request preserve_desktop_layout = do
  validate_request request
  reject_if (leb max_queue_entries (length q.items)) "transfer queue already contains the maximum"
  id ← ok_or (from_raw q.next_id) "transfer queue next ID must not be zero"
  next_id ← ok_or (checked_next q.next_id) "transfer queue ID space is exhausted"
  let item : QueuedTransfer = record {
    id = id;
    request = request;
    preserve_desktop_layout = preserve_desktop_layout;
    state = pending;
    status_message = [];
  }
  ok (record q { items = q.items ++ item ∷ []; next_id = next_id }, id)

pub add : TransferQueue → QueuedTransferRequest → Outcome (TransferQueue × ℕ)
add q request = add_with_desktop_layout q request false

-- `self.is_bound(self.items[index].id)`, at an index in range.
is_bound_at : TransferQueue → ℕ → Bool
unfolding is_bound
is_bound_at q index = elim (get_elem? q.items index) [
  | none ↦ false
  | some item ↦ is_bound q item.id
]

-- `self.items[index].state == QueuedTransferState::Running`.
pub is_running_at : TransferQueue → ℕ → Bool
is_running_at q index = elim (get_elem? q.items index) [
  | none ↦ false
  | some item ↦ is_running item.state
]

pub move_up : TransferQueue → ℕ → TransferQueue × Bool
unfolding is_bound is_bound_at is_running_at
move_up q id = elim (position (has_id id) q.items) [
  | none ↦ (q, false)
  | some zero ↦ (q, false)
  | some (suc above) ↦
      if is_bound q id
        || is_bound_at q above
        || is_running_at q (suc above)
        || is_running_at q above
      then (q, false)
      else (record q { items = swap_next q.items above }, true)
]

abbrev refuses_down : TransferQueue → ℕ → ℕ → Bool
refuses_down q id index =
    leb (length q.items) (suc index)
    || is_bound q id
    || is_bound_at q (suc index)
    || is_running_at q index
    || is_running_at q (suc index)

pub move_down : TransferQueue → ℕ → TransferQueue × Bool
unfolding is_bound is_bound_at is_running_at
move_down q id = elim (position (has_id id) q.items) [
  | none ↦ (q, false)
  | some index ↦
      if refuses_down q id index
      then (q, false)
      else (record q { items = swap_next q.items index }, true)
]

pub remove : TransferQueue → ℕ → TransferQueue × Option QueuedTransfer
unfolding is_bound is_running_at
remove q id = elim (position (has_id id) q.items) [
  | none ↦ (q, none)
  | some index ↦
      if is_bound q id || is_running_at q index
      then (q, none)
      else (record q { items = remove_at q.items index }, get_elem? q.items index)
]

pub clear_completed : TransferQueue → TransferQueue × ℕ
unfolding is_bound
clear_completed q =
    let kept = retain (λ item. not (is_completed item.state) || is_bound q item.id) q.items in
    (record q { items = kept }, length q.items - length kept)

abbrev pub written : QueuedTransferState → Text → QueuedTransfer → QueuedTransfer
written state status_message i = record i { state = state; status_message = status_message }

-- The binding after the entry `id` went to a state.
abbrev pub kept_binding : TransferQueue → ℕ → QueuedTransferState → Option ActiveQueueBinding
kept_binding q id state =
    if not (may_retain_active_binding state) && is_bound q id then none else q.active_binding

pub set_state : TransferQueue → ℕ → QueuedTransferState → Text → Outcome TransferQueue
unfolding is_bound
set_state q id state status_message = do
  validate_optional_text status_message "queue status message"
  item ← ok_or (find (has_id id) q.items) "queued transfer does not exist"
  let items = modify id (written state status_message) q.items
  ok (record q { items = items; active_binding = kept_binding q id state })

abbrev pub to_pending : QueuedTransfer → QueuedTransfer
to_pending i = record i { state = pending; status_message = [] }

pub reset_to_pending : TransferQueue → ℕ → TransferQueue × Bool
unfolding is_bound
reset_to_pending q id = if is_bound q id then (q, false) else elim (find (has_id id) q.items) [
  | none ↦ (q, false)
  | some item ↦
      if is_pending item.state || is_running item.state
      then (q, false)
      else (record q { items = modify id to_pending q.items }, true)
]

-- `matches!(item.state, Pending | Blocked | Failed)`.
abbrev may_skip : QueuedTransferState → Bool
may_skip pending = true
may_skip blocked = true
may_skip failed = true
may_skip _ = false

abbrev pub skipped : QueuedTransfer → QueuedTransfer
skipped i = record i { state = cancelled; status_message = codes "Skipped by user." }

pub skip : TransferQueue → ℕ → TransferQueue × Bool
unfolding is_bound
skip q id = if is_bound q id then (q, false) else elim (find (has_id id) q.items) [
  | none ↦ (q, false)
  | some item ↦
      if may_skip item.state
      then (record q { items = modify id skipped q.items }, true)
      else (q, false)
]

pub first_pending : TransferQueue → Option QueuedTransfer
first_pending q = find (λ item. is_pending item.state) q.items

-- `HashSet::contains` on the ids seen so far.
abbrev pub seen : ℕ → List ℕ → Bool
seen id [] = false
seen id (j ∷ ids) = j == id || seen id ids

-- The loop of `validate` over the items, with the ids that it has put in its set.
pub validate_items : ℕ → List ℕ → List QueuedTransfer → Outcome (Unit {0})
validate_items next_id ids [] = ok tt
validate_items next_id ids (item ∷ items) = do
  reject_if (leb next_id item.id) "queued transfer is not below next queue ID"
  reject_if (seen item.id ids) "transfer queue contains duplicate ID"
  validate_item item
  validate_items next_id (item.id ∷ ids) items

abbrev pub validate_binding : Option ActiveQueueBinding → List QueuedTransfer → Outcome (Unit {0})
validate_binding none items = ok tt
validate_binding (some binding) items = string_error (validate_for_queue binding items)

pub validate : TransferQueue → Outcome (Unit {0})
validate q = do
  reject_if (q.next_id == 0) "transfer queue next ID must not be zero"
  reject_if (ltb max_queue_entries (length q.items)) "transfer queue exceeds the item limit"
  validate_items q.next_id [] q.items
  validate_binding q.active_binding q.items

pub from_parts_with_active_binding :
    ℕ → Bool → List QueuedTransfer → Option ActiveQueueBinding → Outcome TransferQueue
from_parts_with_active_binding next_id paused_after_current items active_binding = do
  let queue : TransferQueue = record {
    next_id = next_id;
    paused_after_current = paused_after_current;
    items = items;
    active_binding = active_binding;
  }
  validate queue
  ok queue
