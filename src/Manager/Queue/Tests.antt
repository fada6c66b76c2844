-- ===== src/Manager/Queue/Tests.antt =====
-- Concrete runs of the queue, and its theorems at concrete inputs.
use mathlib.Core.List.{Perm, Sublist}
use networkcopy_speed.Common.{
  ℕ, suc, ◌≤◌, ◌<◌, ◌≡◌, ◌⊎◌, subst, refl, true, false, not, ◌&&◌, List, [], ◌∷◌, ◌++◌, none, some,
  ok, find, position, length, All, if◌then◌else◌, ◌↔◌, Fails,
}
use networkcopy_speed.Manager.Text
use networkcopy_speed.Manager.Text.{codes, len}
use networkcopy_speed.Manager.Address.{v4, same_address}
use networkcopy_speed.Manager.Route.{automatic_lan}
use networkcopy_speed.Manager.Queue.Request.{
  QueuedTransferRequest, QueuedTransfer, fresh, running, completed, validate_request,
  validate_required_text, validate_optional_text, max_queue_text_bytes, may_retain_active_binding,
}
use networkcopy_speed.Manager.Queue.Requests.{RequestIsValid, validate_request-RequestIsValid}
use networkcopy_speed.Manager.Queue.Binding.{ActiveQueueBinding, validate_for_queue}
use networkcopy_speed.Manager.Queue.Invariant.{IsValid, validate-IsValid}
use networkcopy_speed.Manager.Queue.Preserve.{new_item, added}
use networkcopy_speed.Manager.Queue.History.{
  Op, adds, removes, sets_state, binds, step, run, run-default-IsValid, add-lt-add,
  step-active_binding,
}
use networkcopy_speed.Manager.Queue.Reorder.{
  CannotRise, CannotSink, Unchanged, Exchanges, move_up_lem, move_down_lem,
}
use networkcopy_speed.Manager.Queue.Removal.{
  CannotLeave, Removes, IsCleared, remove_lem, clear_completed_lem,
}
use networkcopy_speed.Manager.Queue.Writes.{
  Replaces, Rewrites, set_state_lem, skip_lem, reset_to_pending_lem, may_reset,
}
use networkcopy_speed.Manager.Queue.{
  TransferQueue, default, has_id, validate, add_with_desktop_layout, remove, move_up, move_down,
  clear_completed, set_active_binding, set_state, skip, reset_to_pending, is_bound, written,
  to_pending, skipped, may_skip,
}

abbrev folder : QueuedTransferRequest
folder = record {
  sender_agent = v4 0xc000_020a 7339;
  receiver_agent = v4 0xc000_020b 7339;
  route_mode = automatic_lan;
  source_root = codes "C:\\Desktop";
  destination_root = codes "D:\\Backup";
  update_existing = true;
  worker_count = 4;
  calibration_mib = 8;
  kind = fresh;
}

abbrev job_binding : ActiveQueueBinding
job_binding = record {
  queue_id = 1;
  sender_instance_id = 101;
  sender_job_id = 11;
  receiver_instance_id = 202;
  receiver_job_id = 17;
}

abbrev setup : List Op
setup =
    adds folder false
    ∷ adds folder true
    ∷ adds folder false
    ∷ sets_state 1 running []
    ∷ binds job_binding
    ∷ sets_state 2 completed []
    ∷ []

-- The queue after those calls.
abbrev loaded : TransferQueue
loaded = record {
  next_id = 4;
  paused_after_current = false;
  items =
      record (new_item 1 folder false) { state = running }
      ∷ record (new_item 2 folder true) { state = completed }
      ∷ new_item 3 folder false
      ∷ [];
  active_binding = some job_binding;
}

setup_runs : run default setup ≡ loaded
unfolding run step default add_with_desktop_layout set_state set_active_binding validate_for_queue
    validate_request validate_required_text validate_optional_text is_bound Text.trim
    Text.trim_start Text.is_whitespace Text.is_empty Text.len same_address may_retain_active_binding
setup_runs = refl

loaded-IsValid : IsValid loaded
loaded-IsValid = subst IsValid setup_runs (run-default-IsValid setup)

run-default-IsValid_example : IsValid (run default setup)
run-default-IsValid_example = run-default-IsValid setup

validate-IsValid_example : (validate loaded ≡ ok tt) ↔ IsValid loaded
validate-IsValid_example = validate-IsValid loaded

add-lt-add_example : 1 < 2
unfolding run step default add_with_desktop_layout validate_request validate_required_text
    validate_optional_text is_bound Text.trim Text.trim_start Text.is_whitespace Text.is_empty
    Text.len same_address
add-lt-add_example =
    add-lt-add default (added default folder false) (added default folder false) _ folder folder
      false false 1 2 [] refl refl refl

step-active_binding_example : (step loaded (removes 1)).active_binding ≡ some job_binding
step-active_binding_example = step-active_binding loaded (removes 1) job_binding refl refl

move_up_lem_example :
    (CannotRise loaded 3 × Unchanged loaded (move_up loaded 3))
    ⊎ ((i : ℕ) × (position (has_id 3) loaded.items ≡ some (suc i))
        × Exchanges loaded (move_up loaded 3) i)
move_up_lem_example = move_up_lem loaded 3

move_down_lem_example :
    (CannotSink loaded 2 × Unchanged loaded (move_down loaded 2))
    ⊎ ((i : ℕ) × (position (has_id 2) loaded.items ≡ some i)
        × Exchanges loaded (move_down loaded 2) i)
move_down_lem_example = move_down_lem loaded 2

remove_lem_example :
    (CannotLeave loaded 3 × (remove loaded 3 ≡ (loaded, none)))
    ⊎ ((x : QueuedTransfer) × Removes loaded 3 (remove loaded 3) x)
remove_lem_example = remove_lem loaded 3 loaded-IsValid

clear_completed_lem_example :
    (gone : List QueuedTransfer) × Perm ((clear_completed loaded).0.items ++ gone) loaded.items
    × Sublist (clear_completed loaded).0.items loaded.items
    × All (λ x. ¬ IsCleared loaded x) (clear_completed loaded).0.items
    × All (IsCleared loaded) gone
    × ((clear_completed loaded).1 ≡ length gone)
clear_completed_lem_example = clear_completed_lem loaded

set_state_lem_example :
    (Fails (set_state loaded 1 completed [])
      × ((max_queue_text_bytes < len []) ⊎ (find (has_id 1) loaded.items ≡ none)))
    ⊎ ((r : TransferQueue) × (set_state loaded 1 completed [] ≡ ok r)
        × (len [] ≤ max_queue_text_bytes)
        × Replaces loaded r 1 (written completed [])
        × (r.active_binding ≡ (
            if is_bound loaded 1 && not (may_retain_active_binding completed)
            then none
            else loaded.active_binding)))
set_state_lem_example = set_state_lem loaded 1 completed []

skip_lem_example : Rewrites loaded 3 skipped may_skip (skip loaded 3)
skip_lem_example = skip_lem loaded 3

reset_to_pending_lem_example : Rewrites loaded 2 to_pending may_reset (reset_to_pending loaded 2)
reset_to_pending_lem_example = reset_to_pending_lem loaded 2

validate_request-RequestIsValid_example : (validate_request folder ≡ ok tt) ↔ RequestIsValid folder
validate_request-RequestIsValid_example = validate_request-RequestIsValid folder

clear_completed_runs : (clear_completed loaded).1 ≡ 1
unfolding clear_completed is_bound
clear_completed_runs = refl

moves_refused : (move_down loaded 1).1 ≡ false
unfolding move_down
moves_refused = refl
