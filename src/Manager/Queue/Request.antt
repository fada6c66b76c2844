-- ===== src/Manager/Queue/Request.antt =====
-- management_queue.rs, the queue's entries: QueuedTransferRequest, QueuedTransfer and their
-- validation. A message is the constant part of the source's.
use Prim.Native.String.{String, ◌++◌}
use networkcopy_speed.Common.{ℕ, ◌*◌, Bool, true, false, Result, ok, reject_if, ◌>>◌, ltb, ◌==◌}
use networkcopy_speed.Manager.Text
use networkcopy_speed.Manager.Text.{Text}
use networkcopy_speed.Manager.Address.{SocketAddr, same_address}
use networkcopy_speed.Manager.Route.{ManagementRouteMode}

pub data QueuedTransferKind : Type 0 where
  fresh : QueuedTransferKind
  resume : ℕ → QueuedTransferKind

pub data QueuedTransferState : Type 0 where
  pending running blocked failed completed cancelled : QueuedTransferState

pub is_terminal : QueuedTransferState → Bool
is_terminal failed = true
is_terminal completed = true
is_terminal cancelled = true
is_terminal _ = false

unfoldable pub may_retain_active_binding : QueuedTransferState → Bool
may_retain_active_binding running = true
may_retain_active_binding blocked = true
may_retain_active_binding _ = false

-- `state == QueuedTransferState::…`.
abbrev pub is_pending : QueuedTransferState → Bool
is_pending pending = true
is_pending _ = false

abbrev pub is_running : QueuedTransferState → Bool
is_running running = true
is_running _ = false

abbrev pub is_completed : QueuedTransferState → Bool
is_completed completed = true
is_completed _ = false

pub record QueuedTransferRequest : Type 0 where
  pub sender_agent : SocketAddr
  pub receiver_agent : SocketAddr
  pub route_mode : ManagementRouteMode
  pub source_root : Text
  pub destination_root : Text
  pub update_existing : Bool
  pub worker_count : ℕ
  pub calibration_mib : ℕ
  pub kind : QueuedTransferKind

pub record QueuedTransfer : Type 0 where
  pub id : ℕ
  pub request : QueuedTransferRequest
  pub preserve_desktop_layout : Bool
  pub state : QueuedTransferState
  pub status_message : Text

abbrev pub max_queue_text_bytes : ℕ
max_queue_text_bytes = 64 * 1024

abbrev pub Outcome : Type 0 → Type 0
Outcome A = Result String A

unfoldable pub validate_optional_text : Text → String → Outcome (Unit {0})
validate_optional_text value description =
    reject_if (ltb max_queue_text_bytes (Text.len value)) (description ++ " exceeds the byte limit")

unfoldable pub validate_required_text : Text → String → Outcome (Unit {0})
unfolding validate_optional_text
validate_required_text value description = do
  reject_if (Text.is_empty (Text.trim value)) (description ++ " must not be empty")
  validate_optional_text value description

abbrev pub resumes_no_stream : QueuedTransferKind → Bool
resumes_no_stream fresh = false
resumes_no_stream (resume data_stream_count) = data_stream_count == 0

-- QueuedTransferRequest::validate.
unfoldable pub validate_request : QueuedTransferRequest → Outcome (Unit {0})
validate_request r = do
  reject_if (same_address r.sender_agent r.receiver_agent)
      "queued sender and receiver agents must be different"
  validate_required_text r.source_root "queued source root"
  validate_required_text r.destination_root "queued destination root"
  reject_if (r.worker_count == 0) "queued worker count must not be zero"
  reject_if (r.calibration_mib == 0) "queued calibration size must not be zero"
  reject_if (resumes_no_stream r.kind) "queued resume stream count must not be zero"
  ok tt

-- QueuedTransfer::validate.
unfoldable pub validate_item : QueuedTransfer → Outcome (Unit {0})
validate_item item = do
  validate_request item.request
  validate_optional_text item.status_message "queue status message"
