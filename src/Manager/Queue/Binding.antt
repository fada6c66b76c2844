-- ===== src/Manager/Queue/Binding.antt =====
-- management_active_binding.rs: the endpoint jobs that the queue's current transfer retains.
use networkcopy_speed.Common.{
  ℕ, Bool, ◌&&◌, not, List, ◌==◌, find, IoResult, io_error, ErrorKind, ok, reject_if, ok_or, ◌>>=◌,
  ◌>>◌,
}
use networkcopy_speed.Manager.Queue.Request.{QueuedTransfer, may_retain_active_binding}

pub record ActiveQueueBinding : Type 0 where
  pub queue_id : ℕ
  pub sender_instance_id : ℕ
  pub sender_job_id : ℕ
  pub receiver_instance_id : ℕ
  pub receiver_job_id : ℕ

-- `==` of bindings.
abbrev pub same_binding : ActiveQueueBinding → ActiveQueueBinding → Bool
same_binding a b =
    a.queue_id == b.queue_id
    && a.sender_instance_id == b.sender_instance_id
    && a.sender_job_id == b.sender_job_id
    && a.receiver_instance_id == b.receiver_instance_id
    && a.receiver_job_id == b.receiver_job_id

validate_job_id : ℕ → IoResult (Unit {0})
validate_job_id job_id =
    reject_if (job_id == 0) (io_error ErrorKind.invalid_input "job ID must not be zero")

pub new : ℕ → ℕ → ℕ → ℕ → ℕ → IoResult ActiveQueueBinding
unfolding validate_job_id
new queue_id sender_instance_id sender_job_id receiver_instance_id receiver_job_id = do
  validate_job_id sender_job_id
  validate_job_id receiver_job_id
  ok (record {
    queue_id = queue_id;
    sender_instance_id = sender_instance_id;
    sender_job_id = sender_job_id;
    receiver_instance_id = receiver_instance_id;
    receiver_job_id = receiver_job_id;
  })

-- ActiveQueueBinding::validate_for_queue, on the queue's items. The source's `matches!` lists the
-- two states of `may_retain_active_binding`.
unfoldable pub validate_for_queue : ActiveQueueBinding → List QueuedTransfer → IoResult (Unit {0})
validate_for_queue b items = do
  item ←
      ok_or (find (λ item. item.id == b.queue_id) items)
        (io_error ErrorKind.invalid_input "active queue binding references missing transfer")
  reject_if (not (may_retain_active_binding item.state))
      (io_error ErrorKind.invalid_input "only Running or Blocked items may retain endpoint jobs")
