-- ===== src/Manager/Jobs.antt =====
-- management_jobs.rs: the registry of an agent's jobs. Each function is what one critical section of the
-- mutex does to the registry. A job's progress counter, which is only shown and polled, is left out.
pub mod Steps
pub mod Registry
pub mod Invariant
pub mod Ids
pub mod Safety
pub mod Liveness
pub mod Cancel
mod Tests
use Prim.Native.String.{String}
use networkcopy_speed.Common.{
  ℕ, ◌+◌, ◌%◌, ◌^◌, Bool, true, false, not, List, [], Option, none, some, ◌==◌, if◌then◌else◌,
  IoResult, IoError, io_error, ErrorKind, ok, err, reject_if, ◌>>=◌, ◌>>◌,
}
use networkcopy_speed.Manager.Address.{SocketAddr}

pub data ManagementJobPhase : Type 0 where
  idle receiver_prepared sender_running : ManagementJobPhase

pub data ManagementJobRole : Type 0 where
  sender receiver : ManagementJobRole

pub data ManagementJobOutcome : Type 0 where
  completed cancelled failed : ManagementJobOutcome

pub record ManagementJobResult : Type 0 where
  pub role : ManagementJobRole
  pub outcome : ManagementJobOutcome
  pub job_id : ℕ
  pub files : ℕ
  pub logical_bytes : ℕ
  pub wire_bytes : ℕ
  pub data_stream_count : ℕ
  pub message : String

-- A path is its characters.
pub record PreparedReceiveJob : Type 0 where
  pub job_id : ℕ
  pub transfer_port : ℕ
  pub destination_root : List ℕ
  pub update_existing : Bool

pub record StartedSendJob : Type 0 where
  pub job_id : ℕ
  pub receiver_address : SocketAddr
  pub source_root : List ℕ
  pub worker_count : ℕ
  pub calibration_mib : ℕ

pub record ManagementJobStatus : Type 0 where
  pub phase : ManagementJobPhase
  pub job_id : Option ℕ
  pub transfer_port : Option ℕ
  pub destination_root : Option (List ℕ)
  pub update_existing : Bool

pub record JobRegistryInner : Type 0 where
  pub active_receive : Option PreparedReceiveJob
  pub active_send : Option StartedSendJob
  pub latest_result : Option ManagementJobResult

abbrev pub empty_registry : JobRegistryInner
empty_registry = record { active_receive = none; active_send = none; latest_result = none }

abbrev pub job_id_or : Option ℕ → Option StartedSendJob → Option ℕ
job_id_or (some id) send = some id
job_id_or none (some job) = some job.job_id
job_id_or none none = none

abbrev pub receive_job_id : Option PreparedReceiveJob → Option ℕ
receive_job_id none = none
receive_job_id (some job) = some job.job_id

unfoldable pub active_job_id : JobRegistryInner → Option ℕ
active_job_id inner = job_id_or (receive_job_id inner.active_receive) inner.active_send

abbrev pub is_some {ℓ} : {A : Type ℓ} → Option A → Bool
is_some none = false
is_some (some a) = true

unfoldable pub is_busy : JobRegistryInner → Bool
unfolding active_job_id
is_busy inner = is_some (active_job_id inner)

-- The test under the lock, which both operations make twice.
unfoldable pub reject_busy : JobRegistryInner → IoResult (Unit {0})
unfolding active_job_id
reject_busy inner =
    reject_if (is_some (active_job_id inner))
      (io_error ErrorKind.would_block "management agent already has an active job")

-- `next_job_id.fetch_add(1)`: the id, and the counter behind it.
unfoldable pub fetch_job_id : ℕ → IoResult ℕ × ℕ
fetch_job_id next = (
  if next == 0
      then err (io_error ErrorKind.other "management job ID counter wrapped to zero")
      else ok next,
  (next + 1) % 2 ^ 64,
)

unfoldable pub register_receive : PreparedReceiveJob → JobRegistryInner → IoResult JobRegistryInner
unfolding reject_busy
register_receive job inner = do reject_busy inner; ok (record inner { active_receive = some job })

unfoldable pub register_send : StartedSendJob → JobRegistryInner → IoResult JobRegistryInner
unfolding reject_busy
register_send job inner = do reject_busy inner; ok (record inner { active_send = some job })

abbrev pub has_job_id : ℕ → Option ℕ → Bool
has_job_id job_id none = false
has_job_id job_id (some id) = id == job_id

abbrev pub send_job_id : Option StartedSendJob → Option ℕ
send_job_id none = none
send_job_id (some job) = some job.job_id

unfoldable pub finish_receive : ℕ → ManagementJobResult → JobRegistryInner → JobRegistryInner
finish_receive job_id result inner =
    if has_job_id job_id (receive_job_id inner.active_receive)
    then record inner { active_receive = none; latest_result = some result }
    else inner

unfoldable pub finish_send : ℕ → ManagementJobResult → JobRegistryInner → JobRegistryInner
finish_send job_id result inner =
    if has_job_id job_id (send_job_id inner.active_send)
    then record inner { active_send = none; latest_result = some result }
    else inner

unfoldable pub clear_receive : ℕ → JobRegistryInner → JobRegistryInner
clear_receive job_id inner =
    if has_job_id job_id (receive_job_id inner.active_receive)
    then record inner { active_receive = none }
    else inner

unfoldable pub clear_send : ℕ → JobRegistryInner → JobRegistryInner
clear_send job_id inner =
    if has_job_id job_id (send_job_id inner.active_send)
    then record inner { active_send = none }
    else inner

-- What cancel takes from the registry: the role of the job, and the destination of a receiver.
abbrev pub take_active :
    JobRegistryInner → IoResult (JobRegistryInner × ManagementJobRole × Option (List ℕ))
take_active inner = elim inner.active_receive [
  | some job ↦ ok (record inner { active_receive = none }, receiver, some job.destination_root)
  | none ↦ elim inner.active_send [
    | some job ↦ ok (record inner { active_send = none }, sender, none)
    | none ↦ err (io_error ErrorKind.other "active management job disappeared during cancellation")
  ]
]

-- The first critical section of cancel.
unfoldable pub begin_cancel :
    ℕ → JobRegistryInner → IoResult (JobRegistryInner × ManagementJobRole × Option (List ℕ))
unfolding active_job_id
begin_cancel job_id inner = do
  reject_if (job_id == 0) (io_error ErrorKind.invalid_input "management job ID must not be zero")
  reject_if (not (is_some (active_job_id inner)))
      (io_error ErrorKind.not_found "management agent has no active job")
  reject_if (not (has_job_id job_id (active_job_id inner))) (
      io_error ErrorKind.not_found "management agent has another active job than the requested one")
  take_active inner

abbrev pub cancelled_result : ManagementJobRole → ℕ → ℕ → ManagementJobResult
cancelled_result role job_id data_stream_count = record {
  role = role;
  outcome = cancelled;
  job_id = job_id;
  files = 0;
  logical_bytes = 0;
  wire_bytes = 0;
  data_stream_count = data_stream_count;
  message = "cancelled by management request";
}

-- The second critical section of cancel.
unfoldable pub end_cancel : ManagementJobResult → JobRegistryInner → JobRegistryInner
end_cancel result inner = record inner { latest_result = some result }

unfoldable pub status : JobRegistryInner → ManagementJobStatus
status inner = elim inner.active_receive [
  | some job ↦ record {
    phase = receiver_prepared;
    job_id = some job.job_id;
    transfer_port = some job.transfer_port;
    destination_root = some job.destination_root;
    update_existing = job.update_existing;
  }
  | none ↦ elim inner.active_send [
    | some job ↦ record {
      phase = sender_running;
      job_id = some job.job_id;
      transfer_port = none;
      destination_root = none;
      update_existing = false;
    }
    | none ↦ record {
      phase = idle;
      job_id = none;
      transfer_port = none;
      destination_root = none;
      update_existing = false;
    }
  ]
]
