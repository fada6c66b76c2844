-- ===== src/Manager/Jobs/Steps.antt =====
-- management_jobs.rs: the threads of an agent over one registry, interleaved in any order. A thread is a
-- call of prepare_receive_on_configured, of start_send_with_desktop_layout or of cancel; where a call
-- spawns its worker, the worker goes on under the same number.
use mathlib.Core.Logic.{ite}
use native.Mathlib.Decide.{ℕ_discrete}
use networkcopy_speed.Common.{ℕ, List, ◌+◌, ◌≡◌, Option, IoError, IoResult, ok, err}
use networkcopy_speed.Manager.Jobs.{
  PreparedReceiveJob, StartedSendJob, ManagementJobResult, ManagementJobRole, JobRegistryInner,
  empty_registry, reject_busy, fetch_job_id, register_receive, register_send, finish_receive,
  finish_send, clear_receive, clear_send, begin_cancel, cancelled_result, end_cancel,
}

-- A job of either kind.
pub data Job : Type 0 where
  receive : PreparedReceiveJob → Job
  send : StartedSendJob → Job

abbrev pub job_id_of : Job → ℕ
job_id_of (receive job) = job.job_id
job_id_of (send job) = job.job_id

abbrev pub register : Job → JobRegistryInner → IoResult JobRegistryInner
register (receive job) = register_receive job
register (send job) = register_send job

abbrev pub finish : Job → ManagementJobResult → JobRegistryInner → JobRegistryInner
finish (receive job) = finish_receive job.job_id
finish (send job) = finish_send job.job_id

abbrev pub clear : Job → JobRegistryInner → JobRegistryInner
clear (receive job) = clear_receive job.job_id
clear (send job) = clear_send job.job_id

-- Where a thread stands.
pub data Pc : Type 0 where
  unstarted : Pc  -- before a call, or behind its end
  prepared : Pc  -- behind the first test
  numbered : Job → Pc  -- with the job's id, before the second test
  registered : Job → Pc  -- before the spawn
  working : Job → Pc  -- the worker, before it calls finish
  unspawned : Job → Pc  -- behind a failed spawn
  cancelling : ManagementJobResult → Pc  -- between the two critical sections of cancel

-- One step of one thread: its place, how many ids it takes, the counter, the registry and its place
-- behind the step. What the file system and the network answer is left open. A worker's last step is its
-- call of finish; a worker that panics or never returns, and a poisoned lock, are not among the steps.
pub data Move (next : ℕ) (inner : JobRegistryInner)
    : Pc → ℕ → ℕ → JobRegistryInner → Pc → Type 0 where
  refused :
      {e : IoError} → reject_busy inner ≡ err e → Move next inner unstarted 0 next inner unstarted
  admitted : reject_busy inner ≡ ok tt → Move next inner unstarted 0 next inner prepared
  gives_up : Move next inner prepared 0 next inner unstarted
  takes_id :
      (job : Job)
      → (fetch_job_id next).0 ≡ ok (job_id_of job)
      → Move next inner prepared 1 (fetch_job_id next).1 inner (numbered job)
  takes_zero :
      {e : IoError}
      → (fetch_job_id next).0 ≡ err e
      → Move next inner prepared 1 (fetch_job_id next).1 inner unstarted
  registers :
      {job : Job} {inner' : JobRegistryInner}
      → register job inner ≡ ok inner'
      → Move next inner (numbered job) 0 next inner' (registered job)
  loses :
      {job : Job} {e : IoError}
      → register job inner ≡ err e
      → Move next inner (numbered job) 0 next inner unstarted
  spawns : {job : Job} → Move next inner (registered job) 0 next inner (working job)
  fails_to_spawn : {job : Job} → Move next inner (registered job) 0 next inner (unspawned job)
  clears : {job : Job} → Move next inner (unspawned job) 0 next (clear job inner) unstarted
  finishes :
      {job : Job} (result : ManagementJobResult)
      → result.job_id ≡ job_id_of job
      → Move next inner (working job) 0 next (finish job result inner) unstarted
  cancels :
      (job_id data_stream_count : ℕ) {inner' : JobRegistryInner} {role : ManagementJobRole}
      {destination : Option (List ℕ)}
      → begin_cancel job_id inner ≡ ok (inner', role, destination)
      → Move next inner unstarted 0 next inner'
          (cancelling (cancelled_result role job_id data_stream_count))
  records :
      {result : ManagementJobResult}
      → Move next inner (cancelling result) 0 next (end_cancel result inner) unstarted

pub record Agent : Type 0 where
  pub next_job_id : ℕ
  pub inner : JobRegistryInner
  pub pc : ℕ → Pc

abbrev pub update {ℓ} : {A : Type ℓ} → (ℕ → A) → ℕ → A → ℕ → A
update f i a j = ite (ℕ_discrete i j) a (f j)

-- One step of the agent, with the number of ids that it takes.
pub data Step (s : Agent) : ℕ → Agent → Type 0 where
  step :
      (i : ℕ) {taken next : ℕ} {inner : JobRegistryInner} {p : Pc}
      → Move s.next_job_id s.inner (s.pc i) taken next inner p
      → Step s taken (record { next_job_id = next; inner = inner; pc = update s.pc i p })

-- ManagementJobRegistry::new, before any call.
abbrev pub new_agent : Agent
new_agent = record { next_job_id = 1; inner = empty_registry; pc = λ _. unstarted }

-- The agent is reached by steps that have taken so many ids.
pub data Reach : ℕ → Agent → Type 0 where
  start : Reach 0 new_agent
  later : {n taken : ℕ} {s t : Agent} → Reach n s → Step s taken t → Reach (n + taken) t
