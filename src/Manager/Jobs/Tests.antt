-- ===== src/Manager/Jobs/Tests.antt =====
-- Concrete interleavings of an agent's threads, and the theorems on them at concrete inputs.
use native.Mathlib.Decide.{ℕ_discrete}
use networkcopy_speed.Common.{
  ℕ, ◌≡◌, ◌≢◌, ◌↔◌, ◌⊎◌, refl, false, [], ◌∷◌, Option, none, some, arith, Fails,
}
use networkcopy_speed.Manager.Jobs.{
  PreparedReceiveJob, ManagementJobResult, JobRegistryInner, completed, receiver, reject_busy,
  active_job_id, is_busy, fetch_job_id, register_receive, finish_receive, begin_cancel,
  cancelled_result, end_cancel,
}
use networkcopy_speed.Manager.Jobs.Steps.{
  Job, receive, finish, Pc, unstarted, prepared, numbered, registered, working, cancelling, Agent,
  update, step, Reach, start, later, admitted, takes_id, registers, spawns, finishes, cancels,
  records,
}
use networkcopy_speed.Manager.Jobs.Invariant.{holds, Reach-OneJob}
use networkcopy_speed.Manager.Jobs.Safety.{finish_stale}
use networkcopy_speed.Manager.Jobs.Liveness.{Ends, idle_again}
use networkcopy_speed.Manager.Jobs.Registry.{active}
use networkcopy_speed.Manager.Jobs.Cancel.{begin_cancel-active_job_id}

abbrev job_of : ℕ → PreparedReceiveJob
job_of id = record {
  job_id = id;
  transfer_port = 5000;
  destination_root = 67 ∷ [];
  update_existing = false;
}

abbrev done_of : ℕ → ManagementJobResult
done_of id = record {
  role = receiver;
  outcome = completed;
  job_id = id;
  files = 1;
  logical_bytes = 1;
  wire_bytes = 0;
  data_stream_count = 4;
  message = "";
}

abbrev holding : ℕ → Option ManagementJobResult → JobRegistryInner
holding id latest = record {
  active_receive = some (job_of id);
  active_send = none;
  latest_result = latest;
}

abbrev idle_with : Option ManagementJobResult → JobRegistryInner
idle_with latest = record { active_receive = none; active_send = none; latest_result = latest }

-- The threads are given by their number.
abbrev agent : ℕ → JobRegistryInner → (ℕ → Pc) → Agent
agent next inner pc = record { next_job_id = next; inner = inner; pc = pc }

abbrev set : ℕ → Pc → (ℕ → Pc) → ℕ → Pc
set i p pc = update pc i p

-- A thread behind the spawn of its worker.
abbrev at_work : ℕ → ℕ → (ℕ → Pc) → ℕ → Pc
at_work i id pc =
    let job = receive (job_of id) in
    set i (working job) (set i (registered job) (set i (numbered job) (set i prepared pc)))

abbrev pc_working : ℕ → Pc
pc_working = at_work 0 1 (λ _. unstarted)

-- The first thread's job is active.
one_active : Reach 1 (agent 2 (holding 1 none) pc_working)
unfolding reject_busy active_job_id fetch_job_id register_receive ℕ_discrete
one_active =
    later
      (later
        (later (later start (step 0 (admitted refl))) (step 0 (takes_id (receive (job_of 1)) refl)))
        (step 0 (registers refl)))
      (step 0 spawns)

abbrev pc_cancelling : ℕ → Pc
pc_cancelling = set 1 (cancelling (cancelled_result receiver 1 4)) pc_working

-- The second thread has taken it from the registry.
one_cancelled : Reach 1 (agent 2 (idle_with none) pc_cancelling)
unfolding begin_cancel active_job_id ℕ_discrete
one_cancelled = later one_active (step 1 (cancels 1 4 refl))

abbrev pc_lost : ℕ → Pc
pc_lost = set 1 unstarted (set 2 unstarted (at_work 2 2 pc_cancelling))

-- A second job runs and ends before the second half of the cancellation: its result is lost, since the
-- older job's is written over it.
result_lost : Reach 2 (agent 3 (idle_with (some (cancelled_result receiver 1 4))) pc_lost)
unfolding reject_busy active_job_id fetch_job_id register_receive finish_receive end_cancel
    ℕ_discrete
result_lost =
    later
      (later
        (later
          (later
            (later (later one_cancelled (step 2 (admitted refl)))
              (step 2 (takes_id (receive (job_of 2)) refl)))
            (step 2 (registers refl)))
          (step 2 spawns))
        (step 2 (finishes (done_of 2) refl)))
      (step 1 records)

Reach-OneJob_example :
    ((holding 1 none).active_receive ≡ none) ⊎ ((holding 1 none).active_send ≡ none)
Reach-OneJob_example = Reach-OneJob one_active

finish_stale_example : finish (receive (job_of 1)) (done_of 1) (idle_with none) ≡ idle_with none
unfolding ℕ_discrete
finish_stale_example =
    finish_stale 1 (agent 2 (idle_with none) pc_cancelling) 0 (receive (job_of 1)) (done_of 1)
      one_cancelled (omega arith) refl (λ e. cc)

idle_again_example :
    (job : Job) × (i : ℕ) × (active (holding 1 none) ≡ some job)
    × (holds (pc_working i) ≡ some job)
    × Ends i (agent 2 (holding 1 none) pc_working)
unfolding is_busy active_job_id
idle_again_example = idle_again 1 (agent 2 (holding 1 none) pc_working) one_active refl

begin_cancel-active_job_id_example :
    (¬ Fails (begin_cancel 1 (holding 1 none)))
    ↔ ((◌≢◌ {A = ℕ} 1 0) × (active_job_id (holding 1 none) ≡ some 1))
begin_cancel-active_job_id_example = begin_cancel-active_job_id 1 (holding 1 none)
