-- ===== src/Manager/Jobs/Safety.antt =====
-- management_jobs.rs: what an agent's registry guarantees, whatever the order of its threads' steps.
use networkcopy_speed.Common.{ℕ, ◌+◌, ◌^◌, ◌<◌, ◌≡◌, ◌≢◌, sym, ap, subst, ◌∙◌, some, some-injective}
use networkcopy_speed.Manager.Jobs.{ManagementJobResult}
use networkcopy_speed.Manager.Jobs.Steps.{
  Job, job_id_of, finish, Pc, unstarted, prepared, numbered, registered, working, unspawned,
  cancelling, Agent, Reach,
}
use networkcopy_speed.Manager.Jobs.Registry.{active, finish-same}
use networkcopy_speed.Manager.Jobs.Invariant.{holds, Reach-OneJob, Reach-Owned, none_clash}
use networkcopy_speed.Manager.Jobs.Ids.{number, Reach-Ids}

holds-number : (p : Pc) {job : Job} → holds p ≡ some job → number p ≡ some (job_id_of job)
holds-number (registered job) h = ap (λ j. some (job_id_of j)) (some-injective h)
holds-number (working job) h = ap (λ j. some (job_id_of j)) (some-injective h)
holds-number (unspawned job) h = ap (λ j. some (job_id_of j)) (some-injective h)
holds-number unstarted h = absurd (none_clash h)
holds-number prepared h = absurd (none_clash h)
holds-number (numbered job) h = absurd (none_clash h)
holds-number (cancelling result) h = absurd (none_clash h)

-- In a reachable state, with fewer than 2^64 - 1 ids taken, the worker of a job that is no longer the
-- active one, since it was cancelled, leaves the registry as it is when it finishes.
pub finish_stale :
    (n : ℕ) (s : Agent) (i : ℕ) (job : Job) (result : ManagementJobResult)
    → Reach n s
    → n + 1 < 2 ^ 64
    → s.pc i ≡ working job
    → active s.inner ≢ some job
    → finish job result s.inner ≡ s.inner
finish_stale n s i job result r few at gone =
    finish-same job result s.inner (Reach-OneJob r) (λ other a same.
      let (j, held) = Reach-Owned r other a in
      let mine : number (s.pc i) ≡ some (job_id_of job) = ap number at in
      let theirs : number (s.pc j) ≡ some (job_id_of job) =
        holds-number (s.pc j) held ∙ ap some (sym same) in
      let one_thread = (Reach-Ids r few).distinct i j (job_id_of job) mine theirs in
      let here : holds (s.pc i) ≡ some other =
        subst (λ k. holds (s.pc k) ≡ some other) (sym one_thread) held in
      gone (a ∙ sym here ∙ ap holds at))
