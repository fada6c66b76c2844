-- ===== src/Manager/Jobs/Liveness.antt =====
-- management_jobs.rs: how the thread that holds the active job gives it up. A worker that
-- never returns or that panics is not among the steps: that a worker calls `finish` in the end, with
-- whatever result, is what the steps say of it.
use networkcopy_speed.Common.{
  ℕ, zero, suc, ◌≤◌, ◌<◌, ◌≡◌, ◌≢◌, refl, sym, subst, ◌∙◌, ◌⊎◌, inl, inr, true, false, Option, none,
  some, some-injective, Option-cases, arith,
}
use networkcopy_speed.Manager.Jobs.{
  JobRegistryInner, PreparedReceiveJob, StartedSendJob, active_job_id, is_busy, is_some, job_id_or,
  receive_job_id, cancelled_result, receiver,
}
use networkcopy_speed.Manager.Jobs.Steps.{
  Job, receive, send, job_id_of, Pc, unstarted, prepared, numbered, registered, working, unspawned,
  cancelling, Move, Agent, update, Reach, refused, admitted, gives_up, takes_id, takes_zero,
  registers, loses, spawns, fails_to_spawn, clears, finishes, cancels, records,
}
use networkcopy_speed.Manager.Jobs.Registry.{active, active_of, OneJob, finish-active, clear-active}
use networkcopy_speed.Manager.Jobs.Invariant.{
  holds, Reach-OneJob, Reach-Owned, update-same, none_clash,
}

not_busy_cases :
    (r : Option PreparedReceiveJob) (s : Option StartedSendJob)
    → active_of r s ≡ none
    → is_some (job_id_or (receive_job_id r) s) ≡ false
not_busy_cases (some job) s e = cc
not_busy_cases none (some job) e = cc
not_busy_cases none none e = refl

busy_cases :
    (r : Option PreparedReceiveJob) (s : Option StartedSendJob)
    → is_some (job_id_or (receive_job_id r) s) ≡ true
    → (job : Job) × (active_of r s ≡ some job)
busy_cases (some job) s e = (receive job, refl)
busy_cases none (some job) e = (send job, refl)
busy_cases none none e = cc

not_busy : (inner : JobRegistryInner) → active inner ≡ none → is_busy inner ≡ false
unfolding is_busy active_job_id
not_busy inner e = not_busy_cases inner.active_receive inner.active_send e

busy_active :
    (inner : JobRegistryInner) → is_busy inner ≡ true → (job : Job) × (active inner ≡ some job)
unfolding is_busy active_job_id
busy_active inner e = busy_cases inner.active_receive inner.active_send e

-- The state behind a step of one thread, the others standing still.
abbrev moved : Agent → ℕ → ℕ → JobRegistryInner → Pc → Agent
moved s i next inner p = record { next_job_id = next; inner = inner; pc = update s.pc i p }

-- A step that the thread can take.
pub data NextStep (next : ℕ) (inner : JobRegistryInner) (p : Pc) : Type 0 where
  takes :
      {taken next' : ℕ} {inner' : JobRegistryInner} {p' : Pc}
      → Move next inner p taken next' inner' p'
      → NextStep next inner p

-- Whichever steps the thread takes, it is never stuck, and after finitely many of them the registry
-- is idle.
pub data Ends (i : ℕ) : Agent → Type 0 where
  idle : {s : Agent} → is_busy s.inner ≡ false → Ends i s
  goes_on :
      {s : Agent}
      → NextStep s.next_job_id s.inner (s.pc i)
      → ((taken next : ℕ) (inner : JobRegistryInner) (p : Pc)
          → Move s.next_job_id s.inner (s.pc i) taken next inner p
          → Ends i (moved s i next inner p))
      → Ends i s

-- How many steps the holder of a job may still take before it gives up its place.
abbrev rank : Pc → ℕ
rank (registered job) = 2
rank (working job) = 1
rank (unspawned job) = 1
rank unstarted = 0
rank prepared = 0
rank (numbered job) = 0
rank (cancelling result) = 0

-- What a step of the holder leads to.
Advances : Job → Pc → JobRegistryInner → Pc → Type 0
Advances job p inner' p' =
    (is_busy inner' ≡ false)
    ⊎ ((holds p' ≡ some job) × (active inner' ≡ some job) × OneJob inner' × (rank p' < rank p))

nothing_active :
    (inner : JobRegistryInner) → ((other : Job) → active inner ≢ some other) → is_busy inner ≡ false
nothing_active inner quiet =
    not_busy inner
      (elim (Option-cases (active inner)) [ inl e ↦ e | inr (other, e) ↦ absurd (quiet other e) ])

Move-Advances :
    {next taken next' : ℕ} {inner inner' : JobRegistryInner} {p p' : Pc} (job : Job)
    → Move next inner p taken next' inner' p'
    → holds p ≡ some job
    → active inner ≡ some job
    → OneJob inner
    → Advances job p inner' p'
unfolding Advances
Move-Advances job spawns h a one = inr (h, a, one, omega arith)
Move-Advances job fails_to_spawn h a one = inr (h, a, one, omega arith)
Move-Advances {inner} job (clears {job = j}) h a one = inl (
    nothing_active _ (λ other e.
      let (b, differ) = clear-active j inner other one e in
      differ (some-injective (h ∙ sym a ∙ b))))
Move-Advances {inner} job (finishes {job = j} result e) h a one = inl (
    nothing_active _ (λ other f.
      let (b, differ) = finish-active j result inner other one f in
      differ (some-injective (h ∙ sym a ∙ b))))
Move-Advances job (refused e) h a one = absurd (none_clash h)
Move-Advances job (admitted e) h a one = absurd (none_clash h)
Move-Advances job gives_up h a one = absurd (none_clash h)
Move-Advances job (takes_id j e) h a one = absurd (none_clash h)
Move-Advances job (takes_zero e) h a one = absurd (none_clash h)
Move-Advances job (registers e) h a one = absurd (none_clash h)
Move-Advances job (loses e) h a one = absurd (none_clash h)
Move-Advances job (cancels job_id n e) h a one = absurd (none_clash h)
Move-Advances job records h a one = absurd (none_clash h)

-- The holder of a job can always take a step.
enabled :
    (next : ℕ) (inner : JobRegistryInner) (p : Pc) {job : Job}
    → holds p ≡ some job
    → NextStep next inner p
enabled next inner (registered job) h = takes spawns
enabled next inner (unspawned job) h = takes clears
enabled next inner (working job) h =
    takes (finishes (cancelled_result receiver (job_id_of job) 0) refl)
enabled next inner unstarted h = absurd (none_clash h)
enabled next inner prepared h = absurd (none_clash h)
enabled next inner (numbered job) h = absurd (none_clash h)
enabled next inner (cancelling result) h = absurd (none_clash h)

holds-rank : (p : Pc) {job : Job} → holds p ≡ some job → 1 ≤ rank p
holds-rank (registered job) h = omega arith
holds-rank (unspawned job) h = omega arith
holds-rank (working job) h = omega arith
holds-rank unstarted h = absurd (none_clash h)
holds-rank prepared h = absurd (none_clash h)
holds-rank (numbered job) h = absurd (none_clash h)
holds-rank (cancelling result) h = absurd (none_clash h)

holder-Ends :
    (k : ℕ) (s : Agent) (i : ℕ) (job : Job)
    → rank (s.pc i) ≤ k
    → holds (s.pc i) ≡ some job
    → active s.inner ≡ some job
    → OneJob s.inner
    → Ends i s
unfolding Advances
holder-Ends zero s i job few h a one = absurd (omega (arith, few, holds-rank (s.pc i) h))
holder-Ends (suc k) s i job few h a one =
    goes_on {s = s} (enabled s.next_job_id s.inner (s.pc i) h) (λ taken next inner p m.
      let t = moved s i next inner p in
      let here : t.pc i ≡ p = update-same s.pc i p in
      elim (Move-Advances job m h a one) [
        | inl quiet ↦ idle quiet
        | inr (h', a', one', less) ↦
            holder-Ends k t i job (subst (λ q. rank q ≤ k) (sym here) (omega (arith, few, less)))
              (subst (λ q. holds q ≡ some job) (sym here) h') a' one'
      ])

-- In every reachable state in which the agent is busy a thread holds the active job, and whichever
-- steps this thread takes from there, the others standing still, it is never stuck, and after finitely
-- many of them the registry is idle.
pub idle_again :
    (n : ℕ) (s : Agent)
    → Reach n s
    → is_busy s.inner ≡ true
    → (job : Job) × (i : ℕ) × (active s.inner ≡ some job) × (holds (s.pc i) ≡ some job) × Ends i s
idle_again n s r busy =
    let (job, a) = busy_active s.inner busy in
    let (i, held) = Reach-Owned r job a in
    (job, i, a, held, holder-Ends (rank (s.pc i)) s i job (omega arith) held a (Reach-OneJob r))
