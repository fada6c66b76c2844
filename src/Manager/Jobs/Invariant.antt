-- ===== src/Manager/Jobs/Invariant.antt =====
-- management_jobs.rs: what holds of the registry and its threads in every reachable state.
use native.Mathlib.Decide.{ℕ_discrete}
use networkcopy_speed.Common.{
  ℕ, ◌≡◌, ◌≢◌, refl, sym, ap, subst, ◌∙◌, ◌⊎◌, inl, inr, Option, none, some, some-injective, arith,
}
use networkcopy_speed.Manager.Jobs.{JobRegistryInner, end_cancel}
use networkcopy_speed.Manager.Jobs.Steps.{
  Job, Pc, unstarted, prepared, numbered, registered, working, unspawned, cancelling, Move, Agent,
  update, Step, step, Reach, start, later, refused, admitted, gives_up, takes_id, takes_zero,
  registers, loses, spawns, fails_to_spawn, clears, finishes, cancels, records,
}
use networkcopy_speed.Manager.Jobs.Registry.{
  active, OneJob, Quiet-active, register-Quiet, clear-active, finish-active, clear-OneJob,
  finish-OneJob, begin_cancel-Quiet,
}

-- The job whose place in the registry the thread will give up.
abbrev pub holds : Pc → Option Job
holds (registered job) = some job
holds (working job) = some job
holds (unspawned job) = some job
holds unstarted = none
holds prepared = none
holds (numbered job) = none
holds (cancelling result) = none

Move-OneJob :
    {next taken next' : ℕ} {inner inner' : JobRegistryInner} {p p' : Pc}
    → Move next inner p taken next' inner' p'
    → OneJob inner
    → OneJob inner'
unfolding end_cancel
Move-OneJob (refused e) one = one
Move-OneJob (admitted e) one = one
Move-OneJob gives_up one = one
Move-OneJob (takes_id job e) one = one
Move-OneJob (takes_zero e) one = one
Move-OneJob {inner} (registers {job} e) one = (register-Quiet job inner e).1
Move-OneJob (loses e) one = one
Move-OneJob spawns one = one
Move-OneJob fails_to_spawn one = one
Move-OneJob {inner} (clears {job}) one = clear-OneJob job inner one
Move-OneJob {inner} (finishes {job} result e) one = finish-OneJob job result inner one
Move-OneJob {inner} (cancels job_id n e) one = inl (begin_cancel-Quiet job_id inner one e).0
Move-OneJob records one = one

-- A job that is active behind a step was registered by it, or was active before, and the thread that
-- steps has not let go of it.
Kept : JobRegistryInner → Pc → Pc → Job → Type 0
Kept inner p p' job =
    (holds p' ≡ some job) ⊎ ((active inner ≡ some job) × (holds p ≡ some job → holds p' ≡ some job))

pub none_clash : {A : Type 0} {a : A} → none ≢ some a
none_clash e = cc

Move-Kept :
    {next taken next' : ℕ} {inner inner' : JobRegistryInner} {p p' : Pc} (job : Job)
    → Move next inner p taken next' inner' p'
    → OneJob inner
    → active inner' ≡ some job
    → Kept inner p p' job
unfolding end_cancel Kept
Move-Kept job (refused e) one a = inr (a, λ h. absurd (none_clash h))
Move-Kept job (admitted e) one a = inr (a, λ h. absurd (none_clash h))
Move-Kept job gives_up one a = inr (a, λ h. absurd (none_clash h))
Move-Kept job (takes_id j e) one a = inr (a, λ h. absurd (none_clash h))
Move-Kept job (takes_zero e) one a = inr (a, λ h. absurd (none_clash h))
Move-Kept {inner} job (registers {job = j} e) one a = inl (sym (register-Quiet j inner e).2 ∙ a)
Move-Kept job (loses e) one a = inr (a, λ h. absurd (none_clash h))
Move-Kept job spawns one a = inr (a, λ h. h)
Move-Kept job fails_to_spawn one a = inr (a, λ h. h)
Move-Kept {inner} job (clears {job = j}) one a =
    let (b, other) = clear-active j inner job one a in
    inr (b, λ h. absurd (other (some-injective h)))
Move-Kept {inner} job (finishes {job = j} result e) one a =
    let (b, other) = finish-active j result inner job one a in
    inr (b, λ h. absurd (other (some-injective h)))
Move-Kept {inner} job (cancels job_id n {inner' = i} e) one a =
    absurd (none_clash (sym (Quiet-active i (begin_cancel-Quiet job_id inner one e)) ∙ a))
Move-Kept job records one a = inr (a, λ h. absurd (none_clash h))

-- Some thread holds the active job.
abbrev pub Owned : Agent → Type 0
Owned s = (job : Job) → active s.inner ≡ some job → (i : ℕ) × (holds (s.pc i) ≡ some job)

pub update-same : {A : Type 0} (f : ℕ → A) (i : ℕ) (a : A) → update f i a i ≡ a
update-same f i a = ground arith

pub update-other : {A : Type 0} (f : ℕ → A) (i : ℕ) (a : A) (j : ℕ) → i ≢ j → update f i a j ≡ f j
update-other f i a j h = ground arith

Step-Owned : {s t : Agent} {taken : ℕ} → Step s taken t → OneJob s.inner → Owned s → Owned t
unfolding Kept
Step-Owned {s} (step i {p} m) one owned job a = elim (Move-Kept job m one a) [
  | inl held ↦ (i, ap holds (update-same s.pc i p) ∙ held)
  | inr (before, keeps) ↦
      let (j, held) = owned job before in
      elim (ℕ_discrete i j) [
        | yes same ↦ (
          i,
          ap holds (update-same s.pc i p)
              ∙ keeps (subst (λ k. holds (s.pc k) ≡ some job) (sym same) held),
        )
        | no other ↦ (j, ap holds (update-other s.pc i p j other) ∙ held)
      ]
]

Step-OneJob : {s t : Agent} {taken : ℕ} → Step s taken t → OneJob s.inner → OneJob t.inner
Step-OneJob (step i m) one = Move-OneJob m one

-- In every reachable state a receiver and a sender are not active together.
pub Reach-OneJob : {n : ℕ} {s : Agent} → Reach n s → OneJob s.inner
Reach-OneJob start = inl refl
Reach-OneJob (later r m) = Step-OneJob m (Reach-OneJob r)

-- In every reachable state a thread holds the active job.
pub Reach-Owned : {n : ℕ} {s : Agent} → Reach n s → Owned s
Reach-Owned start = λ job a. absurd (none_clash a)
Reach-Owned (later r m) = Step-Owned m (Reach-OneJob r) (Reach-Owned r)
