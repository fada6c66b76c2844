-- ===== src/Manager/Jobs/Cancel.antt =====
-- management_jobs.rs: when a job can be cancelled, and what status shows.
use networkcopy_speed.Common.{
  ℕ, ◌≡◌, ◌≢◌, ◌↔◌, refl, sym, ap, subst, inl, inr, true, false, not, Option, none, some, arith,
  reject_if, >>=-eq_ok, ◌==◌, ==→eq, ==-refl, Fails, Result-cases,
}
use networkcopy_speed.Manager.Jobs.{
  JobRegistryInner, PreparedReceiveJob, StartedSendJob, active_job_id, is_some, has_job_id,
  take_active, begin_cancel, job_id_or, receive_job_id,
}

has_job_id-eq : (job_id : ℕ) (o : Option ℕ) → has_job_id job_id o ≡ true → o ≡ some job_id
has_job_id-eq job_id none e = cc
has_job_id-eq job_id (some id) e = ap some (==→eq id job_id e)

take_active-some :
    (inner : JobRegistryInner) (r : Option PreparedReceiveJob) (s : Option StartedSendJob) {id : ℕ}
    → inner.active_receive ≡ r
    → inner.active_send ≡ s
    → job_id_or (receive_job_id r) s ≡ some id
    → ¬ Fails (take_active inner)
take_active-some inner (some job) s a b e = rw a (λ bad. bad)
take_active-some inner none (some job) a b e = rw a (rw b (λ bad. bad))
take_active-some inner none none a b e = cc

begin_cancel-only :
    (job_id : ℕ) (inner : JobRegistryInner)
    → ¬ Fails (begin_cancel job_id inner)
    → (job_id ≢ 0) × (active_job_id inner ≡ some job_id)
unfolding begin_cancel
begin_cancel-only job_id inner goes = elim (Result-cases (begin_cancel job_id inner)) [
  | inl (_, e) ↦
      let (_, a, e₁) = >>=-eq_ok (reject_if (job_id == 0) _) _ e in
      let (_, b, e₂) = >>=-eq_ok (reject_if (not (is_some (active_job_id inner))) _) _ e₁ in
      let (_, c, e₃) =
        >>=-eq_ok (reject_if (not (has_job_id job_id (active_job_id inner))) _) _ e₂ in
      let same : has_job_id job_id (active_job_id inner) ≡ true = (ground arith) in
      (ground arith, has_job_id-eq job_id (active_job_id inner) same)
  | inr (_, e) ↦ absurd (goes (subst Fails (sym e) tt))
]

begin_cancel-goes :
    (job_id : ℕ) (inner : JobRegistryInner)
    → (job_id ≢ 0) × (active_job_id inner ≡ some job_id)
    → ¬ Fails (begin_cancel job_id inner)
unfolding begin_cancel active_job_id
begin_cancel-goes job_id inner (some_id, a) =
    let served : (job_id == 0) ≡ false = (ground arith) in
    rw (served, a)
      (rw (==-refl job_id)
        (take_active-some inner inner.active_receive inner.active_send refl refl a))

-- The first half of a cancellation succeeds just where the requested id is not zero and is the active
-- job's.
pub begin_cancel-active_job_id :
    (job_id : ℕ) (inner : JobRegistryInner)
    → (¬ Fails (begin_cancel job_id inner)) ↔ ((job_id ≢ 0) × (active_job_id inner ≡ some job_id))
begin_cancel-active_job_id job_id inner =
    (begin_cancel-only job_id inner, begin_cancel-goes job_id inner)
