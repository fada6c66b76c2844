-- ===== src/Manager/Jobs/Registry.antt =====
-- management_jobs.rs: what the critical sections do to the active job.
use mathlib.Core.Path.{ap₂}
use networkcopy_speed.Common.{
  ℕ, ◌≡◌, ◌≢◌, refl, sym, ap, subst, ◌∙◌, ◌⊎◌, inl, inr, false, not, Bool-cases, List, Option, none,
  some, some-injective, ◌==◌, ==→eq, ok, reject_if, >>=-eq_ok, ok-injective, arith,
}
use networkcopy_speed.Manager.Jobs.{
  PreparedReceiveJob, StartedSendJob, ManagementJobResult, ManagementJobRole, JobRegistryInner,
  active_job_id, receive_job_id, job_id_or, send_job_id, has_job_id, is_some, reject_busy,
  register_receive, register_send, finish_receive, finish_send, clear_receive, clear_send,
  take_active, begin_cancel,
}
use networkcopy_speed.Manager.Jobs.Steps.{Job, receive, send, job_id_of, register, finish, clear}

-- The job that active_job_id and status show.
abbrev pub active_of : Option PreparedReceiveJob → Option StartedSendJob → Option Job
active_of (some job) s = some (receive job)
active_of none (some job) = some (send job)
active_of none none = none

abbrev pub active : JobRegistryInner → Option Job
active inner = active_of inner.active_receive inner.active_send

-- Not both a receiver and a sender are active.
abbrev pub OneJob : JobRegistryInner → Type 0
OneJob inner = (inner.active_receive ≡ none) ⊎ (inner.active_send ≡ none)

-- Nothing is active.
abbrev pub Quiet : JobRegistryInner → Type 0
Quiet inner = (inner.active_receive ≡ none) × (inner.active_send ≡ none)

active_job_id-none :
    (r : Option PreparedReceiveJob) (s : Option StartedSendJob)
    → is_some (job_id_or (receive_job_id r) s) ≡ false
    → (r ≡ none) × (s ≡ none)
active_job_id-none (some job) s e = cc
active_job_id-none none (some job) e = cc
active_job_id-none none none e = (refl, refl)

pub reject_busy-Quiet :
    (inner : JobRegistryInner) {u : Unit {0}} → reject_busy inner ≡ ok u → Quiet inner
unfolding reject_busy active_job_id
reject_busy-Quiet inner e =
    elim (Bool-cases
      (is_some (job_id_or (receive_job_id inner.active_receive) inner.active_send))) [
        | inl z ↦ (let bad = (rw z at e) in cc)
        | inr z ↦ active_job_id-none inner.active_receive inner.active_send z
      ]

pub register-Quiet :
    (job : Job) (inner : JobRegistryInner) {inner' : JobRegistryInner}
    → register job inner ≡ ok inner'
    → Quiet inner × OneJob inner' × (active inner' ≡ some job)
unfolding register_receive register_send
register-Quiet (receive job) inner e =
    let (u, b, e') = >>=-eq_ok (reject_busy inner) _ e in
    let quiet = reject_busy-Quiet inner b in
    let same = ok-injective e' in (quiet, subst OneJob same (inr quiet.1), ap active (sym same))
register-Quiet (send job) inner e =
    let (u, b, e') = >>=-eq_ok (reject_busy inner) _ e in
    let quiet = reject_busy-Quiet inner b in
    let same = ok-injective e' in
    (
      quiet,
      subst OneJob same (inl quiet.0),
      ap active (sym same) ∙ ap (λ r. active_of r (some job)) quiet.0,
    )

-- finish does to the active jobs what clear does.
pub finish-clear :
    (job : Job) (result : ManagementJobResult) (inner : JobRegistryInner)
    → ((finish job result inner).active_receive ≡ (clear job inner).active_receive)
      × ((finish job result inner).active_send ≡ (clear job inner).active_send)
unfolding finish_receive finish_send clear_receive clear_send
finish-clear (receive job) result inner =
    elim (Bool-cases (has_job_id job.job_id (receive_job_id inner.active_receive))) [
      | inl z ↦ rw z (refl, refl)
      | inr z ↦ rw z (refl, refl)
    ]
finish-clear (send job) result inner =
    elim (Bool-cases (has_job_id job.job_id (send_job_id inner.active_send))) [
      | inl z ↦ rw z (refl, refl)
      | inr z ↦ rw z (refl, refl)
    ]

some_clash : {A : Type 0} {a : A} → some a ≢ none
some_clash e = cc

receive_clash : {a : PreparedReceiveJob} {b : StartedSendJob} → receive a ≢ send b
receive_clash e = cc

one_clash :
    (k : PreparedReceiveJob) (s : Option StartedSendJob) (other : Job)
    → (some k ≡ none) ⊎ (s ≡ none)
    → active_of none s ≡ some other
    → ⊥
one_clash k s other (inl x) e = cc
one_clash k (some j) other (inr x) e = cc
one_clash k none other (inr x) e = cc

==-false : (a b : ℕ) → (a == b) ≡ false → a ≢ b
==-false a b e = ground arith

module _ (l : Option ManagementJobResult) where
  abbrev inner_of : Option PreparedReceiveJob → Option StartedSendJob → JobRegistryInner
  inner_of r s = record { active_receive = r; active_send = s; latest_result = l }

  clear-inner_of :
      (job : Job) (r : Option PreparedReceiveJob) (s : Option StartedSendJob) (other : Job)
      → OneJob (inner_of r s)
      → active (clear job (inner_of r s)) ≡ some other
      → (active (inner_of r s) ≡ some other) × (job ≢ other)
  unfolding clear_receive clear_send
  clear-inner_of (receive j) none (some k) other one e = (e, λ same. cc)
  clear-inner_of (receive j) none none other one e = cc
  clear-inner_of (receive j) (some k) s other one e = elim (Bool-cases (k.job_id == j.job_id)) [
    | inl z ↦
        let rest : active_of none s ≡ some other = (rw z at e) in
        absurd (one_clash k s other one rest)
    | inr z ↦
        let this : receive k ≡ other = some-injective (rw z at e) in
        (ap some this, λ same. ==-false k.job_id j.job_id z (ap job_id_of (this ∙ sym same)))
  ]
  clear-inner_of (send j) (some k) s other one e =
      let this : receive k ≡ other = (elim (Bool-cases (has_job_id j.job_id (send_job_id s))) [
        | inl z ↦ some-injective (rw z at e)
        | inr z ↦ some-injective (rw z at e)
      ]) in
      (ap some this, λ same. receive_clash (this ∙ sym same))
  clear-inner_of (send j) none none other one e = cc
  clear-inner_of (send j) none (some k) other one e = elim (Bool-cases (k.job_id == j.job_id)) [
    | inl z ↦ (let bad : none ≡ some other = (rw z at e) in cc)
    | inr z ↦
        let this : send k ≡ other = some-injective (rw z at e) in
        (ap some this, λ same. ==-false k.job_id j.job_id z (ap job_id_of (this ∙ sym same)))
  ]

-- Behind clear no other job is active than before, and not the job itself.
pub clear-active :
    (job : Job) (inner : JobRegistryInner) (other : Job)
    → OneJob inner
    → active (clear job inner) ≡ some other
    → (active inner ≡ some other) × (job ≢ other)
clear-active job inner other =
    clear-inner_of inner.latest_result job inner.active_receive inner.active_send other

pub finish-active :
    (job : Job) (result : ManagementJobResult) (inner : JobRegistryInner) (other : Job)
    → OneJob inner
    → active (finish job result inner) ≡ some other
    → (active inner ≡ some other) × (job ≢ other)
finish-active job result inner other one e =
    let (r, s) = finish-clear job result inner in
    clear-active job inner other one (ap₂ active_of (sym r) (sym s) ∙ e)

pub clear-OneJob : (job : Job) (inner : JobRegistryInner) → OneJob inner → OneJob (clear job inner)
unfolding clear_receive clear_send
clear-OneJob (receive job) inner one =
    elim (Bool-cases (has_job_id job.job_id (receive_job_id inner.active_receive))) [
      | inl z ↦ rw z (inl refl)
      | inr z ↦ rw z one
    ]
clear-OneJob (send job) inner one =
    elim (Bool-cases (has_job_id job.job_id (send_job_id inner.active_send))) [
      | inl z ↦ rw z (inr refl)
      | inr z ↦ rw z one
    ]

pub finish-OneJob :
    (job : Job) (result : ManagementJobResult) (inner : JobRegistryInner)
    → OneJob inner
    → OneJob (finish job result inner)
finish-OneJob job result inner one =
    let (r, s) = finish-clear job result inner in
    elim (clear-OneJob job inner one) [ inl x ↦ inl (r ∙ x) | inr x ↦ inr (s ∙ x) ]

take_active-cases :
    (l : Option ManagementJobResult) (r : Option PreparedReceiveJob) (s : Option StartedSendJob)
    {inner' : JobRegistryInner} {role : ManagementJobRole} {destination : Option (List ℕ)}
    → OneJob (inner_of l r s)
    → take_active (inner_of l r s) ≡ ok (inner', role, destination)
    → Quiet inner'
take_active-cases l (some job) s one e =
    let same = ap (λ x. x.0) (ok-injective e) in
    let rest : s ≡ none = (elim one [ inl x ↦ absurd (some_clash x) | inr x ↦ x ]) in
    subst Quiet same (refl, rest)
take_active-cases l none (some job) one e =
    subst Quiet (ap (λ x. x.0) (ok-injective e)) (refl, refl)
take_active-cases l none none one e = cc

take_active-Quiet :
    (inner : JobRegistryInner) {inner' : JobRegistryInner} {role : ManagementJobRole}
    {destination : Option (List ℕ)}
    → OneJob inner
    → take_active inner ≡ ok (inner', role, destination)
    → Quiet inner'
take_active-Quiet inner {inner'} one e =
    take_active-cases inner.latest_result inner.active_receive inner.active_send one e

-- Nothing is active behind the first critical section of cancel.
pub begin_cancel-Quiet :
    (job_id : ℕ) (inner : JobRegistryInner) {inner' : JobRegistryInner} {role : ManagementJobRole}
    {destination : Option (List ℕ)}
    → OneJob inner
    → begin_cancel job_id inner ≡ ok (inner', role, destination)
    → Quiet inner'
unfolding begin_cancel
begin_cancel-Quiet job_id inner one e =
    let (_, a, e₁) = >>=-eq_ok (reject_if (job_id == 0) _) _ e in
    let (_, b, e₂) = >>=-eq_ok (reject_if (not (is_some (active_job_id inner))) _) _ e₁ in
    let (_, c, e₃) = >>=-eq_ok (reject_if (not (has_job_id job_id (active_job_id inner))) _) _ e₂ in
    take_active-Quiet inner one e₃

pub Quiet-active : (inner : JobRegistryInner) → Quiet inner → active inner ≡ none
Quiet-active inner (r, s) = ap₂ active_of r s

finish-inner_of :
    (job : Job) (result : ManagementJobResult) (l : Option ManagementJobResult)
    (r : Option PreparedReceiveJob) (s : Option StartedSendJob)
    → OneJob (inner_of l r s)
    → ((other : Job) → active (inner_of l r s) ≡ some other → job_id_of job ≢ job_id_of other)
    → finish job result (inner_of l r s) ≡ inner_of l r s
unfolding finish_receive finish_send
finish-inner_of (receive j) result l none s one differs = refl
finish-inner_of (receive j) result l (some k) s one differs =
    elim (Bool-cases (k.job_id == j.job_id)) [
      | inl z ↦ absurd (differs (receive k) refl (sym (==→eq k.job_id j.job_id z)))
      | inr z ↦ rw z refl
    ]
finish-inner_of (send j) result l r none one differs = refl
finish-inner_of (send j) result l none (some k) one differs =
    elim (Bool-cases (k.job_id == j.job_id)) [
      | inl z ↦ absurd (differs (send k) refl (sym (==→eq k.job_id j.job_id z)))
      | inr z ↦ rw z refl
    ]
finish-inner_of (send j) result l (some i) (some k) one differs = elim one [
  | inl x ↦ absurd (some_clash x)
  | inr x ↦ absurd (some_clash x)
]

-- Where the active job, if there is one, has another id, finish changes nothing.
pub finish-same :
    (job : Job) (result : ManagementJobResult) (inner : JobRegistryInner)
    → OneJob inner
    → ((other : Job) → active inner ≡ some other → job_id_of job ≢ job_id_of other)
    → finish job result inner ≡ inner
finish-same job result inner =
    finish-inner_of job result inner.latest_result inner.active_receive inner.active_send
