-- ===== src/Manager/Jobs/Ids.antt =====
-- management_jobs.rs: no two threads have the same job id, while the counter has not wrapped.
use native.Mathlib.Decide.{ℕ_discrete}
use networkcopy_speed.Common.{
  ℕ, ◌+◌, ◌%◌, ◌^◌, ◌≤◌, ◌<◌, ◌≡◌, refl, sym, ap, subst, ◌∙◌, ◌⊎◌, inl, inr, Bool-cases, ◌==◌,
  Option, none, some, some-injective, ok, arith, ok-injective,
}
use networkcopy_speed.Manager.Jobs.{JobRegistryInner, fetch_job_id}
use networkcopy_speed.Manager.Jobs.Steps.{
  job_id_of, Pc, unstarted, prepared, numbered, registered, working, unspawned, cancelling, Move,
  Agent, Step, step, Reach, start, later, refused, admitted, gives_up, takes_id, takes_zero,
  registers, loses, spawns, fails_to_spawn, clears, finishes, cancels, records, update,
}
use networkcopy_speed.Manager.Jobs.Invariant.{update-same, update-other, none_clash}

-- The id of the job that a thread works for.
abbrev pub number : Pc → Option ℕ
number (numbered job) = some (job_id_of job)
number (registered job) = some (job_id_of job)
number (working job) = some (job_id_of job)
number (unspawned job) = some (job_id_of job)
number unstarted = none
number prepared = none
number (cancelling result) = none

fetch_job_id-eq_ok : (next : ℕ) {id : ℕ} → (fetch_job_id next).0 ≡ ok id → next ≡ id
unfolding fetch_job_id
fetch_job_id-eq_ok next e = elim (Bool-cases (next == 0)) [
  | inl z ↦ (let bad = (rw z at e) in cc)
  | inr z ↦ ok-injective (rw z at e)
]

-- A step takes no id, or the next one for its own thread.
record Numbers (next taken next' : ℕ) (p p' : Pc) : Type 0 where
  counter : ((taken ≡ 0) × (next' ≡ next)) ⊎ ((taken ≡ 1) × (next' ≡ (next + 1) % 2 ^ 64))
  origin : (k : ℕ) → number p' ≡ some k → (number p ≡ some k) ⊎ ((taken ≡ 1) × (k ≡ next))

no_id :
    {next taken next' : ℕ} {p p' : Pc}
    → ((taken ≡ 0) × (next' ≡ next)) ⊎ ((taken ≡ 1) × (next' ≡ (next + 1) % 2 ^ 64))
    → number p' ≡ none
    → Numbers next taken next' p p'
no_id c e = record { counter = c; origin = λ k h. absurd (none_clash (sym e ∙ h)) }

same_id : {next : ℕ} {p p' : Pc} → number p' ≡ number p → Numbers next 0 next p p'
same_id e = record { counter = inl (refl, refl); origin = λ k h. inl (sym e ∙ h) }

Move-Numbers :
    {next taken next' : ℕ} {inner inner' : JobRegistryInner} {p p' : Pc}
    → Move next inner p taken next' inner' p'
    → Numbers next taken next' p p'
unfolding fetch_job_id
Move-Numbers (refused e) = same_id refl
Move-Numbers (admitted e) = same_id refl
Move-Numbers gives_up = same_id refl
Move-Numbers {next} (takes_id job e) = record {
  counter = inr (refl, refl);
  origin = λ k h. inr (refl, sym (some-injective h) ∙ sym (fetch_job_id-eq_ok next e));
}
Move-Numbers (takes_zero e) = no_id (inr (refl, refl)) refl
Move-Numbers (registers e) = same_id refl
Move-Numbers (loses e) = no_id (inl (refl, refl)) refl
Move-Numbers spawns = same_id refl
Move-Numbers fails_to_spawn = same_id refl
Move-Numbers clears = no_id (inl (refl, refl)) refl
Move-Numbers (finishes result e) = no_id (inl (refl, refl)) refl
Move-Numbers (cancels job_id n e) = same_id refl
Move-Numbers records = same_id refl

-- The ids that are taken are the numbers up to `n`, and two threads have different ones.
pub record Ids (n : ℕ) (s : Agent) : Type 0 where
  pub counter : s.next_job_id ≡ n + 1
  pub below : (i k : ℕ) → number (s.pc i) ≡ some k → k ≤ n
  pub distinct : (i j k : ℕ) → number (s.pc i) ≡ some k → number (s.pc j) ≡ some k → i ≡ j

-- The id of a thread behind a step: an old one of that thread, or the next one of the thread that steps.
Step-origin :
    {taken next next' : ℕ} (pc : ℕ → Pc) (i : ℕ) (p : Pc)
    → Numbers next taken next' (pc i) p
    → (a k : ℕ) → number (update pc i p a) ≡ some k
    → (number (pc a) ≡ some k) ⊎ ((a ≡ i) × (taken ≡ 1) × (k ≡ next))
Step-origin pc i p m a k h = elim (ℕ_discrete i a) [
  | yes same ↦
      let here : number p ≡ some k =
        ap number (sym (update-same pc i p))
        ∙ subst (λ j. number (update pc i p j) ≡ some k) (sym same) h in
      elim (m.origin k here) [
        | inl old ↦ inl (subst (λ j. number (pc j) ≡ some k) same old)
        | inr (t, fresh) ↦ inr (sym same, t, fresh)
      ]
  | no other ↦ inl (ap number (sym (update-other pc i p a other)) ∙ h)
]

Step-Ids :
    {n taken : ℕ} {s t : Agent}
    → Step s taken t
    → n + taken + 1 < 2 ^ 64
    → Ids n s
    → Ids (n + taken) t
Step-Ids {n} {taken} {s} (step i {p} m) few ids =
    let numbers = Move-Numbers m in
    record {
      counter = elim numbers.counter [
        | inl (t, c) ↦ omega (arith, t, c, ids.counter)
        | inr (t, c) ↦ omega (arith, t, c, ids.counter, few)
      ];
      below = λ a k h. elim (Step-origin s.pc i p numbers a k h) [
        | inl old ↦ omega (arith, ids.below a k old)
        | inr (_, t, fresh) ↦ omega (arith, t, fresh, ids.counter)
      ];
      distinct = λ a b k h g. elim (Step-origin s.pc i p numbers a k h) [
        | inl old ↦ elim (Step-origin s.pc i p numbers b k g) [
          | inl old' ↦ ids.distinct a b k old old'
          | inr (_, t, fresh) ↦ absurd (omega (arith, ids.below a k old, fresh, ids.counter))
        ]
        | inr (at, t, fresh) ↦ elim (Step-origin s.pc i p numbers b k g) [
          | inl old' ↦ absurd (omega (arith, ids.below b k old', fresh, ids.counter))
          | inr (at', _, _) ↦ at ∙ sym at'
        ]
      ];
    }

pub Reach-Ids : {n : ℕ} {s : Agent} → Reach n s → n + 1 < 2 ^ 64 → Ids n s
Reach-Ids start few = record {
  counter = refl;
  below = λ i k h. absurd (none_clash h);
  distinct = λ i j k h g. absurd (none_clash h);
}
Reach-Ids (later r m) few = Step-Ids m few (Reach-Ids r (omega (arith, few)))
