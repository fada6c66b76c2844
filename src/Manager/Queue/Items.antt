-- ===== src/Manager/Queue/Items.antt =====
-- The queue's entries: distinct ids, a retained entry, and how the list operations of
-- management_queue.rs keep both.
use networkcopy_speed.Common.{
  ℕ, zero, suc, ◌<◌, ◌≡◌, ◌≢◌, refl, ◌∙◌, ◌⊎◌, inl, inr, Bool, true, false, List, [], ◌∷◌, ◌++◌,
  some, arith, length, All, All-append, retain, swap_next, remove_at, position, Bool-cases, ==→eq,
}
use networkcopy_speed.Manager.Queue.Request.{QueuedTransfer, may_retain_active_binding}
use networkcopy_speed.Manager.Queue.{has_id, modify}

-- No two entries share an id.
abbrev pub DistinctIds : List QueuedTransfer → Type 0
DistinctIds [] = Unit {0}
DistinctIds (x ∷ xs) = All (λ (y : QueuedTransfer). y.id ≢ x.id) xs × DistinctIds xs

-- Some entry has the id, and is running or blocked.
abbrev pub Retains : ℕ → List QueuedTransfer → Type 0
Retains id [] = ⊥
Retains id (x ∷ xs) = ((x.id ≡ id) × (may_retain_active_binding x.state ≡ true)) ⊎ Retains id xs

module _ {κ} (P : QueuedTransfer → Type κ) where
  pub All-swap_next : (xs : List QueuedTransfer) (i : ℕ) → All P xs → All P (swap_next xs i)
  unfolding swap_next
  All-swap_next [] i h = h
  All-swap_next (x ∷ []) i h = h
  All-swap_next (x ∷ y ∷ xs) zero h = (h.1.0, (h.0, h.1.1))
  All-swap_next (x ∷ y ∷ xs) (suc i) h = (h.0, All-swap_next (y ∷ xs) i h.1)

  pub All-remove_at : (xs : List QueuedTransfer) (i : ℕ) → All P xs → All P (remove_at xs i)
  unfolding remove_at
  All-remove_at [] i h = h
  All-remove_at (x ∷ xs) zero h = h.1
  All-remove_at (x ∷ xs) (suc i) h = (h.0, All-remove_at xs i h.1)

  pub All-retain :
      (t : QueuedTransfer → Bool) (xs : List QueuedTransfer) → All P xs → All P (retain t xs)
  All-retain t [] h = h
  All-retain t (x ∷ xs) h =
      elim (t x) as (λ b. All P (elim b [ true ↦ x ∷ retain t xs | false ↦ retain t xs ])) [
        | true ↦ (h.0, All-retain t xs h.1)
        | false ↦ All-retain t xs h.1
      ]

  pub All-modify :
      (f : QueuedTransfer → QueuedTransfer) (id : ℕ) (xs : List QueuedTransfer)
      → ((x : QueuedTransfer) → P x → P (f x))
      → All P xs
      → All P (modify id f xs)
  All-modify f id [] keep h = h
  All-modify f id (x ∷ xs) keep h = elim (Bool-cases (has_id id x)) [
    | inl e ↦ rw e (keep x h.0, h.1)
    | inr e ↦ rw e (h.0, All-modify f id xs keep h.1)
  ]

pub DistinctIds-swap_next :
    (xs : List QueuedTransfer) (i : ℕ) → DistinctIds xs → DistinctIds (swap_next xs i)
unfolding swap_next
DistinctIds-swap_next [] i h = h
DistinctIds-swap_next (x ∷ []) i h = h
DistinctIds-swap_next (x ∷ y ∷ xs) zero h = ((omega arith, h.1.0), (h.0.1, h.1.1))
DistinctIds-swap_next (x ∷ y ∷ xs) (suc i) h =
    (All-swap_next _ (y ∷ xs) i h.0, DistinctIds-swap_next (y ∷ xs) i h.1)

pub DistinctIds-remove_at :
    (xs : List QueuedTransfer) (i : ℕ) → DistinctIds xs → DistinctIds (remove_at xs i)
unfolding remove_at
DistinctIds-remove_at [] i h = h
DistinctIds-remove_at (x ∷ xs) zero h = h.1
DistinctIds-remove_at (x ∷ xs) (suc i) h =
    (All-remove_at _ xs i h.0, DistinctIds-remove_at xs i h.1)

pub DistinctIds-retain :
    (t : QueuedTransfer → Bool) (xs : List QueuedTransfer)
    → DistinctIds xs
    → DistinctIds (retain t xs)
DistinctIds-retain t [] h = h
DistinctIds-retain t (x ∷ xs) h = elim (Bool-cases (t x)) [
  | inl e ↦ rw (e, DistinctIds) (All-retain _ t xs h.0, DistinctIds-retain t xs h.1)
  | inr e ↦ rw (e, DistinctIds) (DistinctIds-retain t xs h.1)
]

module _ (f : QueuedTransfer → QueuedTransfer) (same : (x : QueuedTransfer) → (f x).id ≡ x.id) where
  pub DistinctIds-modify :
      (id : ℕ) (xs : List QueuedTransfer) → DistinctIds xs → DistinctIds (modify id f xs)
  DistinctIds-modify id [] h = h
  DistinctIds-modify id (x ∷ xs) h = elim (Bool-cases (has_id id x)) [
    | inl e ↦ rw (e, same x) h
    | inr e ↦ rw e (All-modify _ f id xs (λ y p. rw (same y) p) h.0, DistinctIds-modify id xs h.1)
  ]

  -- Another entry stays as it is.
  pub Retains-modify_ne :
      (id j : ℕ) (xs : List QueuedTransfer) → id ≢ j → Retains j xs → Retains j (modify id f xs)
  Retains-modify_ne id j (x ∷ xs) ne h = elim (Bool-cases (has_id id x)) [
    | inl e ↦ rw e (ground (arith, ==→eq x.id id e))
    | inr e ↦ rw e (elim h [ inl p ↦ inl p | inr r ↦ inr (Retains-modify_ne id j xs ne r) ])
  ]
  Retains-modify_ne id j [] ne h = absurd h

  -- The entry itself stays retained if its new state allows that.
  pub Retains-modify :
      (id : ℕ) (xs : List QueuedTransfer)
      → ((x : QueuedTransfer) → may_retain_active_binding (f x).state ≡ true)
      → Retains id xs
      → Retains id (modify id f xs)
  Retains-modify id [] ok h = absurd h
  Retains-modify id (x ∷ xs) ok h = elim (Bool-cases (has_id id x)) [
    | inl e ↦ rw e (inl (same x ∙ ==→eq x.id id e, ok x))
    | inr e ↦ rw e (elim h [ inl p ↦ inl p | inr r ↦ inr (Retains-modify id xs ok r) ])
  ]

pub length-modify :
    (f : QueuedTransfer → QueuedTransfer) (id : ℕ) (xs : List QueuedTransfer)
    → length (modify id f xs) ≡ length xs
length-modify f id [] = refl
length-modify f id (x ∷ xs) = ground (arith, length-modify f id xs)

pub Retains-swap_next :
    (id : ℕ) (xs : List QueuedTransfer) (i : ℕ) → Retains id xs → Retains id (swap_next xs i)
unfolding swap_next
Retains-swap_next id [] i h = h
Retains-swap_next id (x ∷ []) i h = h
Retains-swap_next id (x ∷ y ∷ xs) zero h = ground arith
Retains-swap_next id (x ∷ y ∷ xs) (suc i) h = elim h [
  | inl p ↦ inl p
  | inr r ↦ inr (Retains-swap_next id (y ∷ xs) i r)
]

pub Retains-retain :
    (id : ℕ) (t : QueuedTransfer → Bool) (xs : List QueuedTransfer)
    → ((x : QueuedTransfer) → x.id ≡ id → t x ≡ true)
    → Retains id xs
    → Retains id (retain t xs)
Retains-retain id t [] keep h = h
Retains-retain id t (x ∷ xs) keep h = elim (Bool-cases (t x)) [
  | inl e ↦ rw (e, Retains) (elim h [ inl p ↦ inl p | inr r ↦ inr (Retains-retain id t xs keep r) ])
  | inr e ↦
      rw (e, Retains) (elim h [ inl p ↦ cc (keep x p.0) | inr r ↦ Retains-retain id t xs keep r ])
]

pub Retains-append : (id : ℕ) (xs ys : List QueuedTransfer) → Retains id xs → Retains id (xs ++ ys)
Retains-append id [] ys h = absurd h
Retains-append id (x ∷ xs) ys h = elim h [ inl p ↦ inl p | inr r ↦ inr (Retains-append id xs ys r) ]

-- Removing the first entry with an id keeps every other.
pub Retains-remove_at :
    (id j : ℕ) (xs : List QueuedTransfer) (i : ℕ)
    → position (has_id j) xs ≡ some i
    → id ≢ j
    → Retains id xs
    → Retains id (remove_at xs i)
unfolding remove_at
Retains-remove_at id j [] i e ne h = absurd h
Retains-remove_at id j (x ∷ xs) zero e ne h = ground arith
Retains-remove_at id j (x ∷ xs) (suc i) e ne h = ground (arith, Retains-remove_at id j xs i)

pub DistinctIds-append :
    (xs : List QueuedTransfer) (item : QueuedTransfer)
    → All (λ (x : QueuedTransfer). x.id < item.id) xs
    → DistinctIds xs
    → DistinctIds (xs ++ item ∷ [])
DistinctIds-append [] item below h = (tt, tt)
DistinctIds-append (x ∷ xs) item below h =
    (All-append _ xs (item ∷ []) h.0 (omega arith, tt), DistinctIds-append xs item below.1 h.1)
