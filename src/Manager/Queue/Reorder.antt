-- ===== src/Manager/Queue/Reorder.antt =====
-- What move_up and move_down of TransferQueue do to the order of the entries.
use mathlib.Core.List.{Perm}
use networkcopy_speed.Common.{
  ℕ, zero, suc, ◌<◌, ◌≤◌, ◌≡◌, ◌≢◌, refl, sym, subst, ◌||◌, ◌∙◌, ◌⊎◌, inl, inr, Bool, true, false,
  none, some, arith, length, get_elem?, position, swap_next, leb, Option-cases, Bool-cases,
}
use networkcopy_speed.Manager.Queue.Request.{QueuedTransfer, is_running}
use networkcopy_speed.Manager.Queue.Positions.{
  position-get_elem?, get_elem?-lt, lt-get_elem?, swap_next-perm, get_elem?-swap_next,
  get_elem?-swap_next_ne,
}
use networkcopy_speed.Manager.Queue.{
  TransferQueue, has_id, is_bound, is_bound_at, is_running_at, refuses_down, move_up, move_down,
}

-- An entry that must keep its place: it is running, or the active binding is of it.
abbrev pub IsPinned : TransferQueue → QueuedTransfer → Type 0
IsPinned q x = (is_running x.state ≡ true) ⊎ (is_bound q x.id ≡ true)

-- A reordering by one step: two neighbours, neither of them pinned, trade places.
pub record Exchanged (q r : TransferQueue) (i : ℕ) : Type 0 where
  pub upper : QueuedTransfer
  pub lower : QueuedTransfer
  pub upper_before : get_elem? q.items i ≡ some upper
  pub lower_before : get_elem? q.items (suc i) ≡ some lower
  pub upper_after : get_elem? r.items (suc i) ≡ some upper
  pub lower_after : get_elem? r.items i ≡ some lower
  pub upper_free : ¬ IsPinned q upper
  pub lower_free : ¬ IsPinned q lower
  pub others : (j : ℕ) → j ≢ i → j ≢ suc i → get_elem? r.items j ≡ get_elem? q.items j
  pub permuted : Perm r.items q.items
  pub rest : r ≡ record q { items = r.items }

swapped-Exchanged :
    (q : TransferQueue) (i : ℕ)
    → suc i < length q.items
    → ((x : QueuedTransfer) → get_elem? q.items i ≡ some x → ¬ IsPinned q x)
    → ((x : QueuedTransfer) → get_elem? q.items (suc i) ≡ some x → ¬ IsPinned q x)
    → Exchanged q (record q { items = swap_next q.items i }) i
swapped-Exchanged q i h fu fl =
    let (u, eu) = lt-get_elem? q.items i (omega arith) in
    let (l, el) = lt-get_elem? q.items (suc i) h in
    let (a, b) = get_elem?-swap_next q.items i h in
    record {
      upper = u;
      lower = l;
      upper_before = eu;
      lower_before = el;
      upper_after = b ∙ eu;
      lower_after = a ∙ el;
      upper_free = fu u eu;
      lower_free = fl l el;
      others = λ j ne me. get_elem?-swap_next_ne q.items i j ne me;
      permuted = swap_next-perm q.items i;
      rest = refl;
    }

free_at :
    (q : TransferQueue) (i : ℕ)
    → is_bound_at q i ≡ false
    → is_running_at q i ≡ false
    → (x : QueuedTransfer) → get_elem? q.items i ≡ some x
    → ¬ IsPinned q x
unfolding is_bound_at is_running_at
free_at q i b r x e = ground arith

free_with_id :
    (q : TransferQueue) (id i : ℕ)
    → position (has_id id) q.items ≡ some i
    → is_bound q id ≡ false
    → is_running_at q i ≡ false
    → (x : QueuedTransfer) → get_elem? q.items i ≡ some x
    → ¬ IsPinned q x
unfolding is_running_at is_bound
free_with_id q id i p b r x e =
    let (y, ey, ty) = position-get_elem? (has_id id) q.items i p in
    let same : y ≡ x = (ground arith) in let named : x.id ≡ id = (ground arith) in ground arith

-- An unpinned entry goes one place up: what `move_up` checks is what `Exchanged` asks for.
exchange :
    (q : TransferQueue) (id i j : ℕ)
    → suc i < length q.items
    → position (has_id id) q.items ≡ some j
    → (j ≡ i) ⊎ (j ≡ suc i)
    → is_bound q id ≡ false
    → ((j ≡ suc i) → is_bound_at q i ≡ false)
    → ((j ≡ i) → is_bound_at q (suc i) ≡ false)
    → is_running_at q i ≡ false
    → is_running_at q (suc i) ≡ false
    → Exchanged q (record q { items = swap_next q.items i }) i
exchange q id i j room p (inl e) free above below r s =
    swapped-Exchanged q i room (free_with_id q id i (rw e at p) free r)
      (free_at q (suc i) (below e) s)
exchange q id i j room p (inr e) free above below r s =
    swapped-Exchanged q i room (free_at q i (above e) r)
      (free_with_id q id (suc i) (rw e at p) free s)

abbrev pub Unchanged : TransferQueue → TransferQueue × Bool → Type 0
Unchanged q result = result ≡ (q, false)

abbrev pub Exchanges : TransferQueue → TransferQueue × Bool → ℕ → Type 0
Exchanges q result i = (result.1 ≡ true) × Exchanged q result.0 i

swap-Exchanges :
    (q : TransferQueue) (result : TransferQueue × Bool) (i : ℕ)
    → result ≡ (record q { items = swap_next q.items i }, true)
    → Exchanged q (record q { items = swap_next q.items i }) i
    → Exchanges q result i
swap-Exchanges q result i e x =
    subst (λ (p : TransferQueue × Bool). Exchanges q p i) (sym e) (refl, x)

-- The entry at a position must keep its place.
abbrev pub PinnedAt : TransferQueue → ℕ → Type 0
PinnedAt q i = (x : QueuedTransfer) × (get_elem? q.items i ≡ some x) × IsPinned q x

is_bound_at-PinnedAt : (q : TransferQueue) (i : ℕ) → is_bound_at q i ≡ true → PinnedAt q i
unfolding is_bound_at
is_bound_at-PinnedAt q i b = elim (Option-cases (get_elem? q.items i)) [
  | inl e ↦ ground arith
  | inr (x, e) ↦ (x, e, inr (ground arith))
]

pub is_running_at-PinnedAt : (q : TransferQueue) (i : ℕ) → is_running_at q i ≡ true → PinnedAt q i
unfolding is_running_at
is_running_at-PinnedAt q i r = elim (Option-cases (get_elem? q.items i)) [
  | inl e ↦ ground arith
  | inr (x, e) ↦ (x, e, inl (ground arith))
]

pub is_bound-PinnedAt :
    (q : TransferQueue) (id i : ℕ)
    → position (has_id id) q.items ≡ some i
    → is_bound q id ≡ true
    → PinnedAt q i
is_bound-PinnedAt q id i p b =
    let (x, e, t) = position-get_elem? (has_id id) q.items i p in
    let named : x.id ≡ id = (ground arith) in (x, e, inr (rw named b))

-- `move_up` has nothing to do: no entry has the id, or it is the first one, or the entry or the one
-- above it is pinned.
abbrev pub CannotRise : TransferQueue → ℕ → Type 0
CannotRise q id =
    (position (has_id id) q.items ≡ none)
    ⊎ ((position (has_id id) q.items ≡ some zero)
        ⊎ ((i : ℕ) × (position (has_id id) q.items ≡ some (suc i))
            × (PinnedAt q i ⊎ PinnedAt q (suc i))))

-- `move_down` has nothing to do: no entry has the id, or it is the last one, or the entry or the one
-- below it is pinned.
abbrev pub CannotSink : TransferQueue → ℕ → Type 0
CannotSink q id =
    (position (has_id id) q.items ≡ none)
    ⊎ ((i : ℕ) × (position (has_id id) q.items ≡ some i)
        × ((suc i ≡ length q.items) ⊎ (PinnedAt q i ⊎ PinnedAt q (suc i))))

refused_up :
    (q : TransferQueue) (id i : ℕ)
    → position (has_id id) q.items ≡ some (suc i)
    → (is_bound q id || is_bound_at q i || is_running_at q (suc i) || is_running_at q i) ≡ true
    → PinnedAt q i ⊎ PinnedAt q (suc i)
refused_up q id i p h = elim (Bool-cases (is_bound q id)) [
  | inl e ↦ inr (is_bound-PinnedAt q id (suc i) p e)
  | inr f₁ ↦ elim (Bool-cases (is_bound_at q i)) [
    | inl e ↦ inl (is_bound_at-PinnedAt q i e)
    | inr f₂ ↦ elim (Bool-cases (is_running_at q i)) [
      | inl e ↦ inl (is_running_at-PinnedAt q i e)
      | inr f₃ ↦ inr (is_running_at-PinnedAt q (suc i) (ground arith))
    ]
  ]
]

refused_down :
    (q : TransferQueue) (id i : ℕ)
    → position (has_id id) q.items ≡ some i
    → refuses_down q id i ≡ true
    → (suc i ≡ length q.items) ⊎ (PinnedAt q i ⊎ PinnedAt q (suc i))
refused_down q id i p h = elim (Bool-cases (leb (length q.items) (suc i))) [
  | inl e ↦
      let found = position-get_elem? (has_id id) q.items i p in
      let last : length q.items ≤ suc i = (ground arith) in
      inl (omega (arith, get_elem?-lt q.items i found.1))
  | inr f₄ ↦ elim (Bool-cases (is_bound q id)) [
    | inl e ↦ inr (inl (is_bound-PinnedAt q id i p e))
    | inr f₅ ↦ elim (Bool-cases (is_bound_at q (suc i))) [
      | inl e ↦ inr (inr (is_bound_at-PinnedAt q (suc i) e))
      | inr f₆ ↦ elim (Bool-cases (is_running_at q i)) [
        | inl e ↦ inr (inl (is_running_at-PinnedAt q i e))
        | inr f₇ ↦ inr (inr (is_running_at-PinnedAt q (suc i) (ground arith)))
      ]
    ]
  ]
]

-- `move_up` changes nothing and says so only where no entry has the id, where it is the first one, or
-- where the entry or the one above it is running or bound. Else it says that it has exchanged the
-- entry with the one above it; then neither of the two is running or bound, and all else stays.
pub move_up_lem :
    (q : TransferQueue) (id : ℕ)
    → (CannotRise q id × Unchanged q (move_up q id))
      ⊎ ((i : ℕ) × (position (has_id id) q.items ≡ some (suc i)) × Exchanges q (move_up q id) i)
unfolding move_up
move_up_lem q id = elim (Option-cases (position (has_id id) q.items)) [
  | inl e ↦ inl (inl e, rw (e, move_up))
  | inr (zero, e) ↦ inl (inr (inl e), rw (e, move_up))
  | inr (suc i, e) ↦
      let room =
        get_elem?-lt q.items (suc i) (position-get_elem? (has_id id) q.items (suc i) e).1 in
      elim (Bool-cases
        (is_bound q id || is_bound_at q i || is_running_at q (suc i) || is_running_at q i)) [
          | inl refused ↦ inl (inr (inr (i, e, refused_up q id i e refused)), ground arith)
          | inr free ↦ inr (
            i,
            e,
            swap-Exchanges q (move_up q id) i (ground arith) (
                exchange q id i (suc i) room e (inr refl) (ground arith) (λ _. ground arith)
                  (λ x. absurd (omega arith)) (ground arith) (ground arith)),
          )
        ]
]

-- `move_down` changes nothing and says so only where no entry has the id, where it is the last one,
-- or where the entry or the one below it is running or bound. Else it says that it has exchanged the
-- entry with the one below it; then neither of the two is running or bound, and all else stays.
pub move_down_lem :
    (q : TransferQueue) (id : ℕ)
    → (CannotSink q id × Unchanged q (move_down q id))
      ⊎ ((i : ℕ) × (position (has_id id) q.items ≡ some i) × Exchanges q (move_down q id) i)
unfolding move_down
move_down_lem q id = elim (Option-cases (position (has_id id) q.items)) [
  | inl e ↦ inl (inl e, rw (e, move_down))
  | inr (i, e) ↦ elim (Bool-cases (refuses_down q id i)) [
    | inl refused ↦ inl (inr (i, e, refused_down q id i e refused), rw (e, move_down) (rw refused))
    | inr free ↦
        let room : suc i < length q.items = (ground arith) in
        inr (
          i,
          e,
          swap-Exchanges q (move_down q id) i (rw (e, move_down) (rw free)) (
              exchange q id i i room e (inl refl) (ground arith) (λ x. absurd (omega arith))
                (λ _. ground arith) (ground arith) (ground arith)),
        )
  ]
]
