-- ===== src/Manager/Queue/Invariant.antt =====
-- What `TransferQueue::validate` accepts, and that every operation of management_queue.rs keeps it.
use networkcopy_speed.Common.{
  ℕ, ◌≤◌, ◌<◌, ◌≡◌, ◌≢◌, ◌↔◌, refl, subst, inl, inr, true, false, List, [], ◌∷◌, Option, none, some,
  arith, length, All, All-mono, find, Bool-cases, Option-cases, ok,
}
use networkcopy_speed.Manager.Queue.Request.{
  QueuedTransfer, may_retain_active_binding, validate_item,
}
use networkcopy_speed.Manager.Queue.Binding.{ActiveQueueBinding, validate_for_queue}
use networkcopy_speed.Manager.Queue.Items.{DistinctIds, Retains}
use networkcopy_speed.Manager.Queue.{
  TransferQueue, max_queue_entries, has_id, seen, validate_items, validate_binding, validate,
}

-- An entry is as the source wants it, and its id has been handed out.
abbrev pub ItemIsValid : ℕ → QueuedTransfer → Type 0
ItemIsValid next_id item = (item.id < next_id) × (validate_item item ≡ ok tt)

abbrev pub BindingIsRetained : Option ActiveQueueBinding → List QueuedTransfer → Type 0
BindingIsRetained none items = Unit {0}
BindingIsRetained (some b) items = Retains b.queue_id items

pub record IsValid (q : TransferQueue) : Type 0 where
  pub positive : 0 < q.next_id
  pub bounded : length q.items ≤ max_queue_entries
  pub items_valid : All (ItemIsValid q.next_id) q.items
  pub distinct : DistinctIds q.items
  pub retained : BindingIsRetained q.active_binding q.items

abbrev Unseen : List ℕ → QueuedTransfer → Type 0
Unseen ids item = seen item.id ids ≡ false

Unseen-cons :
    (id : ℕ) (ids : List ℕ) (x : QueuedTransfer) → Unseen (id ∷ ids) x → Unseen ids x × (x.id ≢ id)
Unseen-cons id ids x h = ground arith

All-Unseen-cons :
    (id : ℕ) (ids : List ℕ) (xs : List QueuedTransfer)
    → All (Unseen ids) xs
    → All (λ (y : QueuedTransfer). y.id ≢ id) xs
    → All (Unseen (id ∷ ids)) xs
All-Unseen-cons id ids [] u d = tt
All-Unseen-cons id ids (x ∷ xs) u d = (ground arith, All-Unseen-cons id ids xs u.1 d.1)

validate_items_sound :
    (n : ℕ) (ids : List ℕ) (items : List QueuedTransfer)
    → validate_items n ids items ≡ ok tt
    → All (ItemIsValid n) items × All (Unseen ids) items × DistinctIds items
unfolding validate_items
validate_items_sound n ids [] h = (tt, tt, tt)
validate_items_sound n ids (item ∷ items) h =
    let first : ItemIsValid n item
        × Unseen ids item
        × (validate_items n (item.id ∷ ids) items ≡ ok tt) =
      (ground arith) in
    let (v, u, d) = validate_items_sound n (item.id ∷ ids) items first.2 in
    let fresh = λ (x : QueuedTransfer). Unseen-cons item.id ids x in
    (
      (first.0, v),
      (first.1, All-mono (λ x h. (fresh x h).0) items u),
      (All-mono (λ x h. (fresh x h).1) items u, d),
    )

validate_items_complete :
    (n : ℕ) (ids : List ℕ) (items : List QueuedTransfer)
    → All (ItemIsValid n) items
    → All (Unseen ids) items
    → DistinctIds items
    → validate_items n ids items ≡ ok tt
unfolding validate_items
validate_items_complete n ids [] v u d = refl
validate_items_complete n ids (item ∷ items) v u d = ground (
  arith,
  validate_items_complete n (item.id ∷ ids) items v.1 (All-Unseen-cons item.id ids items u.1 d.0),
)

Retains-find :
    (id : ℕ) (items : List QueuedTransfer) {x : QueuedTransfer}
    → find (has_id id) items ≡ some x
    → may_retain_active_binding x.state ≡ true
    → Retains id items
Retains-find id [] e r = cc
Retains-find id (x ∷ items) {x = y} e r = elim (Bool-cases (has_id id x)) [
  | inl t ↦ inl (ground arith)
  | inr f ↦ inr (Retains-find id items {x = y} (ground arith) r)
]

All-other :
    (id : ℕ) (items : List QueuedTransfer)
    → All (λ (y : QueuedTransfer). y.id ≢ id) items
    → ¬ Retains id items
All-other id [] d h = h
All-other id (x ∷ items) d h = elim h [ inl p ↦ d.0 p.0 | inr r ↦ All-other id items d.1 r ]

find-Retains :
    (id : ℕ) (items : List QueuedTransfer)
    → DistinctIds items
    → Retains id items
    → (x : QueuedTransfer) × (find (has_id id) items ≡ some x)
      × (may_retain_active_binding x.state ≡ true)
find-Retains id [] d h = absurd h
find-Retains id (x ∷ items) d (inl p) = (x, ground arith, p.1)
find-Retains id (x ∷ items) d (inr r) =
    let (y, e, m) = find-Retains id items d.1 r in
    let other : x.id ≢ id =
      λ q. All-other id items (subst (λ k. All (λ (y : QueuedTransfer). y.id ≢ k) items) q d.0) r in
    (y, ground arith, m)

pub validate_binding_sound :
    (b : Option ActiveQueueBinding) (items : List QueuedTransfer)
    → validate_binding b items ≡ ok tt
    → BindingIsRetained b items
unfolding validate_for_queue
validate_binding_sound none items h = tt
validate_binding_sound (some b) items h = elim (Option-cases (find (has_id b.queue_id) items)) [
  | inl e ↦ ground arith
  | inr (x, e) ↦ Retains-find b.queue_id items e (ground arith)
]

validate_binding_complete :
    (b : Option ActiveQueueBinding) (items : List QueuedTransfer)
    → DistinctIds items
    → BindingIsRetained b items
    → validate_binding b items ≡ ok tt
unfolding validate_for_queue
validate_binding_complete none items d h = refl
validate_binding_complete (some b) items d h =
    let (x, e, m) = find-Retains b.queue_id items d h in ground arith

All-Unseen-nil : (xs : List QueuedTransfer) → All (Unseen []) xs
All-Unseen-nil [] = tt
All-Unseen-nil (x ∷ xs) = (refl, All-Unseen-nil xs)

validate_sound : (q : TransferQueue) → validate q ≡ ok tt → IsValid q
unfolding validate
validate_sound q h =
    let parts : (0 < q.next_id)
        × (length q.items ≤ max_queue_entries)
        × (validate_items q.next_id [] q.items ≡ ok tt)
        × (validate_binding q.active_binding q.items ≡ ok tt) =
      (ground arith) in
    let (v, _, d) = validate_items_sound q.next_id [] q.items parts.2 in
    record {
      positive = parts.0;
      bounded = parts.1;
      items_valid = v;
      distinct = d;
      retained = validate_binding_sound q.active_binding q.items parts.3;
    }

validate_complete : (q : TransferQueue) → IsValid q → validate q ≡ ok tt
unfolding validate
validate_complete q v = ground (
  arith,
  validate_items_complete q.next_id [] q.items v.items_valid (All-Unseen-nil q.items) v.distinct,
  validate_binding_complete q.active_binding q.items v.distinct v.retained,
)

-- `validate` accepts exactly the queues with a positive next id, at most 256 entries, valid entries
-- with distinct ids below the next id, and whose active binding, if there is one, is of an entry
-- that is running or blocked.
pub validate-IsValid : (q : TransferQueue) → (validate q ≡ ok tt) ↔ IsValid q
validate-IsValid q = (validate_sound q, validate_complete q)
