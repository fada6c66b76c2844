-- ===== src/Manager/Queue/Preserve.antt =====
-- The operations of TransferQueue that add, remove and reorder entries keep the queue valid.
use networkcopy_speed.Common.{
  ℕ, zero, suc, ◌+◌, ◌≤◌, ◌<◌, ◌≡◌, ◌≢◌, refl, ap, inl, inr, Bool, false, List, [], ◌∷◌, ◌++◌,
  Option, none, some, arith, length, All-append, All-mono, retain, swap_next, remove_at, position,
  length-append, Option-cases, ok,
}
use networkcopy_speed.Manager.Text.{len}
use networkcopy_speed.Manager.Queue.Request.{
  QueuedTransfer, QueuedTransferRequest, pending, validate_item, validate_request,
  validate_optional_text,
}
use networkcopy_speed.Manager.Queue.Binding.{ActiveQueueBinding}
use networkcopy_speed.Manager.Queue.Items.{
  Retains, All-swap_next, All-remove_at, All-retain, DistinctIds-swap_next, DistinctIds-remove_at,
  DistinctIds-retain, DistinctIds-append, Retains-swap_next, Retains-retain, Retains-append,
  Retains-remove_at,
}
use networkcopy_speed.Manager.Queue.Invariant.{IsValid, BindingIsRetained}
use networkcopy_speed.Manager.Queue.{
  TransferQueue, max_queue_entries, has_id, is_bound, add_with_desktop_layout, move_up, move_down,
  remove, clear_completed,
}

pub BindingIsRetained-map :
    (b : Option ActiveQueueBinding) (xs ys : List QueuedTransfer)
    → ((id : ℕ) → Retains id xs → Retains id ys)
    → BindingIsRetained b xs
    → BindingIsRetained b ys
BindingIsRetained-map none xs ys f h = tt
BindingIsRetained-map (some b) xs ys f h = f b.queue_id h

length-swap_next {ℓ} : {A : Type ℓ} (xs : List A) (i : ℕ) → length (swap_next xs i) ≡ length xs
unfolding swap_next
length-swap_next [] i = refl
length-swap_next (x ∷ []) i = refl
length-swap_next (x ∷ y ∷ xs) zero = refl
length-swap_next (x ∷ y ∷ xs) (suc i) = ap suc (length-swap_next (y ∷ xs) i)

length-remove_at-le {ℓ} : {A : Type ℓ} (xs : List A) (i : ℕ) → length (remove_at xs i) ≤ length xs
unfolding remove_at
length-remove_at-le [] i = omega arith
length-remove_at-le (x ∷ xs) zero = omega arith
length-remove_at-le (x ∷ xs) (suc i) = omega (arith, length-remove_at-le xs i)

length-retain-le {ℓ} : {A : Type ℓ} (t : A → Bool) (xs : List A) → length (retain t xs) ≤ length xs
length-retain-le t [] = omega arith
length-retain-le t (x ∷ xs) = ground (arith, length-retain-le t xs)

swapped-IsValid :
    (q : TransferQueue) (i : ℕ) → IsValid q → IsValid (record q { items = swap_next q.items i })
swapped-IsValid q i v = record {
  positive = v.positive;
  bounded = rw (length-swap_next q.items i) v.bounded;
  items_valid = All-swap_next _ q.items i v.items_valid;
  distinct = DistinctIds-swap_next q.items i v.distinct;
  retained =
      BindingIsRetained-map q.active_binding q.items _ (λ id. Retains-swap_next id q.items i)
        v.retained;
}

pub move_up-IsValid : (q : TransferQueue) (id : ℕ) → IsValid q → IsValid (move_up q id).0
unfolding move_up
move_up-IsValid q id v = elim (Option-cases (position (has_id id) q.items)) [
  | inl e ↦ rw (e, move_up) v
  | inr (zero, e) ↦ rw (e, move_up) v
  | inr (suc above, e) ↦ rw (e, move_up) (ground (arith, swapped-IsValid q above v))
]

pub move_down-IsValid : (q : TransferQueue) (id : ℕ) → IsValid q → IsValid (move_down q id).0
unfolding move_down
move_down-IsValid q id v = elim (Option-cases (position (has_id id) q.items)) [
  | inl e ↦ rw (e, move_down) v
  | inr (index, e) ↦ rw (e, move_down) (ground (arith, swapped-IsValid q index v))
]

-- The entry that `add_with_desktop_layout` makes.
abbrev pub new_item : ℕ → QueuedTransferRequest → Bool → QueuedTransfer
new_item id request layout = record {
  id = id;
  request = request;
  preserve_desktop_layout = layout;
  state = pending;
  status_message = [];
}

abbrev pub added : TransferQueue → QueuedTransferRequest → Bool → TransferQueue
added q request layout = record q {
  items = q.items ++ new_item q.next_id request layout ∷ [];
  next_id = q.next_id + 1;
}

-- What a successful `add` has checked, and what it returns.
pub add-eq_ok :
    (q r : TransferQueue) (request : QueuedTransferRequest) (layout : Bool) (id : ℕ)
    → add_with_desktop_layout q request layout ≡ ok (r, id)
    → (validate_request request ≡ ok tt)
      × (length q.items < max_queue_entries)
      × (id ≡ q.next_id)
      × (r ≡ added q request layout)
unfolding add_with_desktop_layout
add-eq_ok q r request layout id h = ground arith

new_item-valid :
    (id : ℕ) (request : QueuedTransferRequest) (layout : Bool)
    → validate_request request ≡ ok tt
    → validate_item (new_item id request layout) ≡ ok tt
unfolding validate_item validate_optional_text len
new_item-valid id request layout h = rw h refl

added-IsValid :
    (q : TransferQueue) (request : QueuedTransferRequest) (layout : Bool)
    → validate_request request ≡ ok tt
    → length q.items < max_queue_entries
    → IsValid q
    → IsValid (added q request layout)
added-IsValid q request layout h room v = record {
  positive = omega arith;
  bounded = omega (arith, length-append q.items (new_item q.next_id request layout ∷ []), room);
  items_valid =
      All-append _ q.items _ (All-mono (λ x p. (omega (arith, p.0), p.1)) q.items v.items_valid)
        ((omega arith, new_item-valid q.next_id request layout h), tt);
  distinct = DistinctIds-append q.items _ (All-mono (λ x p. p.0) q.items v.items_valid) v.distinct;
  retained =
      BindingIsRetained-map q.active_binding q.items _ (λ id. Retains-append id q.items _)
        v.retained;
}

-- A successful `add` hands out the next id, which the queue never hands out again.
pub add-IsValid :
    (q r : TransferQueue) (request : QueuedTransferRequest) (layout : Bool) (id : ℕ)
    → add_with_desktop_layout q request layout ≡ ok (r, id)
    → IsValid q
    → IsValid r
add-IsValid q r request layout id h v =
    let (e, room, _, eq) = add-eq_ok q r request layout id h in
    rw eq (added-IsValid q request layout e room v)

is_bound-ne :
    (q : TransferQueue) (id : ℕ) (b : ActiveQueueBinding)
    → is_bound q id ≡ false
    → q.active_binding ≡ some b
    → b.queue_id ≢ id
unfolding is_bound
is_bound-ne q id b h e = ground arith

-- An operation on an entry that is not bound leaves the retained one.
pub other_retained :
    (q : TransferQueue) (id : ℕ) (ys : List QueuedTransfer)
    → is_bound q id ≡ false
    → ((j : ℕ) → j ≢ id → Retains j q.items → Retains j ys)
    → BindingIsRetained q.active_binding q.items
    → BindingIsRetained q.active_binding ys
unfolding is_bound
other_retained q id ys free f h = go q.active_binding refl h
  where
    go :
        (b : Option ActiveQueueBinding)
        → q.active_binding ≡ b
        → BindingIsRetained b q.items
        → BindingIsRetained b ys
    go none e h = tt
    go (some b) e h = f b.queue_id (is_bound-ne q id b free e) h

removed-IsValid :
    (q : TransferQueue) (id index : ℕ)
    → position (has_id id) q.items ≡ some index
    → is_bound q id ≡ false
    → IsValid q
    → IsValid (record q { items = remove_at q.items index })
removed-IsValid q id index e free v = record {
  positive = v.positive;
  bounded = omega (arith, length-remove_at-le q.items index, v.bounded);
  items_valid = All-remove_at _ q.items index v.items_valid;
  distinct = DistinctIds-remove_at q.items index v.distinct;
  retained =
      other_retained q id _ free (λ j ne. Retains-remove_at j id q.items index e ne) v.retained;
}

pub remove-IsValid : (q : TransferQueue) (id : ℕ) → IsValid q → IsValid (remove q id).0
unfolding remove
remove-IsValid q id v = elim (Option-cases (position (has_id id) q.items)) [
  | inl e ↦ rw (e, remove) v
  | inr (index, e) ↦ rw (e, remove) (ground (arith, removed-IsValid q id index e))
]

pub clear_completed-IsValid : (q : TransferQueue) → IsValid q → IsValid (clear_completed q).0
unfolding clear_completed is_bound
clear_completed-IsValid q v = record {
  positive = v.positive;
  bounded = omega (arith, length-retain-le _ q.items, v.bounded);
  items_valid = All-retain _ _ q.items v.items_valid;
  distinct = DistinctIds-retain _ q.items v.distinct;
  retained = go q.active_binding refl v.retained;
}
  where
    go :
        (b : Option ActiveQueueBinding)
        → q.active_binding ≡ b
        → BindingIsRetained b q.items
        → BindingIsRetained b (clear_completed q).0.items
    go none e h = tt
    go (some b) e h = Retains-retain b.queue_id _ q.items (λ x same. ground arith) h
