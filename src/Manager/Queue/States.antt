-- ===== src/Manager/Queue/States.antt =====
-- The operations of TransferQueue that write an entry's state or the binding keep the queue valid.
use networkcopy_speed.Common.{
  ◌≡◌, refl, true, false, Option, none, some, arith, Bool-cases, Option-cases, ok, ℕ, [], sym, inl,
  inr,
}
use native.Mathlib.Decide.{ℕ_discrete}
use networkcopy_speed.Manager.Text.{Text, len}
use networkcopy_speed.Manager.Queue.Request.{
  QueuedTransfer, QueuedTransferState, may_retain_active_binding, validate_item,
  validate_optional_text, pending, cancelled,
}
use networkcopy_speed.Manager.Queue.Binding.{ActiveQueueBinding}
use networkcopy_speed.Manager.Queue.Items.{
  Retains, All-modify, DistinctIds-modify, Retains-modify_ne, Retains-modify, length-modify,
}
use networkcopy_speed.Manager.Queue.Invariant.{IsValid, BindingIsRetained, validate_binding_sound}
use networkcopy_speed.Manager.Queue.Preserve.{other_retained, BindingIsRetained-map}
use networkcopy_speed.Manager.Queue.{
  TransferQueue, modify, is_bound, set_state, reset_to_pending, skip, skipped, to_pending, written,
  kept_binding, set_active_binding, validate_binding, clear_active_binding,
}

-- A write to one entry that keeps its id and leaves it valid.
modified-IsValid :
    (q : TransferQueue) (id : ℕ) (f : QueuedTransfer → QueuedTransfer)
    → ((x : QueuedTransfer) → (f x).id ≡ x.id)
    → ((x : QueuedTransfer) → validate_item x ≡ ok tt → validate_item (f x) ≡ ok tt)
    → (b : Option ActiveQueueBinding) → BindingIsRetained b (modify id f q.items)
    → IsValid q
    → IsValid (record q { items = modify id f q.items; active_binding = b })
modified-IsValid q id f same keep b retained v = record {
  positive = v.positive;
  bounded = rw (length-modify f id q.items) v.bounded;
  items_valid = All-modify _ f id q.items (λ x p. (rw (same x) p.0, keep x p.1)) v.items_valid;
  distinct = DistinctIds-modify f same id q.items v.distinct;
  retained = retained;
}

rewritten-valid :
    (x : QueuedTransfer) (state : QueuedTransferState) (message : Text)
    → validate_optional_text message "queue status message" ≡ ok tt
    → validate_item x ≡ ok tt
    → validate_item (record x { state = state; status_message = message }) ≡ ok tt
unfolding validate_item
rewritten-valid x state message h e = ground arith

-- A write to the entry `id` whose new state may retain a binding leaves every retained entry.
write_retained :
    (q : TransferQueue) (id : ℕ) (f : QueuedTransfer → QueuedTransfer)
    → ((x : QueuedTransfer) → (f x).id ≡ x.id)
    → ((x : QueuedTransfer) → may_retain_active_binding (f x).state ≡ true)
    → (j : ℕ) → Retains j q.items
    → Retains j (modify id f q.items)
write_retained q id f same keeps j h = elim (ℕ_discrete id j) [
  | yes e ↦ rw e (Retains-modify f same j q.items keeps h)
  | no ne ↦ Retains-modify_ne f same id j q.items ne h
]

written_binding :
    (q : TransferQueue) (id : ℕ) (state : QueuedTransferState) (message : Text)
    → IsValid q
    → BindingIsRetained (kept_binding q id state) (modify id (written state message) q.items)
written_binding q id state message v = elim (Bool-cases (may_retain_active_binding state)) [
  | inl keeps ↦
      let e : kept_binding q id state ≡ q.active_binding = (ground arith) in
      rw e (
        BindingIsRetained-map q.active_binding q.items _
          (write_retained q id (written state message) (λ x. refl) (λ x. keeps)) v.retained)
  | inr clears ↦ elim (Bool-cases (is_bound q id)) [
    | inl bound ↦ let e : kept_binding q id state ≡ none = (ground arith) in rw e tt
    | inr free ↦
        let e : kept_binding q id state ≡ q.active_binding = (ground arith) in
        rw e (
          other_retained q id _ free
            (λ j ne.
              Retains-modify_ne (written state message) (λ x. refl) id j q.items (λ e. ne (sym e)))
            v.retained)
  ]
]

pub set_state-IsValid :
    (q r : TransferQueue) (id : ℕ) (state : QueuedTransferState) (message : Text)
    → set_state q id state message ≡ ok r
    → IsValid q
    → IsValid r
unfolding set_state
set_state-IsValid q r id state message h v =
    let parts : (validate_optional_text message "queue status message" ≡ ok tt)
        × (r ≡ record q {
          items = modify id (written state message) q.items;
          active_binding = kept_binding q id state;
        }) =
      (ground arith) in
    rw parts.1 (
      modified-IsValid q id (written state message) (λ x. refl)
        (λ x. rewritten-valid x state message parts.0) _ (written_binding q id state message v) v)

reset_valid : (x : QueuedTransfer) → validate_item x ≡ ok tt → validate_item (to_pending x) ≡ ok tt
unfolding validate_optional_text len
reset_valid x h = rewritten-valid x pending [] refl h

skipped_valid : (x : QueuedTransfer) → validate_item x ≡ ok tt → validate_item (skipped x) ≡ ok tt
unfolding validate_optional_text len
skipped_valid x h = rewritten-valid x cancelled _ refl h

-- A write to an entry that is not bound.
unbound_write :
    (q : TransferQueue) (id : ℕ) (f : QueuedTransfer → QueuedTransfer)
    → ((x : QueuedTransfer) → (f x).id ≡ x.id)
    → ((x : QueuedTransfer) → validate_item x ≡ ok tt → validate_item (f x) ≡ ok tt)
    → is_bound q id ≡ false
    → IsValid q
    → IsValid (record q { items = modify id f q.items })
unbound_write q id f same keep free v =
    modified-IsValid q id f same keep q.active_binding
      (other_retained q id _ free (λ j ne. Retains-modify_ne f same id j q.items (λ e. ne (sym e)))
        v.retained)
      v

pub reset_to_pending-IsValid :
    (q : TransferQueue) (id : ℕ) → IsValid q → IsValid (reset_to_pending q id).0
unfolding reset_to_pending
reset_to_pending-IsValid q id v =
    ground (arith, unbound_write q id to_pending (λ x. refl) reset_valid)

pub skip-IsValid : (q : TransferQueue) (id : ℕ) → IsValid q → IsValid (skip q id).0
unfolding skip
skip-IsValid q id v = ground (arith, unbound_write q id skipped (λ x. refl) skipped_valid)

pub set_active_binding-IsValid :
    (q r : TransferQueue) (b : ActiveQueueBinding)
    → set_active_binding q b ≡ ok r
    → IsValid q
    → IsValid r
unfolding set_active_binding
set_active_binding-IsValid q r b h v = elim (Option-cases q.active_binding) [
  | inl e ↦
      let parts : (validate_binding (some b) q.items ≡ ok tt)
          × (r ≡ record q { active_binding = some b }) =
        (ground arith) in
      rw parts.1 (record {
        positive = v.positive;
        bounded = v.bounded;
        items_valid = v.items_valid;
        distinct = v.distinct;
        retained = validate_binding_sound (some b) q.items parts.0;
      })
  | inr (existing, e) ↦ let same : r ≡ q = (ground arith) in rw same v
]

pub clear_active_binding-IsValid :
    (q : TransferQueue) → IsValid q → IsValid (clear_active_binding q).0
unfolding clear_active_binding
clear_active_binding-IsValid q v = record {
  positive = v.positive;
  bounded = v.bounded;
  items_valid = v.items_valid;
  distinct = v.distinct;
  retained = tt;
}
