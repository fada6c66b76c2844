-- ===== src/Manager/Queue/Writes.antt =====
-- What set_state, reset_to_pending and skip of TransferQueue write, and when they refuse.
use mathlib.Core.Option.{map as map_option}
use networkcopy_speed.Common.{
  ℕ, ◌≡◌, ◌≢◌, refl, sym, subst, ◌⊎◌, inl, inr, Bool, true, false, not, ◌&&◌, ◌||◌, List, [], ◌∷◌,
  none, some, arith, find, ok, Option-cases, Bool-cases, ◌==◌, ==-refl, ltb, ◌≤◌, ◌<◌,
  if◌then◌else◌, Fails,
}
use networkcopy_speed.Manager.Text.{Text, len}
use networkcopy_speed.Manager.Queue.Request.{
  QueuedTransfer, QueuedTransferState, is_running, is_pending, may_retain_active_binding,
  validate_optional_text, max_queue_text_bytes,
}
use networkcopy_speed.Manager.Queue.{
  TransferQueue, has_id, modify, is_bound, set_state, reset_to_pending, skip, written, to_pending,
  skipped, may_skip, kept_binding,
}

-- Looking up an id after a write to an entry.
find-modify :
    (f : QueuedTransfer → QueuedTransfer) (id j : ℕ) (xs : List QueuedTransfer)
    → ((x : QueuedTransfer) → (f x).id ≡ x.id)
    → find (has_id j) (modify id f xs)
      ≡ (if id == j then map_option f (find (has_id j) xs) else find (has_id j) xs)
find-modify f id j [] same = ground arith
find-modify f id j (x ∷ xs) same = ground (arith, find-modify f id j xs same, same x)

find-modify_self :
    (f : QueuedTransfer → QueuedTransfer) (id : ℕ) (xs : List QueuedTransfer) {x : QueuedTransfer}
    → ((y : QueuedTransfer) → (f y).id ≡ y.id)
    → find (has_id id) xs ≡ some x
    → find (has_id id) (modify id f xs) ≡ some (f x)
find-modify_self f id xs same e = rw (find-modify f id id xs same, e, ==-refl id)

find-modify_ne :
    (f : QueuedTransfer → QueuedTransfer) (id j : ℕ) (xs : List QueuedTransfer)
    → ((y : QueuedTransfer) → (f y).id ≡ y.id)
    → j ≢ id
    → find (has_id j) (modify id f xs) ≡ find (has_id j) xs
find-modify_ne f id j xs same ne = ground (arith, find-modify f id j xs same)

-- One entry is replaced and all else about the entries stays.
pub record Replaces (q r : TransferQueue) (id : ℕ) (f : QueuedTransfer → QueuedTransfer)
    : Type 0 where
  pub entry : QueuedTransfer
  pub before : find (has_id id) q.items ≡ some entry
  pub after : find (has_id id) r.items ≡ some (f entry)
  pub others : (j : ℕ) → j ≢ id → find (has_id j) r.items ≡ find (has_id j) q.items
  pub next_id_kept : r.next_id ≡ q.next_id
  pub paused_kept : r.paused_after_current ≡ q.paused_after_current

modified-Replaces :
    (q r : TransferQueue) (id : ℕ) (f : QueuedTransfer → QueuedTransfer) (x : QueuedTransfer)
    → ((y : QueuedTransfer) → (f y).id ≡ y.id)
    → find (has_id id) q.items ≡ some x
    → r ≡ record q { items = modify id f q.items; active_binding = r.active_binding }
    → Replaces q r id f
modified-Replaces q r id f x same e w = record {
  entry = x;
  before = e;
  after = rw w (find-modify_self f id q.items same e);
  others = λ j ne. rw w (find-modify_ne f id j q.items same ne);
  next_id_kept = rw w refl;
  paused_kept = rw w refl;
}

-- `set_state` fails exactly if the message is over the limit or no entry has the id. Otherwise it
-- writes the state and the message to the entry and to no other, and clears the active binding
-- exactly if it is of that entry and the new state may not retain it.
pub set_state_lem :
    (q : TransferQueue) (id : ℕ) (state : QueuedTransferState) (message : Text)
    → (Fails (set_state q id state message)
        × ((max_queue_text_bytes < len message) ⊎ (find (has_id id) q.items ≡ none)))
      ⊎ ((r : TransferQueue) × (set_state q id state message ≡ ok r)
          × (len message ≤ max_queue_text_bytes)
          × Replaces q r id (written state message)
          × (r.active_binding ≡ (
              if is_bound q id && not (may_retain_active_binding state)
              then none
              else q.active_binding)))
unfolding set_state validate_optional_text
set_state_lem q id state message = elim (Bool-cases (ltb max_queue_text_bytes (len message))) [
  | inl long ↦ inl (rw (long, set_state) tt, inl (ground arith))
  | inr fits ↦ elim (Option-cases (find (has_id id) q.items)) [
    | inl e ↦ inl (rw (fits, e) tt, inr e)
    | inr (x, e) ↦ inr (
      written_queue,
      rw (fits, e) refl,
      ground arith,
      modified-Replaces q written_queue id (written state message) x (λ y. refl) e refl,
      ground arith,
    )
  ]
]
  where
    written_queue : TransferQueue
    written_queue = record q {
      items = modify id (written state message) q.items;
      active_binding = kept_binding q id state;
    }

-- `reset_to_pending` and `skip` either change nothing and answer false, or answer true and write one
-- entry, which is not bound; the binding stays.
abbrev pub Rewrites :
    TransferQueue
    → ℕ
    → (QueuedTransfer → QueuedTransfer)
    → (QueuedTransferState → Bool)
    → TransferQueue × Bool
    → Type 0
Rewrites q id f allowed result =
    ((result ≡ (q, false))
      × ((is_bound q id ≡ true)
          ⊎ ((x : QueuedTransfer) → find (has_id id) q.items ≡ some x → allowed x.state ≡ false)))
    ⊎ ((result.1 ≡ true)
        × (is_bound q id ≡ false)
        × ((x : QueuedTransfer) → find (has_id id) q.items ≡ some x → allowed x.state ≡ true)
        × Replaces q result.0 id f
        × (result.0.active_binding ≡ q.active_binding))

-- The shape that the two share.
abbrev rewrite_entry :
    TransferQueue
    → ℕ
    → (QueuedTransfer → QueuedTransfer)
    → (QueuedTransferState → Bool)
    → TransferQueue × Bool
rewrite_entry q id f allowed =
    if is_bound q id then (q, false) else elim (find (has_id id) q.items) [
      | none ↦ (q, false)
      | some x ↦
          if allowed x.state then (record q { items = modify id f q.items }, true) else (q, false)
    ]

rewrite_entry-Rewrites :
    (q : TransferQueue) (id : ℕ) (f : QueuedTransfer → QueuedTransfer)
    (allowed : QueuedTransferState → Bool)
    → ((y : QueuedTransfer) → (f y).id ≡ y.id)
    → Rewrites q id f allowed (rewrite_entry q id f allowed)
rewrite_entry-Rewrites q id f allowed same = elim (Bool-cases (is_bound q id)) [
  | inl bound ↦ inl (ground arith, inl bound)
  | inr free ↦ elim (Option-cases (find (has_id id) q.items)) [
    | inl e ↦ inl (ground arith, inr (λ x ex. ground arith))
    | inr (x, e) ↦ elim (Bool-cases (allowed x.state)) [
      | inr refused ↦ inl (ground arith, inr (λ y ey. ground arith))
      | inl may ↦
          let written : TransferQueue = record q { items = modify id f q.items } in
          let result : rewrite_entry q id f allowed ≡ (written, true) = (ground arith) in
          rw result (
            inr (
              refl,
              free,
              λ y ey. ground arith,
              modified-Replaces q written id f x same e refl,
              refl,
            ))
    ]
  ]
]

-- `skip` answers false and changes nothing if the entry is bound, missing, or neither pending, blocked
-- nor failed. Otherwise it answers true, writes the entry as cancelled with its message, and leaves the
-- other entries and the binding as they were.
pub skip_lem : (q : TransferQueue) (id : ℕ) → Rewrites q id skipped may_skip (skip q id)
unfolding skip
skip_lem q id = rewrite_entry-Rewrites q id skipped may_skip (λ y. refl)

-- `matches!(item.state, Pending | Running)`, negated.
abbrev pub may_reset : QueuedTransferState → Bool
may_reset state = not (is_pending state || is_running state)

-- `reset_to_pending` answers false and changes nothing if the entry is bound, missing, pending or
-- running. Otherwise it answers true, writes the entry as pending with no message, and leaves the other
-- entries and the binding as they were.
pub reset_to_pending_lem :
    (q : TransferQueue) (id : ℕ) → Rewrites q id to_pending may_reset (reset_to_pending q id)
unfolding reset_to_pending
reset_to_pending_lem q id =
    let same : reset_to_pending q id ≡ rewrite_entry q id to_pending may_reset = (ground arith) in
    subst (Rewrites q id to_pending may_reset) (sym same)
      (rewrite_entry-Rewrites q id to_pending may_reset (λ y. refl))
