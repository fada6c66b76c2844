-- ===== src/Manager/Text/Trim.antt =====
-- `str::trim`: what it leaves of a text of white space.
use mathlib.Core.List.{reverse-cons, reverse-reverse}
use networkcopy_speed.Common.{
  ℕ, ◌≡◌, ◌↔◌, refl, sym, ap, ◌∙◌, ◌⊎◌, inl, inr, true, false, List, [], ◌∷◌, reverse, arith, All,
  All-append-split, Bool-cases,
}
use networkcopy_speed.Manager.Text.{Text, is_whitespace, trim_start, trim, is_empty}

abbrev pub IsBlank : Text → Type 0
IsBlank = All (λ c. is_whitespace c ≡ true)

trim_start-blank : (s : Text) → IsBlank s → trim_start s ≡ []
unfolding trim_start
trim_start-blank [] h = refl
trim_start-blank (c ∷ s) h = rw (h.0, trim_start) (trim_start-blank s h.1)

trim_start-eq_nil : (s : Text) → trim_start s ≡ [] → IsBlank s
unfolding trim_start
trim_start-eq_nil [] h = tt
trim_start-eq_nil (c ∷ s) h = elim (Bool-cases (is_whitespace c)) [
  | inl e ↦ (e, trim_start-eq_nil s (ground arith))
  | inr e ↦ ground arith
]

-- The first character that `trim_start` leaves is no white space.
trim_start_head :
    (s : Text)
    → (trim_start s ≡ [])
      ⊎ ((c : ℕ) × (t : Text) × (trim_start s ≡ c ∷ t) × (is_whitespace c ≡ false))
unfolding trim_start
trim_start_head [] = inl refl
trim_start_head (c ∷ s) = elim (Bool-cases (is_whitespace c)) [
  | inl e ↦ rw (e, trim_start) (trim_start_head s)
  | inr e ↦ rw (e, trim_start) (inr (c, s, refl, e))
]

All-reverse {κ} : (P : ℕ → Type κ) (xs : List ℕ) → All P (reverse xs) → All P xs
All-reverse P [] h = tt
All-reverse P (x ∷ xs) h =
    let (front, back) = All-append-split P (reverse xs) (x ∷ []) (rw (reverse-cons x xs) at h) in
    (back.0, All-reverse P xs front)

is_empty-eq_nil : (s : Text) → is_empty s ≡ true → s ≡ []
unfolding is_empty
is_empty-eq_nil [] h = refl
is_empty-eq_nil (c ∷ s) h = cc

reverse-eq_nil : (s : Text) → reverse s ≡ [] → s ≡ []
reverse-eq_nil s h = sym (reverse-reverse s) ∙ ap reverse h

-- `trim` leaves nothing exactly of a blank text.
pub trim-is_empty : (s : Text) → (is_empty (trim s) ≡ true) ↔ IsBlank s
unfolding trim is_empty
trim-is_empty s = (sound, λ h. rw (trim_start-blank s h) refl)
  where
    kept : is_empty (trim s) ≡ true → IsBlank (trim_start s)
    kept h =
        All-reverse _ (trim_start s)
          (trim_start-eq_nil (reverse (trim_start s)) (reverse-eq_nil _ (is_empty-eq_nil _ h)))

    sound : is_empty (trim s) ≡ true → IsBlank s
    sound h = elim (trim_start_head s) [
      | inl e ↦ trim_start-eq_nil s e
      | inr (c, t, e, f) ↦ let first : is_whitespace c ≡ true = (rw e at (kept h)).0 in cc
    ]
