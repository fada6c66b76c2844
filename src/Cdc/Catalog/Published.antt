-- ===== src/Cdc/Catalog/Published.antt =====
-- session_cdc_catalog.rs: the files of a generation that come to the catalog are those it publishes.
use mathlib.Core.List.{append_assoc}
use networkcopy_speed.Common.{
  ℕ, ◌<◌, ◌≡◌, refl, sym, subst, ap, ◌∙◌, inl, inr, true, false, ◌||◌, List, [], ◌∷◌, ◌++◌, Option,
  some, arith, All, All-mono, Bool-cases,
}
use networkcopy_speed.Cdc.Catalog.Types.{CatalogCandidate, CatalogLimits}
use networkcopy_speed.Cdc.Catalog.Agreement.{Ascends}
use networkcopy_speed.Cdc.Catalog.Basis.{contains, published}
use networkcopy_speed.Cdc.Catalog.Replay.{is_large, large_ids, small_ids}

contains-append :
    (id : ℕ) (xs ys : List ℕ) → contains id (xs ++ ys) ≡ (contains id xs || contains id ys)
contains-append id [] ys = refl
contains-append id (x ∷ xs) ys = ground (arith, contains-append id xs ys)

Ascends-All :
    (p : ℕ) (cs : List CatalogCandidate) → Ascends (some p) cs → All (λ d. p < d.file_id) cs
Ascends-All p [] h = tt
Ascends-All p (c ∷ cs) h =
    (h.0, All-mono (λ d below. omega (arith, below, h.0)) cs (Ascends-All c.file_id cs h.1))

contains-large_ids :
    (limits : CatalogLimits) (p : ℕ) (cs : List CatalogCandidate)
    → All (λ d. p < d.file_id) cs
    → contains p (large_ids limits cs) ≡ false
contains-large_ids limits p [] h = refl
contains-large_ids limits p (c ∷ cs) h = ground (arith, contains-large_ids limits p cs h.1, h.0)

-- None of the files is among the ids in front.
abbrev Fresh : List ℕ → List CatalogCandidate → Type 0
Fresh front cs = All (λ d. contains d.file_id front ≡ false) cs

Fresh-append :
    (front : List ℕ) (p : ℕ) (cs : List CatalogCandidate)
    → Fresh front cs
    → All (λ d. p < d.file_id) cs
    → Fresh (front ++ p ∷ []) cs
Fresh-append front p [] f h = tt
Fresh-append front p (c ∷ cs) f h = (
  ground (arith, contains-append c.file_id front (p ∷ []), f.0, h.0),
  Fresh-append front p cs f.1 h.1,
)

published-front :
    (limits : CatalogLimits) (previous : Option ℕ) (front : List ℕ) (cs : List CatalogCandidate)
    → Ascends previous cs
    → Fresh front cs
    → published (front ++ large_ids limits cs) cs ≡ small_ids limits cs
unfolding published
published-front limits previous front [] a f = refl
published-front limits previous front (c ∷ cs) a f =
    let above = Ascends-All c.file_id cs a.1 in
    elim (Bool-cases (is_large limits c)) [
      | inl large ↦
          let there : contains c.file_id (front ++ c.file_id ∷ large_ids limits cs) ≡ true =
            ground (arith, contains-append c.file_id front (c.file_id ∷ large_ids limits cs)) in
          let rest =
            published-front limits (some c.file_id) (front ++ c.file_id ∷ []) cs a.1
              (Fresh-append front c.file_id cs f.1 above) in
          let left_out : large_ids limits (c ∷ cs) ≡ c.file_id ∷ large_ids limits cs =
            rw large refl in
          let kept : small_ids limits (c ∷ cs) ≡ small_ids limits cs = rw large refl in
          let step : published (front ++ c.file_id ∷ large_ids limits cs) (c ∷ cs)
              ≡ small_ids limits cs =
            rw there (
              subst (λ (l : List ℕ). published l cs ≡ small_ids limits cs)
                (append_assoc front (c.file_id ∷ []) (large_ids limits cs)) rest) in
          ap (λ (l : List ℕ). published (front ++ l) (c ∷ cs)) left_out ∙ step ∙ sym kept
      | inr small ↦
          let absent : contains c.file_id (front ++ large_ids limits cs) ≡ false = ground (
            arith,
            contains-append c.file_id front (large_ids limits cs),
            f.0,
            contains-large_ids limits c.file_id cs above,
          ) in
          let left_out : large_ids limits (c ∷ cs) ≡ large_ids limits cs = rw small refl in
          let kept : small_ids limits (c ∷ cs) ≡ c.file_id ∷ small_ids limits cs = rw small refl in
          let step : published (front ++ large_ids limits cs) (c ∷ cs)
              ≡ c.file_id ∷ small_ids limits cs =
            rw absent
              (ap (◌∷◌ c.file_id) (published-front limits (some c.file_id) front cs a.1 f.1)) in
          ap (λ (l : List ℕ). published (front ++ l) (c ∷ cs)) left_out ∙ step ∙ sym kept
    ]

-- Of files in ascending order, those that are not too large are published.
pub published-small_ids :
    (limits : CatalogLimits) (previous : Option ℕ) (cs : List CatalogCandidate)
    → Ascends previous cs
    → published (large_ids limits cs) cs ≡ small_ids limits cs
published-small_ids limits previous cs a =
    published-front limits previous [] cs a (nothing_in_front cs)
  where
    nothing_in_front : (ds : List CatalogCandidate) → Fresh [] ds
    nothing_in_front [] = tt
    nothing_in_front (d ∷ ds) = (refl, nothing_in_front ds)
