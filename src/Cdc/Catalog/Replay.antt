-- ===== src/Cdc/Catalog/Replay.antt =====
-- session_cdc_catalog.rs: the basis follows the validator's rolling catalog.
use mathlib.Core.List.{append_assoc, append-nil}
use networkcopy_speed.Common.{
  ℕ, ◌≡◌, refl, sym, ap, ◌∙◌, inl, inr, Bool, true, false, List, [], ◌∷◌, ◌++◌, ltb, ok, ok_or,
  >>=-eq_ok, checked_add, checked_sub, arith, Bool-cases, if◌then◌else◌,
}
use networkcopy_speed.Cdc.Catalog.Types.{CatalogCandidate, CatalogLimits, estimated_entries}
use networkcopy_speed.Cdc.Catalog.Entries.{Rolling, Messages, evict, catalog_file, place, too_many}
use networkcopy_speed.Cdc.Catalog.Bounds.{ids, entries_of}

-- Evicting moves ids from the front of the catalog to the end of the evicted ones.
evict-ids :
    (m : Messages) (limit estimated : ℕ) (catalog : List (ℕ × ℕ)) (entries : ℕ) (evicted : List ℕ)
    {catalog' : List (ℕ × ℕ)} {entries' : ℕ} {evicted' : List ℕ}
    → evict m limit estimated catalog entries evicted ≡ ok (catalog', entries', evicted')
    → evicted' ++ ids catalog' ≡ evicted ++ ids catalog
unfolding evict
evict-ids m limit estimated [] entries evicted e = ground arith
evict-ids m limit estimated ((id, n) ∷ catalog) entries evicted e =
    elim (Bool-cases (too_many limit (checked_add entries estimated))) [
      | inl more ↦
          let (remaining, _, e') =
            >>=-eq_ok (ok_or (checked_sub entries n) m.underflowed) _ (rw (more, evict) at e) in
          evict-ids m limit estimated catalog remaining (evicted ++ id ∷ []) e'
          ∙ append_assoc evicted (id ∷ []) (ids catalog)
      | inr fits ↦ ground arith
    ]

-- The file asks for more entries than the catalog may have.
abbrev pub is_large : CatalogLimits → CatalogCandidate → Bool
is_large limits c = ltb limits.max_catalog_entries (entries_of c)

abbrev pub large_ids : CatalogLimits → List CatalogCandidate → List ℕ
large_ids limits [] = []
large_ids limits (c ∷ cs) =
    if is_large limits c then c.file_id ∷ large_ids limits cs else large_ids limits cs

abbrev pub small_ids : CatalogLimits → List CatalogCandidate → List ℕ
small_ids limits [] = []
small_ids limits (c ∷ cs) =
    if is_large limits c then small_ids limits cs else c.file_id ∷ small_ids limits cs

-- What placing the files does: the large ones are left out, the others come to the catalog's end.
pub record Moves (limits : CatalogLimits) (r r' : Rolling) (cs : List CatalogCandidate)
    : Type 0 where
  pub uncataloged : r'.uncataloged ≡ r.uncataloged ++ large_ids limits cs
  pub queue : r'.evicted ++ ids r'.catalog ≡ (r.evicted ++ ids r.catalog) ++ small_ids limits cs

ids-append : (c d : List (ℕ × ℕ)) → ids (c ++ d) ≡ ids c ++ ids d
ids-append [] d = refl
ids-append ((id, n) ∷ c) d = ap (◌∷◌ id) (ids-append c d)

estimated_entries-entries_of :
    (c : CatalogCandidate) {n : ℕ} → estimated_entries c ≡ ok n → n ≡ entries_of c
unfolding estimated_entries
estimated_entries-entries_of c e = ground arith

catalog_file-Moves :
    (m : Messages) (limit file_id estimated : ℕ) (r : Rolling) {r' : Rolling}
    → catalog_file m limit r file_id estimated ≡ ok r'
    → (r'.uncataloged ≡ r.uncataloged)
      × (r'.evicted ++ ids r'.catalog ≡ (r.evicted ++ ids r.catalog) ++ file_id ∷ [])
unfolding catalog_file
catalog_file-Moves m limit file_id estimated r {r' = r'} e =
    let ((catalog, entries, evicted), v, e') =
      >>=-eq_ok (evict m limit estimated r.catalog r.catalog_entries r.evicted) _ e in
    let (entries', _, e'') = >>=-eq_ok (ok_or (checked_add entries estimated) m.overflowed) _ e' in
    let made : Rolling = record r {
      catalog = catalog ++ (file_id, estimated) ∷ [];
      catalog_entries = entries';
      evicted = evicted;
    } in
    let same : made ≡ r' = (ground arith) in
    rw (← same) (
      refl,
      ap (◌++◌ evicted) (ids-append catalog ((file_id, estimated) ∷ []))
          ∙ sym (append_assoc evicted (ids catalog) (file_id ∷ []))
          ∙ ap (λ (l : List ℕ). l ++ file_id ∷ [])
              (evict-ids m limit estimated r.catalog r.catalog_entries r.evicted v),
    )

pub place-Moves :
    (m : Messages) (limits : CatalogLimits) (r : Rolling) (c : CatalogCandidate) {r' : Rolling}
    → place m limits r c ≡ ok r'
    → Moves limits r r' (c ∷ [])
unfolding place
place-Moves m limits r c {r' = r'} e =
    let (n, est, e') = >>=-eq_ok (estimated_entries c) _ e in
    let amount : n ≡ entries_of c = estimated_entries-entries_of c est in
    elim (Bool-cases (is_large limits c)) [
      | inl large ↦
          let left_out : ltb limits.max_catalog_entries n ≡ true = rw amount large in
          let same : record r { uncataloged = r.uncataloged ++ c.file_id ∷ [] } ≡ r' =
            (ground arith) in
          rw (← same)
            (record { uncataloged = rw large refl; queue = rw large (sym (append-nil _)) })
      | inr small ↦
          let taken : ltb limits.max_catalog_entries n ≡ false = rw amount small in
          let (u, q) =
            catalog_file-Moves m limits.max_catalog_entries c.file_id n r (rw taken at e') in
          record { uncataloged = rw small (u ∙ sym (append-nil _)); queue = rw small q }
    ]
