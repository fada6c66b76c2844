-- ===== src/Cdc/Catalog/Bounds.antt =====
-- The rolling catalog of session_cdc_catalog.rs: its rounds never fail, whichever messages they have,
-- and it keeps within its limit.
use mathlib.Core.List.{append_assoc, append-nil}
use networkcopy_speed.Common.{
  ℕ, ◌+◌, ◌-◌, ◌/◌, ◌≤◌, ◌<◌, ◌≡◌, refl, ap, inl, inr, true, false, List, [], ◌∷◌, ◌++◌, ltb, ok,
  checked_add, arith, u64_mod, Bool-cases,
}
use networkcopy_speed.Cdc.Catalog.Types.{
  CatalogCandidate, CatalogLimits, estimated_entries, average_chunk_bytes,
}
use networkcopy_speed.Cdc.Catalog.Entries.{Rolling, Messages, evict, too_many, catalog_file, place}

-- The entries of the catalog's files together.
abbrev pub total : List (ℕ × ℕ) → ℕ
total [] = 0
total ((id, n) ∷ c) = n + total c

pub total-append : (a b : List (ℕ × ℕ)) → total (a ++ b) ≡ total a + total b
total-append [] b = omega arith
total-append ((id, n) ∷ a) b = omega (arith, total-append a b)

abbrev pub ids : List (ℕ × ℕ) → List ℕ
ids [] = []
ids ((id, n) ∷ c) = id ∷ ids c

-- The catalog after an eviction: what went from the front, what is left, and room for the file.
pub record Evicted (limit estimated : ℕ) (catalog : List (ℕ × ℕ)) (entries : ℕ) (evicted : List ℕ)
    : Type 0 where
  pub gone : List (ℕ × ℕ)
  pub kept : List (ℕ × ℕ)
  pub parts : catalog ≡ gone ++ kept
  pub fits : total kept + estimated ≤ limit
  pub result :
      (m : Messages)
      → evict m limit estimated catalog entries evicted ≡ ok (kept, total kept, evicted ++ ids gone)

evict_none :
    (limit estimated : ℕ) (catalog : List (ℕ × ℕ)) (entries : ℕ) (evicted : List ℕ)
    → entries ≡ total catalog
    → too_many limit (checked_add entries estimated) ≡ false
    → (m : Messages)
    → evict m limit estimated catalog entries evicted ≡ ok (catalog, total catalog, evicted ++ [])
unfolding evict
evict_none limit estimated [] entries evicted e fits m = ground (arith, append-nil evicted)
evict_none limit estimated ((id, n) ∷ catalog) entries evicted e fits m =
    rw (fits, evict) (ground (arith, append-nil evicted))

evict_nothing :
    (limit estimated : ℕ) (catalog : List (ℕ × ℕ)) (entries : ℕ) (evicted : List ℕ)
    → entries ≡ total catalog
    → too_many limit (checked_add entries estimated) ≡ false
    → Evicted limit estimated catalog entries evicted
evict_nothing limit estimated catalog entries evicted e fits = record {
  gone = [];
  kept = catalog;
  parts = refl;
  fits = ground arith;
  result = evict_none limit estimated catalog entries evicted e fits;
}

evict_first :
    (limit estimated id n : ℕ) (catalog : List (ℕ × ℕ)) (entries : ℕ) (evicted : List ℕ)
    → n ≤ entries
    → too_many limit (checked_add entries estimated) ≡ true
    → Evicted limit estimated catalog (entries - n) (evicted ++ id ∷ [])
    → Evicted limit estimated ((id, n) ∷ catalog) entries evicted
unfolding evict
evict_first limit estimated id n catalog entries evicted h more rest = record {
  gone = (id, n) ∷ rest.gone;
  kept = rest.kept;
  parts = ap (◌∷◌ (id, n)) rest.parts;
  fits = rest.fits;
  result = λ m.
      rw (more, evict)
        (ground (arith, rest.result m, append_assoc evicted (id ∷ []) (ids rest.gone)));
}

-- The eviction loop ends with room for the file: it has taken the oldest files away.
pub evict-Evicted :
    (limit estimated : ℕ) (catalog : List (ℕ × ℕ)) (entries : ℕ) (evicted : List ℕ)
    → estimated ≤ limit
    → estimated < u64_mod
    → entries ≡ total catalog
    → Evicted limit estimated catalog entries evicted
evict-Evicted limit estimated [] entries evicted h w e =
    evict_nothing limit estimated [] entries evicted e (ground arith)
evict-Evicted limit estimated ((id, n) ∷ catalog) entries evicted h w e =
    elim (Bool-cases (too_many limit (checked_add entries estimated))) [
      | inl more ↦ evict_first limit estimated id n catalog entries evicted (omega arith) more (
          evict-Evicted limit estimated catalog (entries - n) (evicted ++ id ∷ []) h w
            (omega arith))
      | inr fits ↦ evict_nothing limit estimated ((id, n) ∷ catalog) entries evicted e fits
    ]

-- The catalog's count is right and within the limit.
pub record IsBounded (limit : ℕ) (catalog : List (ℕ × ℕ)) (entries : ℕ) : Type 0 where
  pub counted : entries ≡ total catalog
  pub within : entries ≤ limit

-- The entries that a file asks for can be computed.
abbrev pub Fits : CatalogCandidate → Type 0
Fits c = c.logical_bytes + (average_chunk_bytes - 1) < u64_mod

abbrev pub entries_of : CatalogCandidate → ℕ
entries_of c = (c.logical_bytes + (average_chunk_bytes - 1)) / average_chunk_bytes

pub estimated_entries-Fits :
    (c : CatalogCandidate) → Fits c → estimated_entries c ≡ ok (entries_of c)
unfolding estimated_entries
estimated_entries-Fits c h = ground arith

-- What one round does to the catalog, whichever its messages.
pub record Placed (limits : CatalogLimits) (r : Rolling) (c : CatalogCandidate) : Type 0 where
  pub after : Rolling
  pub result : (m : Messages) → place m limits r c ≡ ok after
  pub bounded : IsBounded limits.max_catalog_entries after.catalog after.catalog_entries

catalog_file-ok :
    (limit file_id estimated : ℕ) (r : Rolling)
    → estimated < u64_mod
    → (v : Evicted limit estimated r.catalog r.catalog_entries r.evicted) → limit < u64_mod
    → (m : Messages)
    → catalog_file m limit r file_id estimated
      ≡ ok (record r {
        catalog = v.kept ++ (file_id, estimated) ∷ [];
        catalog_entries = total v.kept + estimated;
        evicted = r.evicted ++ ids v.gone;
      })
unfolding catalog_file
catalog_file-ok limit file_id estimated r w v u m = ground (arith, v.result m, v.fits)

pub place-Placed :
    (limits : CatalogLimits) (r : Rolling) (c : CatalogCandidate)
    → limits.max_catalog_entries < u64_mod
    → Fits c
    → IsBounded limits.max_catalog_entries r.catalog r.catalog_entries
    → Placed limits r c
unfolding place
place-Placed limits r c u h b = elim (Bool-cases (ltb limits.max_catalog_entries (entries_of c))) [
  | inl large ↦ record {
    after = record r { uncataloged = r.uncataloged ++ c.file_id ∷ [] };
    result = λ m. rw (estimated_entries-Fits c h, large) refl;
    bounded = b;
  }
  | inr small ↦
      let v =
        evict-Evicted limits.max_catalog_entries (entries_of c) r.catalog r.catalog_entries
          r.evicted (ground arith) (omega arith) b.counted in
      record {
        after = record r {
          catalog = v.kept ++ (c.file_id, entries_of c) ∷ [];
          catalog_entries = total v.kept + entries_of c;
          evicted = r.evicted ++ ids v.gone;
        };
        result = λ m.
            rw (estimated_entries-Fits c h, small)
              (catalog_file-ok limits.max_catalog_entries c.file_id (entries_of c) r (omega arith) v
                u m);
        bounded = record {
          counted = omega (arith, total-append v.kept ((c.file_id, entries_of c) ∷ []));
          within = v.fits;
        };
      }
]
