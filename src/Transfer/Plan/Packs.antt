-- ===== src/Transfer/Plan/Packs.antt =====
-- multistream_copy.rs: what build_tiny_packs makes.
use mathlib.Core.List.{append-nil, append_assoc}
use networkcopy_speed.Common.{
  ℕ, ◌+◌, ◌≤◌, ◌<◌, ◌≡◌, refl, sym, ap, subst, ◌∙◌, true, false, ◌&&◌, ◌||◌, not, Bool-cases, ◌⊎◌,
  inl, inr, List, [], ◌∷◌, ◌++◌, length, length-append, get_elem?, All, All-append, some, ltb, leb,
  arith, ok, >>=-eq_ok, ok_or-eq_ok, ok-injective, reject_if, ok_or, checked_add,
  checked_add-eq_some,
}
use networkcopy_speed.Transfer.Manifest.{ManifestEntry, is_tiny}
use networkcopy_speed.Transfer.Plan.{
  size_of, tiny_packs_from, build_tiny_packs, is_empty, tiny_pack_target_bytes, max_tiny_pack_files,
}

-- The sum of the files' sizes.
abbrev pub sizes_sum : List ManifestEntry → List ℕ → ℕ
sizes_sum manifest [] = 0
sizes_sum manifest (id ∷ ids) = size_of manifest id + sizes_sum manifest ids

-- The files of the packs, in order.
abbrev pub packed_ids : List (List ℕ × ℕ) → List ℕ
packed_ids [] = []
packed_ids ((ids, bytes) ∷ packs) = ids ++ packed_ids packs

-- The id is that of a tiny file.
pub record IsTiny (manifest : List ManifestEntry) (id : ℕ) : Type 0 where
  pub entry : ManifestEntry
  pub there : get_elem? manifest id ≡ some entry
  pub tiny_class : is_tiny entry.class ≡ true

-- A pack, also while it is open.
pub record PackIs (manifest : List ManifestEntry) (ids : List ℕ) (bytes : ℕ) : Type 0 where
  pub sum : bytes ≡ sizes_sum manifest ids
  pub are_tiny : All (IsTiny manifest) ids
  pub few : length ids ≤ max_tiny_pack_files
  pub limited : (length ids ≡ 1) ⊎ (bytes ≤ tiny_pack_target_bytes)

-- A pack that is closed.
abbrev pub Closed : List ManifestEntry → List ℕ × ℕ → Type 0
Closed manifest (ids, bytes) = PackIs manifest ids bytes × (is_empty ids ≡ false)

pub sizes_sum-append :
    (manifest : List ManifestEntry) (xs ys : List ℕ)
    → sizes_sum manifest (xs ++ ys) ≡ sizes_sum manifest xs + sizes_sum manifest ys
sizes_sum-append manifest [] ys = omega arith
sizes_sum-append manifest (x ∷ xs) ys = omega (arith, sizes_sum-append manifest xs ys)

packed_ids-append :
    (ps qs : List (List ℕ × ℕ)) → packed_ids (ps ++ qs) ≡ packed_ids ps ++ packed_ids qs
packed_ids-append [] qs = refl
packed_ids-append ((ids, bytes) ∷ ps) qs =
    ap (◌++◌ ids) (packed_ids-append ps qs) ∙ sym (append_assoc ids (packed_ids ps) (packed_ids qs))

pub size_of-there :
    (manifest : List ManifestEntry) (id : ℕ) {entry : ManifestEntry}
    → get_elem? manifest id ≡ some entry
    → size_of manifest id ≡ entry.file_size
size_of-there manifest id g = rw (size_of, g) refl

is_empty-nil : (xs : List ℕ) → is_empty xs ≡ true → xs ≡ []
is_empty-nil [] e = refl
is_empty-nil (x ∷ xs) e = cc

is_empty-length : (xs : List ℕ) → is_empty xs ≡ true → length xs ≡ 0
is_empty-length [] e = refl
is_empty-length (x ∷ xs) e = cc

single :
    (manifest : List ManifestEntry) (id : ℕ) {entry : ManifestEntry} (bytes : ℕ)
    → get_elem? manifest id ≡ some entry
    → is_tiny entry.class ≡ true
    → bytes ≡ 0 + entry.file_size
    → PackIs manifest (id ∷ []) bytes
single manifest id {entry} bytes g t h = record {
  sum = omega (arith, h, size_of-there manifest id g);
  are_tiny = (record { entry = entry; there = g; tiny_class = t }, tt);
  few = omega arith;
  limited = inl refl;
}

-- One more file in the open pack.
PackIs-grown :
    (manifest : List ManifestEntry) (current : List ℕ) (bytes id candidate : ℕ)
    {entry : ManifestEntry}
    → PackIs manifest current bytes
    → get_elem? manifest id ≡ some entry
    → is_tiny entry.class ≡ true
    → candidate ≡ bytes + entry.file_size
    → (not (is_empty current) && ltb tiny_pack_target_bytes candidate
        || leb max_tiny_pack_files (length current))
      ≡ false
    → PackIs manifest (current ++ id ∷ []) candidate
PackIs-grown manifest current bytes id candidate {entry} p g t c room =
    let more = length-append current (id ∷ []) in
    record {
      sum = omega (
        arith,
        p.sum,
        c,
        size_of-there manifest id g,
        sizes_sum-append manifest current (id ∷ []),
      );
      are_tiny =
          All-append (IsTiny manifest) current (id ∷ []) p.are_tiny
            (record { entry = entry; there = g; tiny_class = t }, tt);
      few =
          (let h : length current < max_tiny_pack_files = (ground arith) in omega (arith, more, h));
      limited = elim (Bool-cases (is_empty current)) [
        | inl z ↦ inl (omega (arith, more, is_empty-length current z))
        | inr z ↦ inr (ground arith)
      ];
    }

-- The pack that is closed has files.
full_some :
    (current : List ℕ) (candidate : ℕ)
    → (not (is_empty current) && ltb tiny_pack_target_bytes candidate
        || leb max_tiny_pack_files (length current))
      ≡ true
    → is_empty current ≡ false
full_some [] candidate e = absurd (ground arith)
full_some (x ∷ xs) candidate e = refl

tiny_packs_from-Closed :
    (manifest : List ManifestEntry) (packs : List (List ℕ × ℕ)) (current : List ℕ) (bytes : ℕ)
    (ids : List ℕ) {packs' : List (List ℕ × ℕ)}
    → All (Closed manifest) packs
    → PackIs manifest current bytes
    → tiny_packs_from manifest packs current bytes ids ≡ ok packs'
    → All (Closed manifest) packs' × (packed_ids packs' ≡ packed_ids packs ++ (current ++ ids))
unfolding tiny_packs_from
tiny_packs_from-Closed manifest packs current bytes [] {packs'} closed p e =
    let done = ok-injective e in
    elim (Bool-cases (is_empty current)) [
      | inl z ↦
          let same : packs ≡ packs' = (rw z at done) in
          (
            subst (All (Closed manifest)) same closed,
            sym (ap packed_ids same)
                ∙ sym (append-nil (packed_ids packs))
                ∙ ap (λ xs. packed_ids packs ++ (xs ++ [])) (sym (is_empty-nil current z)),
          )
      | inr z ↦
          let same : packs ++ (current, bytes) ∷ [] ≡ packs' = (rw z at done) in
          (
            subst (All (Closed manifest)) same
                (All-append (Closed manifest) packs ((current, bytes) ∷ []) closed ((p, z), tt)),
            sym (ap packed_ids same) ∙ packed_ids-append packs ((current, bytes) ∷ []),
          )
    ]
tiny_packs_from-Closed manifest packs current bytes (id ∷ ids) {packs'} closed p e =
    let (entry, g, e₁) = >>=-eq_ok (ok_or (get_elem? manifest id) _) _ e in
    let (_, t, e₂) = >>=-eq_ok (reject_if (not (is_tiny entry.class)) _) _ e₁ in
    let (candidate, c, e₃) = >>=-eq_ok (ok_or (checked_add bytes entry.file_size) _) _ e₂ in
    let there : get_elem? manifest id ≡ some entry = ok_or-eq_ok _ _ g in
    let is : is_tiny entry.class ≡ true = (ground arith) in
    let (grown, _) = checked_add-eq_some bytes entry.file_size (ok_or-eq_ok _ _ c) in
    elim (Bool-cases (
      not (is_empty current) && ltb tiny_pack_target_bytes candidate
      || leb max_tiny_pack_files (length current))) [
        | inl z ↦
            let (restarted, r, e₄) =
              >>=-eq_ok (ok_or (checked_add 0 entry.file_size) _) _ (rw z at e₃) in
            let (begun, _) = checked_add-eq_some 0 entry.file_size (ok_or-eq_ok _ _ r) in
            let (all, same) =
              tiny_packs_from-Closed manifest (packs ++ (current, bytes) ∷ []) (id ∷ []) restarted
                ids
                (All-append (Closed manifest) packs ((current, bytes) ∷ []) closed
                  ((p, full_some current candidate z), tt))
                (single manifest id restarted there is begun) e₄ in
            (
              all,
              same
                  ∙ ap (λ xs. xs ++ id ∷ ids) (packed_ids-append packs ((current, bytes) ∷ []))
                  ∙ append_assoc (packed_ids packs) (current ++ []) (id ∷ ids)
                  ∙ ap (λ xs. packed_ids packs ++ (xs ++ id ∷ ids)) (append-nil current),
            )
        | inr z ↦
            let (all, same) =
              tiny_packs_from-Closed manifest packs (current ++ id ∷ []) candidate ids closed
                (PackIs-grown manifest current bytes id candidate p there is grown z)
                (rw z at e₃) in
            (all, same ∙ ap (◌++◌ (packed_ids packs)) (append_assoc current (id ∷ []) ids))
      ]

-- The packs that are made hold the given files, in the given order; each is of 1 to 4096 tiny files, its
-- bytes are the sum of their sizes, and are at most 8 MiB where it has more than one file.
pub build_tiny_packs-Closed :
    (manifest : List ManifestEntry) (tiny_file_ids : List ℕ) (packs : List (List ℕ × ℕ))
    → build_tiny_packs manifest tiny_file_ids ≡ ok packs
    → All (Closed manifest) packs × (packed_ids packs ≡ tiny_file_ids)
unfolding build_tiny_packs
build_tiny_packs-Closed manifest ids packs e =
    let nothing : PackIs manifest [] 0 = record {
      sum = refl;
      are_tiny = tt;
      few = omega arith;
      limited = inr (omega arith);
    } in
    tiny_packs_from-Closed manifest [] [] 0 ids tt nothing e
