-- ===== src/Transfer/Plan/Coverage.antt =====
-- multistream_copy.rs: which tasks of a plan carry a byte of a file.
use native.Mathlib.Nat.{mul-zero}
use networkcopy_speed.Common.{
  ℕ, zero, suc, ◌+◌, ◌<◌, ◌≡◌, ◌≢◌, refl, sym, ap, subst, ◌∙◌, true, ◌&&◌, ◌||◌, Bool-cases, inl,
  inr, List, [], ◌∷◌, ◌++◌, length, get_elem?, some, ltb, leb, ◌==◌, arith, ==→eq, ok, >>=-eq_ok,
  ok-injective, some-injective, reject_if, ok_or, not, checked_add,
}
use networkcopy_speed.Transfer.Manifest.{ManifestEntry, FileClass, tiny, medium, large, is_tiny}
use networkcopy_speed.Transfer.Stripes.{div_ceil}
use networkcopy_speed.Transfer.Stripes.Division.{div_ceil_lem}
use networkcopy_speed.Transfer.Plan.{
  Lane, Building, assign_stripes, classify, classify_all, large_file_stripe_count, insert_by_size,
  sort_by_size, size_of, tiny_packs_from, build_tiny_packs, is_empty, tiny_pack_target_bytes,
  max_tiny_pack_files, build_transfer_plan, empty_lanes, assign_whole_files,
}
use networkcopy_speed.Transfer.Plan.Hits.{
  count_if, occurrences, carries, left_to_carry, assign_stripes_same, assign_stripes_other,
}
use networkcopy_speed.Transfer.Plan.Measure.{
  lanes_sum, lanes_sum-empty_lanes, files_sum, packs_sum, packs_sum-append,
  lanes_sum-assign_whole_files, lanes_sum-assign_packs,
}

-- How often the ids `[file_id, file_id + left)` contain `f`: 1 or 0.
abbrev in_range : ℕ → ℕ → ℕ → ℕ
in_range f file_id left = count_if (leb file_id f && ltb f (file_id + left))

in_range_once : (f left : ℕ) → f < left → in_range f 0 left ≡ 1
in_range_once f left h = ground arith

in_range-suc :
    (f id left : ℕ) → count_if (id == f) + in_range f (id + 1) left ≡ in_range f id (suc left)
in_range-suc f id left = ground arith

occurrences-append :
    (f : ℕ) (xs ys : List ℕ) → occurrences f (xs ++ ys) ≡ occurrences f xs + occurrences f ys
occurrences-append f [] ys = omega arith
occurrences-append f (x ∷ xs) ys = omega (arith, occurrences-append f xs ys)

-- What is carried so far, and what the lists of ids will carry.
abbrev planned : ℕ → ℕ → Building → ℕ
planned f byte b =
    lanes_sum (carries f byte) b.lanes
    + occurrences f b.medium_file_ids
    + occurrences f b.tiny_file_ids

stripes_begin : (byte size count : ℕ) → left_to_carry size count 0 byte ≡ 1
stripes_begin byte size count = rw (mul-zero (div_ceil size count)) (ground arith)

stripes_end :
    (byte size count : ℕ) → count ≢ 0 → byte < size → left_to_carry size count (0 + count) byte ≡ 0
stripes_end byte size count some_count inside =
    let (covered, _) = div_ceil_lem size count some_count in
    let whole : 0 + count ≡ count = (omega arith) in rw whole (ground (arith, covered, inside))

large_file_stripe_count-positive :
    (size n : ℕ) {count : ℕ} → large_file_stripe_count size n ≡ ok count → count ≢ 0
unfolding large_file_stripe_count
large_file_stripe_count-positive size n e =
    let (_, r, e') = >>=-eq_ok (reject_if (n == 0) _) _ e in
    let same = ok-injective e' in omega (arith, same)

-- One round of the loop over the manifest plans the entry's bytes, once each, and no other file's.
classify-planned :
    (f byte n : ℕ) (b : Building) (id : ℕ) (entry : ManifestEntry) (class : FileClass)
    {b' : Building}
    → (id ≡ f → byte < entry.file_size)
    → classify n b id entry class ≡ ok b'
    → planned f byte b' ≡ planned f byte b + count_if (id == f)
unfolding classify
classify-planned f byte n b id entry large inside e =
    let (count, c, e₁) = >>=-eq_ok (large_file_stripe_count entry.file_size n) _ e in
    let (lanes, a, e₂) = >>=-eq_ok (assign_stripes id entry.file_size count count 0 b.lanes) _ e₁ in
    let done = ap (planned f byte) (ok-injective e₂) in
    elim (Bool-cases (id == f)) [
      | inl z ↦
          let same : id ≡ f = ==→eq id f z in
          let size = entry.file_size in
          let a' = subst (λ k. assign_stripes k size count count 0 b.lanes ≡ ok lanes) same a in
          let carried = assign_stripes_same f byte size count count 0 b.lanes (inside same) a' in
          let last =
            stripes_end byte size count (large_file_stripe_count-positive size n c) (inside same) in
          rw z (omega (arith, done, carried, last, stripes_begin byte size count))
      | inr z ↦
          let kept = assign_stripes_other f byte id entry.file_size count count 0 b.lanes z a in
          rw z (omega (arith, done, kept))
    ]
classify-planned f byte n b id entry medium inside e =
    let done = ap (planned f byte) (ok-injective e) in
    omega (arith, done, occurrences-append f b.medium_file_ids (id ∷ []))
classify-planned f byte n b id entry tiny inside e =
    let done = ap (planned f byte) (ok-injective e) in
    omega (arith, done, occurrences-append f b.tiny_file_ids (id ∷ []))

-- The loop over the manifest plans the bytes of the files it has seen, once each.
classify_all-planned :
    (f byte n : ℕ) (b : Building) (id : ℕ) (entries : List ManifestEntry) {b' : Building}
    → ((k : ℕ) (entry : ManifestEntry)
        → id + k ≡ f
        → get_elem? entries k ≡ some entry
        → byte < entry.file_size)
    → classify_all n b id entries ≡ ok b'
    → planned f byte b' ≡ planned f byte b + in_range f id (length entries)
unfolding classify_all
classify_all-planned f byte n b id [] inside e =
    let done = ap (planned f byte) (ok-injective e) in ground (arith, done)
classify_all-planned f byte n b id (entry ∷ entries) inside e =
    let (mid, m, e') = >>=-eq_ok (classify n b id entry entry.class) _ e in
    let one =
      classify-planned f byte n b id entry entry.class (λ h. inside 0 entry (omega (arith, h)) refl)
        m in
    let rest =
      classify_all-planned f byte n mid (id + 1) entries
        (λ k x h g. inside (suc k) x (omega (arith, h)) g) e' in
    omega (arith, one, rest, in_range-suc f id (length entries))

occurrences-insert_by_size :
    (f : ℕ) (manifest : List ManifestEntry) (id : ℕ) (ids : List ℕ)
    → occurrences f (insert_by_size manifest id ids) ≡ count_if (id == f) + occurrences f ids
unfolding insert_by_size
occurrences-insert_by_size f manifest id [] = refl
occurrences-insert_by_size f manifest id (j ∷ ids) =
    elim (Bool-cases (leb (size_of manifest j) (size_of manifest id))) [
      | inl e ↦ rw (insert_by_size, e) refl
      | inr e ↦ rw (insert_by_size, e) (omega (arith, occurrences-insert_by_size f manifest id ids))
    ]

occurrences-sort_by_size :
    (f : ℕ) (manifest : List ManifestEntry) (ids : List ℕ)
    → occurrences f (sort_by_size manifest ids) ≡ occurrences f ids
unfolding sort_by_size
occurrences-sort_by_size f manifest [] = refl
occurrences-sort_by_size f manifest (id ∷ ids) =
    let rest = occurrences-sort_by_size f manifest ids in
    omega (arith, rest, occurrences-insert_by_size f manifest id (sort_by_size manifest ids))

occurrences-files_sum :
    (f byte : ℕ) (ids : List ℕ) → files_sum (carries f byte) ids ≡ occurrences f ids
occurrences-files_sum f byte [] = refl
occurrences-files_sum f byte (id ∷ ids) =
    ap (◌+◌ (count_if (id == f))) (occurrences-files_sum f byte ids)

is_empty-occurrences : (f : ℕ) (ids : List ℕ) → is_empty ids ≡ true → occurrences f ids ≡ 0
is_empty-occurrences f [] e = refl
is_empty-occurrences f (x ∷ xs) e = cc

-- The packs have every id as often as the lists they are made of.
packs_sum-tiny_packs_from :
    (f byte : ℕ) (manifest : List ManifestEntry) (packs : List (List ℕ × ℕ)) (current : List ℕ)
    (bytes : ℕ) (ids : List ℕ) {packs' : List (List ℕ × ℕ)}
    → tiny_packs_from manifest packs current bytes ids ≡ ok packs'
    → packs_sum (carries f byte) packs'
      ≡ packs_sum (carries f byte) packs + occurrences f current + occurrences f ids
unfolding tiny_packs_from
packs_sum-tiny_packs_from f byte manifest packs current bytes [] e =
    let done = ap (packs_sum (carries f byte)) (ok-injective e) in
    elim (Bool-cases (is_empty current)) [
      | inl z ↦ omega (arith, rw z at done, is_empty-occurrences f current z)
      | inr z ↦
          omega
            (arith, rw z at done, packs_sum-append (carries f byte) packs ((current, bytes) ∷ []))
    ]
packs_sum-tiny_packs_from f byte manifest packs current bytes (id ∷ ids) e =
    let (entry, g, e₁) = >>=-eq_ok (ok_or (get_elem? manifest id) _) _ e in
    let (_, t, e₂) = >>=-eq_ok (reject_if (not (is_tiny entry.class)) _) _ e₁ in
    let (candidate, c, e₃) = >>=-eq_ok (ok_or (checked_add bytes entry.file_size) _) _ e₂ in
    elim (Bool-cases (
      not (is_empty current) && ltb tiny_pack_target_bytes candidate
      || leb max_tiny_pack_files (length current))) [
        | inl z ↦
            let (restarted, _, e₄) =
              >>=-eq_ok (ok_or (checked_add 0 entry.file_size) _) _ (rw z at e₃) in
            let rest =
              packs_sum-tiny_packs_from f byte manifest (packs ++ (current, bytes) ∷ []) (id ∷ [])
                restarted ids e₄ in
            omega (arith, rest, packs_sum-append (carries f byte) packs ((current, bytes) ∷ []))
        | inr z ↦
            let rest =
              packs_sum-tiny_packs_from f byte manifest packs (current ++ id ∷ []) candidate ids
                (rw z at e₃) in
            omega (arith, rest, occurrences-append f current (id ∷ []))
      ]

get_elem?-length :
    (entries : List ManifestEntry) (f : ℕ) {entry : ManifestEntry}
    → get_elem? entries f ≡ some entry
    → f < length entries
get_elem?-length [] f e = cc
get_elem?-length (x ∷ xs) zero e = omega arith
get_elem?-length (x ∷ xs) (suc f) e = omega (arith, get_elem?-length xs f e)

-- A plan that is made carries every byte of every file of its manifest by exactly one task of one lane.
pub build_transfer_plan-carries :
    (manifest : List ManifestEntry) (data_stream_count f byte : ℕ) (entry : ManifestEntry)
    (lanes : List Lane)
    → build_transfer_plan manifest data_stream_count ≡ ok lanes
    → get_elem? manifest f ≡ some entry
    → byte < entry.file_size
    → lanes_sum (carries f byte) lanes ≡ 1
unfolding build_transfer_plan build_tiny_packs
build_transfer_plan-carries manifest n f byte entry lanes e g inside =
    let start : Building = record {
      lanes = empty_lanes n;
      medium_file_ids = [];
      tiny_file_ids = [];
    } in
    let (b, c, e₁) = >>=-eq_ok (classify_all n start 0 manifest) _ e in
    let (wholes, w, e₂) =
      >>=-eq_ok (assign_whole_files manifest (sort_by_size manifest b.medium_file_ids) b.lanes) _
        e₁ in
    let (packs, p, e₃) = >>=-eq_ok (tiny_packs_from manifest [] [] 0 b.tiny_file_ids) _ e₂ in
    let here : (k : ℕ) (x : ManifestEntry)
        → 0 + k ≡ f
        → get_elem? manifest k ≡ some x
        → byte < x.file_size =
      (λ k x h g'.
        let same : k ≡ f = (omega (arith, h)) in
        let found : get_elem? manifest f ≡ some x =
          subst (λ i. get_elem? manifest i ≡ some x) same g' in
        subst (λ y. byte < y.file_size) (some-injective (sym g ∙ found)) inside) in
    omega (
      arith,
      classify_all-planned f byte n start 0 manifest here c,
      lanes_sum-assign_whole_files (carries f byte) manifest
          (sort_by_size manifest b.medium_file_ids) b.lanes w,
      lanes_sum-assign_packs (carries f byte) packs wholes e₃,
      packs_sum-tiny_packs_from f byte manifest [] [] 0 b.tiny_file_ids p,
      occurrences-files_sum f byte (sort_by_size manifest b.medium_file_ids),
      occurrences-sort_by_size f manifest b.medium_file_ids,
      lanes_sum-empty_lanes (carries f byte) n,
      in_range_once f (length manifest) (get_elem?-length manifest f g),
    )
