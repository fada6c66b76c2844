-- ===== src/Transfer/Plan/Total.antt =====
-- multistream_copy.rs: a plan is made where the sizes leave room, and its lanes' bytes are those of the files.
use networkcopy_speed.Common.{
  ℕ, zero, suc, ◌+◌, ◌^◌, ◌≤◌, ◌<◌, ◌≡◌, refl, ap, ◌∙◌, ◌&&◌, ◌||◌, not, Bool-cases, inl, inr, List,
  [], ◌∷◌, ◌++◌, length, get_elem?, All, ltb, leb, arith, ok, ok_or, checked_add-lt, u64_mod, ◌>>=◌,
}
use networkcopy_speed.Transfer.Manifest.{ManifestEntry}
use networkcopy_speed.Transfer.Plan.{
  other_error, whole_file, tiny_pack, Lane, Building, insert_by_size, sort_by_size, size_of,
  tiny_packs_from, build_tiny_packs, is_empty, tiny_pack_target_bytes, max_tiny_pack_files,
  build_transfer_plan, empty_lanes, assign_whole_files, assign_packs,
}
use networkcopy_speed.Transfer.Plan.Adds.{loads, Adds, assign-Adds, Adds-bind, Adds-none}
use networkcopy_speed.Transfer.Plan.Packs.{
  Closed, packed_ids, build_tiny_packs-Closed, sizes_sum, sizes_sum-append, size_of-there, IsTiny,
}
use networkcopy_speed.Transfer.Plan.Books.{entries_sum, classify_all-Books}

sizes_sum-insert_by_size :
    (manifest : List ManifestEntry) (id : ℕ) (ids : List ℕ)
    → sizes_sum manifest (insert_by_size manifest id ids)
      ≡ size_of manifest id + sizes_sum manifest ids
unfolding insert_by_size
sizes_sum-insert_by_size manifest id [] = refl
sizes_sum-insert_by_size manifest id (j ∷ ids) =
    elim (Bool-cases (leb (size_of manifest j) (size_of manifest id))) [
      | inl e ↦ rw (insert_by_size, e) refl
      | inr e ↦ rw (insert_by_size, e) (omega (arith, sizes_sum-insert_by_size manifest id ids))
    ]

sizes_sum-sort_by_size :
    (manifest : List ManifestEntry) (ids : List ℕ)
    → sizes_sum manifest (sort_by_size manifest ids) ≡ sizes_sum manifest ids
unfolding sort_by_size
sizes_sum-sort_by_size manifest [] = refl
sizes_sum-sort_by_size manifest (id ∷ ids) = omega (
  arith,
  sizes_sum-sort_by_size manifest ids,
  sizes_sum-insert_by_size manifest id (sort_by_size manifest ids),
)

assign_whole_files-Adds :
    (manifest : List ManifestEntry) (ids : List ℕ) (lanes : List Lane)
    → 0 < length lanes
    → loads lanes + sizes_sum manifest ids < u64_mod
    → Adds (sizes_sum manifest ids) lanes (assign_whole_files manifest ids lanes)
unfolding assign_whole_files
assign_whole_files-Adds manifest [] lanes some_lane room = Adds-none lanes
assign_whole_files-Adds manifest (id ∷ ids) lanes some_lane room =
    let a =
      assign-Adds (whole_file id) (size_of manifest id)
        (other_error "data-lane assignment size overflowed") lanes some_lane
        (omega (arith, room)) in
    Adds-bind (assign_whole_files manifest ids) a (
      assign_whole_files-Adds manifest ids a.lanes' (omega (arith, some_lane, a.same_length))
        (omega (arith, room, a.sum)))

abbrev packs_bytes : List (List ℕ × ℕ) → ℕ
packs_bytes [] = 0
packs_bytes ((ids, bytes) ∷ packs) = bytes + packs_bytes packs

assign_packs-Adds :
    (packs : List (List ℕ × ℕ)) (lanes : List Lane)
    → 0 < length lanes
    → loads lanes + packs_bytes packs < u64_mod
    → Adds (packs_bytes packs) lanes (assign_packs packs lanes)
unfolding assign_packs
assign_packs-Adds [] lanes some_lane room = Adds-none lanes
assign_packs-Adds ((ids, bytes) ∷ packs) lanes some_lane room =
    let a =
      assign-Adds (tiny_pack ids bytes) bytes (other_error "tiny-pack lane size overflowed") lanes
        some_lane (omega (arith, room)) in
    Adds-bind (assign_packs packs) a (
      assign_packs-Adds packs a.lanes' (omega (arith, some_lane, a.same_length))
        (omega (arith, room, a.sum)))

packs_bytes-Closed :
    (manifest : List ManifestEntry) (packs : List (List ℕ × ℕ))
    → All (Closed manifest) packs
    → packs_bytes packs ≡ sizes_sum manifest (packed_ids packs)
packs_bytes-Closed manifest [] all = refl
packs_bytes-Closed manifest ((ids, bytes) ∷ packs) all = omega (
  arith,
  all.0.0.sum,
  packs_bytes-Closed manifest packs all.1,
  sizes_sum-append manifest ids (packed_ids packs),
)

tiny_packs_from_total :
    (manifest : List ManifestEntry) (packs : List (List ℕ × ℕ)) (current : List ℕ) (bytes : ℕ)
    (ids : List ℕ)
    → All (IsTiny manifest) ids
    → bytes + sizes_sum manifest ids < u64_mod
    → (packs' : List (List ℕ × ℕ)) × (tiny_packs_from manifest packs current bytes ids ≡ ok packs')
unfolding tiny_packs_from
tiny_packs_from_total manifest packs current bytes [] are_tiny room = (_, refl)
tiny_packs_from_total manifest packs current bytes (id ∷ ids) are_tiny room =
    let t = are_tiny.0 in
    let size_is = size_of-there manifest id t.there in
    let fits = checked_add-lt bytes t.entry.file_size (omega (arith, room, size_is)) in
    let fits' = checked_add-lt 0 t.entry.file_size (omega (arith, room, size_is)) in
    elim (Bool-cases (
      not (is_empty current) && ltb tiny_pack_target_bytes (bytes + t.entry.file_size)
      || leb max_tiny_pack_files (length current))) [
        | inl z ↦
            let (packs', e) =
              tiny_packs_from_total manifest (packs ++ (current, bytes) ∷ []) (id ∷ [])
                (0 + t.entry.file_size) ids are_tiny.1 (omega (arith, room, size_is)) in
            (
              packs',
              rw (tiny_packs_from, t.there)
                  (rw t.tiny_class (rw fits (rw (ok_or, ◌>>=◌, z) (rw fits' e)))),
            )
        | inr z ↦
            let (packs', e) =
              tiny_packs_from_total manifest packs (current ++ id ∷ []) (bytes + t.entry.file_size)
                ids are_tiny.1 (omega (arith, room, size_is)) in
            (
              packs',
              rw (tiny_packs_from, t.there) (rw t.tiny_class (rw fits (rw (ok_or, ◌>>=◌, z) e))),
            )
      ]

loads-empty_lanes : (n : ℕ) → loads (empty_lanes n) ≡ 0
loads-empty_lanes zero = refl
loads-empty_lanes (suc n) = omega (arith, loads-empty_lanes n)

length-empty_lanes : (n : ℕ) → length (empty_lanes n) ≡ n
length-empty_lanes zero = refl
length-empty_lanes (suc n) = omega (arith, length-empty_lanes n)

-- For 1 to 2^32 streams and files of less than 2^63 bytes together, a plan is made; it has a lane for each
-- stream, and the bytes assigned to the lanes are together those of the files.
pub build_transfer_plan-entries_sum :
    (manifest : List ManifestEntry) (data_stream_count : ℕ)
    → 0 < data_stream_count
    → data_stream_count ≤ 2 ^ 32
    → entries_sum manifest < 2 ^ 63
    → (lanes : List Lane) × (build_transfer_plan manifest data_stream_count ≡ ok lanes)
      × (length lanes ≡ data_stream_count)
      × (loads lanes ≡ entries_sum manifest)
unfolding build_transfer_plan build_tiny_packs
build_transfer_plan-entries_sum manifest n some_stream few room =
    let start : Building = record {
      lanes = empty_lanes n;
      medium_file_ids = [];
      tiny_file_ids = [];
    } in
    let none_yet = loads-empty_lanes n in
    let c =
      classify_all-Books manifest n start 0 manifest (λ k. ap (get_elem? manifest) (omega arith))
        some_stream few (length-empty_lanes n) tt (omega (arith, room, none_yet)) in
    let b = c.b' in
    let sorted = sizes_sum-sort_by_size manifest b.medium_file_ids in
    let w =
      assign_whole_files-Adds manifest (sort_by_size manifest b.medium_file_ids) b.lanes
        (omega (arith, c.lanes_are, some_stream)) (omega (arith, c.sum, none_yet, room, sorted)) in
    let (packs, p) =
      tiny_packs_from_total manifest [] [] 0 b.tiny_file_ids c.are_tiny
        (omega (arith, c.sum, none_yet, room)) in
    let (closed, ids_are) = build_tiny_packs-Closed manifest b.tiny_file_ids packs p in
    let bytes_are = packs_bytes-Closed manifest packs closed ∙ ap (sizes_sum manifest) ids_are in
    let d =
      assign_packs-Adds packs w.lanes' (omega (arith, w.same_length, c.lanes_are, some_stream))
        (omega (arith, w.sum, c.sum, none_yet, room, sorted, bytes_are)) in
    (
      d.lanes',
      rw c.result (rw w.result (rw p d.result)),
      d.same_length ∙ w.same_length ∙ c.lanes_are,
      omega (arith, d.sum, w.sum, c.sum, none_yet, sorted, bytes_are),
    )
