-- ===== src/Transfer/Plan/Books.antt =====
-- multistream_copy.rs: the loop over the manifest succeeds where the sizes leave room, and books their bytes.
use native.Mathlib.Nat.{mul-suc, mul-zero, mul-le-mul_left}
use networkcopy_speed.Common.{
  ℕ, zero, suc, ◌+◌, ◌-◌, ◌*◌, ◌^◌, min, max, ◌≤◌, ◌<◌, ◌≡◌, ◌≢◌, refl, sym, ap, subst, ◌∙◌, Bool,
  true, false, ◌&&◌, ◌||◌, not, Bool-cases, inl, inr, List, [], ◌∷◌, ◌++◌, length, get_elem?, All,
  All-append, some, none, ltb, leb, ◌==◌, if◌then◌else◌, arith, IoError, IoResult, ok, err,
  >>=-eq_ok, ok-injective, some-injective, reject_if, ok_or, checked_add, checked_add-lt, u64_mod,
  ◌>>=◌,
}
use networkcopy_speed.Transfer.Manifest.{ManifestEntry, FileClass, tiny, medium, large, is_tiny}
use networkcopy_speed.Transfer.Stripes.{div_ceil, stripe_range}
use networkcopy_speed.Transfer.Stripes.Division.{div_ceil_lem}
use networkcopy_speed.Transfer.Stripes.Inversion.{stripe_range-eq_ok, stripe_range_total}
use networkcopy_speed.Transfer.Plan.{
  other_error, stripe, Lane, Building, assign, assign_stripes, classify, classify_all,
  large_file_stripe_count, max_resume_stripe_bytes,
}
use networkcopy_speed.Common
use networkcopy_speed.Transfer.Plan.Adds.{loads, Adds, assign-Adds, Adds-bind, Adds-cast, Adds-none}
use networkcopy_speed.Transfer.Plan.Packs.{sizes_sum, sizes_sum-append, size_of-there, IsTiny}

-- The bytes of the stripes from number `i` on.
abbrev left_bytes : ℕ → ℕ → ℕ → ℕ
left_bytes size count i = size - div_ceil size count * i

left_sum :
    (size s p q offset length : ℕ)
    → q ≡ p + s
    → offset ≡ min size p
    → length ≡ min (size - offset) s
    → length + (size - q) ≡ size - p
left_sum size s p q offset length a b c = omega (arith, a, b, c)

left_bytes-step :
    (size count i : ℕ) {offset length : ℕ}
    → stripe_range size i count ≡ ok (offset, length)
    → length + left_bytes size count (i + 1) ≡ left_bytes size count i
left_bytes-step size count i {offset} {length} e =
    let (h, offset_is, length_is) = stripe_range-eq_ok size i count e in
    let s = div_ceil size count in
    let suc_is : suc i ≡ i + 1 = (omega arith) in
    let next : s * (i + 1) ≡ s * i + s = subst (λ k. s * k ≡ s * i + s) suc_is (mul-suc s i) in
    left_sum size s (s * i) (s * (i + 1)) offset length next offset_is length_is

stripe-Adds :
    (id offset length : ℕ) (o : IoError) (lanes : List Lane)
    → 0 < Common.length lanes
    → loads lanes + length < u64_mod
    → Adds length lanes
        (if length == 0 then ok lanes else assign (stripe id offset length) length o lanes)
stripe-Adds id offset length o lanes some_lane room = elim (Bool-cases (length == 0)) [
  | inl z ↦ rw z (Adds-cast (ground arith) (Adds-none lanes))
  | inr z ↦ rw z (assign-Adds (stripe id offset length) length o lanes some_lane room)
]

assign_stripes-Adds :
    (id size count left i : ℕ) (lanes : List Lane)
    → 0 < length lanes
    → i + left ≡ count
    → count ≢ 0
    → div_ceil size count * count < u64_mod
    → loads lanes + left_bytes size count i < u64_mod
    → Adds (left_bytes size count i) lanes (assign_stripes id size count left i lanes)
unfolding assign_stripes
assign_stripes-Adds id size count zero i lanes some_lane end positive small room =
    let (covered, _) = div_ceil_lem size count positive in
    let last : i ≡ count = (omega (arith, end)) in
    let nothing : 0 ≡ left_bytes size count i = (rw last (omega (arith, covered))) in
    Adds-cast nothing (Adds-none lanes)
assign_stripes-Adds id size count (suc left) i lanes some_lane end positive small room =
    let h : i < count = (omega (arith, end)) in
    let under : div_ceil size count * i ≤ div_ceil size count * count =
      mul-le-mul_left (div_ceil size count) (omega (arith, h)) in
    let (offset, length, r) = stripe_range_total size i count h (omega (arith, under, small)) in
    let step = left_bytes-step size count i r in
    let a =
      stripe-Adds id offset length (other_error "striped lane size overflowed") lanes some_lane
        (omega (arith, room, step)) in
    let rest =
      assign_stripes-Adds id size count left (i + 1) a.lanes'
        (omega (arith, some_lane, a.same_length)) (omega (arith, end)) positive small
        (omega (arith, room, step, a.sum)) in
    rw (assign_stripes, r)
      (Adds-cast step (Adds-bind (assign_stripes id size count left (i + 1)) a rest))

-- The products of the stripes' size are of 64 bits.
large_file_stripe_count_total :
    (size n : ℕ)
    → size < 2 ^ 63
    → 0 < n
    → n ≤ 2 ^ 32
    → (count : ℕ) × (large_file_stripe_count size n ≡ ok count)
      × (count ≢ 0)
      × (div_ceil size count * count < u64_mod)
unfolding large_file_stripe_count
large_file_stripe_count_total size n small some_stream few =
    let served : (n == 0) ≡ false = (ground arith) in
    let count = max n (max (div_ceil size max_resume_stripe_bytes) 1) in
    let positive : count ≢ 0 = (omega arith) in
    let (_, near) = div_ceil_lem size count positive in
    let (_, few') = div_ceil_lem size max_resume_stripe_bytes (omega arith) in
    (count, rw served refl, positive, omega (arith, near, few', small, few))

abbrev pub entries_sum : List ManifestEntry → ℕ
entries_sum [] = 0
entries_sum (entry ∷ entries) = entry.file_size + entries_sum entries

-- The bytes assigned and those of the files in the lists.
abbrev pub booked : List ManifestEntry → Building → ℕ
booked manifest b =
    loads b.lanes + sizes_sum manifest b.medium_file_ids + sizes_sum manifest b.tiny_file_ids

-- What an action makes of the locals: it books so many bytes.
pub record Books (manifest : List ManifestEntry) (n bytes : ℕ) (b : Building)
    (r : IoResult Building) : Type 0 where
  pub b' : Building
  pub result : r ≡ ok b'
  pub sum : booked manifest b' ≡ booked manifest b + bytes
  pub lanes_are : length b'.lanes ≡ n
  pub are_tiny : All (IsTiny manifest) b'.tiny_file_ids

classify-Books :
    (manifest : List ManifestEntry) (n : ℕ) (b : Building) (id : ℕ) (entry : ManifestEntry)
    (class : FileClass)
    → get_elem? manifest id ≡ some entry
    → entry.class ≡ class
    → 0 < n
    → n ≤ 2 ^ 32
    → length b.lanes ≡ n
    → All (IsTiny manifest) b.tiny_file_ids
    → booked manifest b + entry.file_size < 2 ^ 63
    → Books manifest n entry.file_size b (classify n b id entry class)
unfolding classify
classify-Books manifest n b id entry large g c some_stream few lanes_are are_tiny room =
    let size = entry.file_size in
    let (count, e, positive, small) =
      large_file_stripe_count_total size n (omega (arith, room)) some_stream few in
    let whole : left_bytes size count 0 ≡ size =
      (rw (mul-zero (div_ceil size count)) (omega arith)) in
    let a = Adds-cast whole (
      assign_stripes-Adds id size count count 0 b.lanes (omega (arith, lanes_are, some_stream))
        (omega arith) positive small (omega (arith, room, whole))) in
    record {
      b' = record b { lanes = a.lanes' };
      result = rw e (rw a.result refl);
      sum = omega (arith, a.sum);
      lanes_are = a.same_length ∙ lanes_are;
      are_tiny = are_tiny;
    }
classify-Books manifest n b id entry medium g c some_stream few lanes_are are_tiny room = record {
  b' = record b { medium_file_ids = b.medium_file_ids ++ id ∷ [] };
  result = refl;
  sum =
      omega
        (arith, sizes_sum-append manifest b.medium_file_ids (id ∷ []), size_of-there manifest id g);
  lanes_are = lanes_are;
  are_tiny = are_tiny;
}
classify-Books manifest n b id entry tiny g c some_stream few lanes_are are_tiny room = record {
  b' = record b { tiny_file_ids = b.tiny_file_ids ++ id ∷ [] };
  result = refl;
  sum =
      omega
        (arith, sizes_sum-append manifest b.tiny_file_ids (id ∷ []), size_of-there manifest id g);
  lanes_are = lanes_are;
  are_tiny =
      All-append (IsTiny manifest) b.tiny_file_ids (id ∷ []) are_tiny
        (record { entry = entry; there = g; tiny_class = ap is_tiny c }, tt);
}

pub classify_all-Books :
    (manifest : List ManifestEntry) (n : ℕ) (b : Building) (id : ℕ) (entries : List ManifestEntry)
    → ((k : ℕ) → get_elem? manifest (id + k) ≡ get_elem? entries k)
    → 0 < n
    → n ≤ 2 ^ 32
    → length b.lanes ≡ n
    → All (IsTiny manifest) b.tiny_file_ids
    → booked manifest b + entries_sum entries < 2 ^ 63
    → Books manifest n (entries_sum entries) b (classify_all n b id entries)
unfolding classify_all
classify_all-Books manifest n b id [] same some_stream few lanes_are are_tiny room = record {
  b' = b;
  result = refl;
  sum = omega arith;
  lanes_are = lanes_are;
  are_tiny = are_tiny;
}
classify_all-Books manifest n b id (entry ∷ entries) same some_stream few lanes_are are_tiny room =
    let stay : id + 0 ≡ id = (omega arith) in
    let here : get_elem? manifest id ≡ some entry =
      subst (λ i. get_elem? manifest i ≡ some entry) stay (same 0) in
    let one =
      classify-Books manifest n b id entry entry.class here refl some_stream few lanes_are are_tiny
        (omega (arith, room)) in
    let moved : (k : ℕ) → id + suc k ≡ id + 1 + k = (λ k. omega arith) in
    let rest =
      classify_all-Books manifest n one.b' (id + 1) entries
        (λ k. subst (λ i. get_elem? manifest i ≡ get_elem? entries k) (moved k) (same (suc k)))
        some_stream few one.lanes_are one.are_tiny (omega (arith, room, one.sum)) in
    record {
      b' = rest.b';
      result = ap (λ r. r >>= λ x. classify_all n x (id + 1) entries) one.result ∙ rest.result;
      sum = omega (arith, rest.sum, one.sum);
      lanes_are = rest.lanes_are;
      are_tiny = rest.are_tiny;
    }
