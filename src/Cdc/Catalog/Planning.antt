-- ===== src/Cdc/Catalog/Planning.antt =====
-- The loop of `plan` in session_cdc_catalog.rs never fails on files that its checks accept.
use mathlib.Core.List.{append_assoc, append-nil}
use networkcopy_speed.Common.{
  ℕ, ◌+◌, ◌≤◌, ◌<◌, ◌≡◌, refl, sym, ap, subst, ◌∙◌, ◌⊎◌, inl, inr, false, not, ◌&&◌, List, [], ◌∷◌,
  ◌++◌, Option, some, ltb, ok, ok_or, ◌>>=◌, checked_add, checked_add-lt, lt→ltb, arith, All,
  All-append, All-append-split, u64_mod, Bool-cases, length, length-append,
}
use networkcopy_speed.Cdc.Catalog.Types.{CatalogCandidate, CatalogLimits, CatalogGeneration}
use networkcopy_speed.Cdc.Catalog.Entries.{Rolling, is_empty}
use networkcopy_speed.Cdc.Catalog.Bounds.{Fits}
use networkcopy_speed.Cdc.Catalog.Planner.{Planner, plan_from}
use networkcopy_speed.Cdc.Catalog.Validator.{Validated}
use networkcopy_speed.Cdc.Catalog.Agreement.{
  bytes_of, Ascends, last_id, Agree, Finished, finish-Finished, finished, accepted, generation_of,
}

-- The files of the generations, in the order in which they are transferred.
abbrev pub files_of : List CatalogGeneration → List CatalogCandidate
files_of [] = []
files_of (g ∷ gs) = g.transfer_files ++ files_of gs

files_of-append :
    (gs : List CatalogGeneration) (g : CatalogGeneration)
    → files_of (gs ++ g ∷ []) ≡ files_of gs ++ g.transfer_files
files_of-append [] g = append-nil g.transfer_files
files_of-append (h ∷ gs) g =
    ap (◌++◌ h.transfer_files) (files_of-append gs g)
    ∙ sym (append_assoc h.transfer_files (files_of gs) g.transfer_files)

-- Files that one generation may hold: no more bytes than the target, or a single file.
abbrev pub OfSize : CatalogLimits → List CatalogCandidate → Type 0
OfSize limits files = (bytes_of files ≤ limits.generation_target_bytes) ⊎ (length files ≡ 1)

-- A generation of the right size that leaves the catalog within its limit.
pub record IsWithin (limits : CatalogLimits) (g : CatalogGeneration) : Type 0 where
  pub some_file : is_empty g.transfer_files ≡ false
  pub size : OfSize limits g.transfer_files
  pub bytes : g.logical_bytes ≡ bytes_of g.transfer_files
  pub entries : g.catalog_entries_after ≤ limits.max_catalog_entries

-- Files that can follow what has been validated.
pub record Ready (v : Validated) (files : List CatalogCandidate) : Type 0 where
  pub fits : All Fits files
  pub ascends : Ascends v.previous_file_id files
  pub room : v.candidate_files + length files < u64_mod
  pub bytes : v.candidate_bytes + bytes_of files < u64_mod

-- The loop's result on the files still to come, `current` among them.
pub record Planned (limits : CatalogLimits) (p : Planner) (v : Validated)
    (current : List CatalogCandidate) (bytes : ℕ) (cs : List CatalogCandidate) : Type 0 where
  pub after : Planner
  pub state : Validated
  pub result : plan_from limits p current bytes cs ≡ ok after
  pub agree : Agree limits after state
  pub file_count : state.candidate_files ≡ v.candidate_files + length (current ++ cs)
  pub byte_count : state.candidate_bytes ≡ v.candidate_bytes + bytes_of (current ++ cs)
  pub transferred : files_of after.generations ≡ files_of p.generations ++ (current ++ cs)
  pub within : All (IsWithin limits) p.generations → All (IsWithin limits) after.generations

bytes_of-append : (xs ys : List CatalogCandidate) → bytes_of (xs ++ ys) ≡ bytes_of xs + bytes_of ys
bytes_of-append [] ys = omega arith
bytes_of-append (x ∷ xs) ys = omega (arith, bytes_of-append xs ys)

Ascends-split :
    (previous : Option ℕ) (xs ys : List CatalogCandidate)
    → Ascends previous (xs ++ ys)
    → Ascends previous xs × Ascends (last_id previous xs) ys
Ascends-split previous [] ys h = (tt, h)
Ascends-split previous (x ∷ xs) ys h =
    let (front, back) = Ascends-split (some x.file_id) xs ys h.1 in ((h.0, front), back)

Ready-front : (v : Validated) (xs ys : List CatalogCandidate) → Ready v (xs ++ ys) → Ready v xs
Ready-front v xs ys r = record {
  fits = (All-append-split _ xs ys r.fits).0;
  ascends = (Ascends-split v.previous_file_id xs ys r.ascends).0;
  room = omega (arith, r.room, length-append xs ys);
  bytes = omega (arith, r.bytes, bytes_of-append xs ys);
}

Ready-back :
    (v : Validated) (xs ys : List CatalogCandidate) (r : Rolling)
    → Ready v (xs ++ ys)
    → Ready (accepted v xs r) ys
Ready-back v xs ys r h = record {
  fits = (All-append-split _ xs ys h.fits).1;
  ascends = (Ascends-split v.previous_file_id xs ys h.ascends).1;
  room = omega (arith, h.room, length-append xs ys);
  bytes = omega (arith, h.bytes, bytes_of-append xs ys);
}

checked_add_zero : (n : ℕ) → n < u64_mod → checked_add 0 n ≡ some n
checked_add_zero n h = checked_add-lt 0 n (omega arith) ∙ ap some (omega arith)

-- The generation stays as it is, or takes a file more and keeps its size.
stays_OfSize :
    (limits : CatalogLimits) (current : List CatalogCandidate) (c : CatalogCandidate)
    → (not (is_empty current)
        && ltb limits.generation_target_bytes (bytes_of current + c.logical_bytes))
      ≡ false
    → OfSize limits (current ++ c ∷ [])
stays_OfSize limits [] c h = inr refl
stays_OfSize limits (d ∷ current) c h = inl (omega (arith, small, bytes_of-append current (c ∷ [])))
  where
    small : bytes_of (d ∷ current) + c.logical_bytes ≤ limits.generation_target_bytes
    small = ground arith

module _ (limits : CatalogLimits) (u : limits.max_catalog_entries < u64_mod) where
  finish_next :
      (p : Planner) (v : Validated) (files : List CatalogCandidate)
      → Agree limits p v
      → is_empty files ≡ false
      → Ready v files
      → Finished limits p v files
  finish_next p v files a e r =
      finish-Finished limits p v files u a e r.fits r.ascends r.room r.bytes

  finished-IsWithin :
      (p : Planner) (v : Validated) (files : List CatalogCandidate)
      → is_empty files ≡ false
      → OfSize limits files
      → (f : Finished limits p v files) → All (IsWithin limits) p.generations
      → All (IsWithin limits) (finished p files f.rolling).generations
  finished-IsWithin p v files e size f h =
      All-append _ p.generations _ h
        (record { some_file = e; size = size; bytes = refl; entries = f.agree.bounded.within }, tt)

  -- The last generation, if there is one open.
  plan_last :
      (p : Planner) (v : Validated) (current : List CatalogCandidate) (bytes : ℕ)
      → Agree limits p v
      → OfSize limits current
      → Ready v (current ++ [])
      → Planned limits p v current bytes []
  unfolding plan_from
  plan_last p v [] bytes a size r = record {
    after = p;
    state = v;
    result = refl;
    agree = a;
    file_count = omega arith;
    byte_count = omega arith;
    transferred = sym (append-nil _);
    within = λ h. h;
  }
  plan_last p v (c ∷ current) bytes a size r =
      let f = finish_next p v (c ∷ current) a refl (Ready-front v (c ∷ current) [] r) in
      record {
        after = finished p (c ∷ current) f.rolling;
        state = accepted v (c ∷ current) f.rolling;
        result = f.result;
        agree = f.agree;
        file_count = omega (arith, length-append current []);
        byte_count = omega (arith, bytes_of-append current []);
        transferred =
            files_of-append p.generations _
            ∙ ap (◌++◌ (files_of p.generations)) (sym (append-nil (c ∷ current)));
        within = finished-IsWithin p v (c ∷ current) refl size f;
      }

  -- A file that starts a new generation.
  plan_restart :
      (p : Planner) (v : Validated) (current : List CatalogCandidate) (bytes : ℕ)
      (c : CatalogCandidate) (cs : List CatalogCandidate)
      → is_empty current ≡ false
      → OfSize limits current
      → bytes ≡ bytes_of current
      → Ready v (current ++ c ∷ cs)
      → limits.generation_target_bytes < bytes + c.logical_bytes
      → (f : Finished limits p v current)
      → Planned limits
          (finished p current f.rolling)
          (accepted v current f.rolling)
          (c ∷ [])
          c.logical_bytes
          cs
      → Planned limits p v current bytes (c ∷ cs)
  unfolding plan_from
  plan_restart p v current bytes c cs e size eb r over f rest = record {
    after = rest.after;
    state = rest.state;
    result =
        let small : bytes + c.logical_bytes < u64_mod =
          omega (arith, r.bytes, bytes_of-append current (c ∷ cs)) in
        rw (checked_add-lt bytes c.logical_bytes small, ok_or, ◌>>=◌)
          (rw (e, lt→ltb limits.generation_target_bytes (bytes + c.logical_bytes) over)
            (rw (f.result) (rw (checked_add_zero c.logical_bytes (omega arith)) rest.result)));
    agree = rest.agree;
    file_count = omega (arith, rest.file_count, length-append current (c ∷ cs));
    byte_count = omega (arith, rest.byte_count, bytes_of-append current (c ∷ cs));
    transferred =
        rest.transferred
        ∙ ap (λ (fs : List CatalogCandidate). fs ++ (c ∷ cs))
            (files_of-append p.generations (generation_of p current f.rolling))
        ∙ append_assoc (files_of p.generations) current (c ∷ cs);
    within = λ h. rest.within (finished-IsWithin p v current e size f h);
  }

  -- A file that joins the open generation.
  plan_join :
      (p : Planner) (v : Validated) (current : List CatalogCandidate) (bytes : ℕ)
      (c : CatalogCandidate) (cs : List CatalogCandidate)
      → bytes ≡ bytes_of current
      → Ready v (current ++ c ∷ cs)
      → (not (is_empty current) && ltb limits.generation_target_bytes (bytes + c.logical_bytes))
        ≡ false
      → Planned limits p v (current ++ c ∷ []) (bytes + c.logical_bytes) cs
      → Planned limits p v current bytes (c ∷ cs)
  unfolding plan_from
  plan_join p v current bytes c cs eb r stays rest =
      let moved : (current ++ c ∷ []) ++ cs ≡ current ++ c ∷ cs =
        append_assoc current (c ∷ []) cs in
      record {
        after = rest.after;
        state = rest.state;
        result =
            let small : bytes + c.logical_bytes < u64_mod =
              omega (arith, r.bytes, bytes_of-append current (c ∷ cs)) in
            rw (checked_add-lt bytes c.logical_bytes small, ok_or, ◌>>=◌) (rw stays rest.result);
        agree = rest.agree;
        file_count =
            rest.file_count
            ∙ ap (λ (fs : List CatalogCandidate). v.candidate_files + length fs) moved;
        byte_count =
            rest.byte_count
            ∙ ap (λ (fs : List CatalogCandidate). v.candidate_bytes + bytes_of fs) moved;
        transferred = rest.transferred ∙ ap (◌++◌ (files_of p.generations)) moved;
        within = rest.within;
      }

  -- The loop of `plan` succeeds, the validator follows it, and every file is transferred, in order.
  pub plan_from-Planned :
      (p : Planner) (v : Validated) (current : List CatalogCandidate) (bytes : ℕ)
      (cs : List CatalogCandidate)
      → Agree limits p v
      → OfSize limits current
      → bytes ≡ bytes_of current
      → Ready v (current ++ cs)
      → Planned limits p v current bytes cs
  plan_from-Planned p v current bytes [] a size eb r = plan_last p v current bytes a size r
  plan_from-Planned p v current bytes (c ∷ cs) a size eb r =
      elim (Bool-cases
        (not (is_empty current) && ltb limits.generation_target_bytes (bytes + c.logical_bytes))) [
          | inl starts ↦
              let some_file : is_empty current ≡ false = (ground arith) in
              let f = finish_next p v current a some_file (Ready-front v current (c ∷ cs) r) in
              plan_restart p v current bytes c cs some_file size eb r (ground arith) f (
                plan_from-Planned (finished p current f.rolling) (accepted v current f.rolling)
                  (c ∷ []) c.logical_bytes cs f.agree (inr refl) (omega arith)
                  (Ready-back v current (c ∷ cs) f.rolling r))
          | inr stays ↦ plan_join p v current bytes c cs eb r stays (
              plan_from-Planned p v (current ++ c ∷ []) (bytes + c.logical_bytes) cs a
                (stays_OfSize limits current c (rw eb at stays))
                (omega (arith, bytes_of-append current (c ∷ [])))
                (subst (Ready v) (sym (append_assoc current (c ∷ []) cs)) r))
        ]
