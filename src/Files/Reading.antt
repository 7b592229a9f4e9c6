-- ===== src/Files/Reading.antt =====
-- A caller that reads a directory to its end, by the contract in the comment above
-- `copyDirentsToWasiBuffer` of src/storage/FileDescriptor.cpp: it calls again until a buffer comes back
-- that is not filled.
use faasm.Prelude.{
  ℕ, zero, suc, ◌+◌, ◌≤◌, ◌<◌, ◌≡◌, refl, sym, ap, ◌∙◌, subst, Bool, true, false, Option, none,
  some, List, [], ◌∷◌, ◌++◌, Result, ok, err, ltb, ◌==◌, if◌then◌else◌, length, arith, Bool-cases,
  inl, inr,
}
use faasm.Files.Dirents.{DirEnt, Iter, IterError, copy_dirents_to_wasi_buffer}
use faasm.Files.Complete.{
  take, encode, Fit, fill-encode, fill-progress, drop_more, length-drop-sub, Fit-drop, fill-none,
}
use faasm.Files.Listing.{
  Filled, fill, fill-bound, drop, drop-nil, started, copy_dirents_to_wasi_buffer-fill,
}

-- The buffers of a run, with the iterator that it leaves; none when the fuel ran out.
abbrev Run : Type 0
Run = Option (Result IterError (List (List ℕ) × Iter))

abbrev with_buffer : List ℕ → Run → Run
with_buffer bytes none = none
with_buffer bytes (some (err e)) = some (err e)
with_buffer bytes (some (ok (buffers, it))) = some (ok (bytes ∷ buffers, it))

-- The buffers begin with whole entries, each where the one before it ended, up to the last entry.
abbrev pub Reads : (DirEnt → List ℕ) → List (List ℕ) → List DirEnt → Type 0
Reads enc [] ds = ds ≡ []
Reads enc (bytes ∷ buffers) ds =
    (k : ℕ) × (tail : List ℕ) × (bytes ≡ encode enc (take k ds) ++ tail)
    × Reads enc buffers (drop k ds)

module _ (listing : Option (List DirEnt)) (size : ℕ) (enc : DirEnt → List ℕ) (buffer_len : ℕ) where
  abbrev read_again : (Iter → Run) → Result IterError (ℕ × List ℕ × Iter) → Run
  read_again more (err e) = some (err e)
  read_again more (ok (n, bytes, it)) =
      if ltb n buffer_len then some (ok (bytes ∷ [], it)) else with_buffer bytes (more it)

  unfoldable pub read_all : ℕ → Iter → Run
  unfolding copy_dirents_to_wasi_buffer
  read_all zero it = none
  read_all (suc fuel) it =
      read_again (read_all fuel) (copy_dirents_to_wasi_buffer listing size enc buffer_len it)

  -- A run that ends behind the last entry, with the buffers that read the entries `ds`.
  abbrev pub Ends : List DirEnt → List DirEnt → Run → Type 0
  Ends l ds r =
      (buffers : List (List ℕ)) × (n : ℕ) × (r ≡ some (ok (buffers, started l n)))
      × (length l ≤ n)
      × Reads enc buffers ds

  Ends-with_buffer :
      (l ds : List DirEnt) (r : Run) (k : ℕ) (bytes tail : List ℕ)
      → bytes ≡ encode enc (take k ds) ++ tail
      → Ends l (drop k ds) r
      → Ends l ds (with_buffer bytes r)
  Ends-with_buffer l ds r k bytes tail e (buffers, n, h, end, reads) =
      (bytes ∷ buffers, n, ap (with_buffer bytes) h, end, (k, tail, e, reads))

  not_full :
      (full : Bool) (n : ℕ) → ltb (if full then buffer_len else n) buffer_len ≡ true → full ≡ false
  not_full true n h = absurd (ground (arith, h))
  not_full false n h = refl

  -- A buffer that asks for another call holds an entry.
  progress :
      (f : Filled) (ds : List DirEnt)
      → 0 < buffer_len
      → (f.full ≡ true → 0 < f.entries)
      → (f.full ≡ false → f.entries ≡ length ds)
      → (length ds ≡ 0 → length f.bytes ≡ 0)
      → ltb (if f.full then buffer_len else length f.bytes) buffer_len ≡ false
      → 0 < f.entries
  progress f ds room some_entry all none_left t = elim (Bool-cases f.full) [
    | inl u ↦ some_entry u
    | inr u ↦
        let wide : ltb (length f.bytes) buffer_len ≡ false =
          sym (ap (λ b. ltb (if b then buffer_len else length f.bytes) buffer_len) u) ∙ t in
        let same = all u in
        elim (Bool-cases (length ds == 0)) [
          | inl z ↦
              let no_bytes = none_left (ground (arith, z)) in
              absurd (ground (arith, wide, no_bytes, room))
          | inr z ↦ ground (arith, z, same)
        ]
  ]

  no_entries : (ds : List DirEnt) → length ds ≡ 0 → ds ≡ []
  no_entries [] h = refl
  no_entries (d ∷ ds) h = absurd (omega (arith, h))

  read_again-Ends :
      (fuel n : ℕ) (l ds : List DirEnt) (f : Filled) (tail : List ℕ)
      → f.bytes ≡ encode enc (take f.entries ds) ++ tail
      → drop (n + f.entries) l ≡ drop f.entries ds
      → 0 < buffer_len
      → length ds < suc fuel
      → f.entries ≤ length ds
      → (f.full ≡ true → 0 < f.entries)
      → (f.full ≡ false → f.entries ≡ length ds)
      → (length ds ≡ 0 → length f.bytes ≡ 0)
      → (length (drop f.entries ds) < fuel
          → Ends l (drop f.entries ds) (read_all fuel (started l (n + f.entries))))
      → Ends l ds (
          read_again (read_all fuel) (
            ok (if f.full then buffer_len else length f.bytes, f.bytes, started l (n + f.entries))))
  read_again-Ends fuel n l ds f tail coded next room hf few some_entry all none_left again =
      let shorter = length-drop-sub f.entries ds in
      elim (Bool-cases (ltb (if f.full then buffer_len else length f.bytes) buffer_len)) [
        | inl t ↦
            let same = all (not_full f.full (length f.bytes) t) in
            let nil : drop f.entries ds ≡ [] =
              no_entries (drop f.entries ds) (omega (arith, shorter, same)) in
            rw t (
              f.bytes ∷ [],
              n + f.entries,
              refl,
              drop-nil (n + f.entries) l (next ∙ nil),
              (f.entries, tail, coded, nil),
            )
        | inr t ↦
            let one = progress f ds room some_entry all none_left t in
            rw t (
              Ends-with_buffer l ds (read_all fuel (started l (n + f.entries))) f.entries f.bytes
                tail coded (again (omega (arith, shorter, one, hf, few))))
      ]

  read_all-from :
      (fuel n : ℕ) (l ds : List DirEnt)
      → ((d : DirEnt) → length (enc d) ≡ size)
      → 0 < buffer_len
      → Fit size buffer_len ds
      → drop n l ≡ ds
      → length ds < fuel
      → Ends l ds (read_all fuel (started l n))
  unfolding read_all
  read_all-from zero n l ds h room fit at hf = absurd (omega (arith, hf))
  read_all-from (suc fuel) n l ds h room fit at hf =
      let (f, ef, call, fits, few) =
        copy_dirents_to_wasi_buffer-fill listing size enc buffer_len l n h in
      let e : f ≡ fill size enc buffer_len ds = ef ∙ ap (fill size enc buffer_len) at in
      let (tail, coded) = fill-encode size enc buffer_len ds in
      let (_, _, all) = fill-bound size enc buffer_len ds h in
      let coded' : f.bytes ≡ encode enc (take f.entries ds) ++ tail =
        subst (λ g. g.bytes ≡ encode enc (take g.entries ds) ++ tail) (sym e) coded in
      let next : drop (n + f.entries) l ≡ drop f.entries ds =
        drop_more n f.entries l ∙ ap (drop f.entries) at in
      let full_progress : f.full ≡ true → 0 < f.entries =
        subst (λ g. g.full ≡ true → 0 < g.entries) (sym e)
          (fill-progress size enc buffer_len ds fit) in
      let all' : f.full ≡ false → f.entries ≡ length ds =
        subst (λ g. g.full ≡ false → g.entries ≡ length ds) (sym e) all in
      let none_left : length ds ≡ 0 → length f.bytes ≡ 0 =
        subst (λ g. length ds ≡ 0 → length g.bytes ≡ 0) (sym e)
          (fill-none size enc buffer_len ds) in
      let again : length (drop f.entries ds) < fuel
          → Ends l (drop f.entries ds) (read_all fuel (started l (n + f.entries))) =
        read_all-from fuel (n + f.entries) l (drop f.entries ds) h room
          (Fit-drop size buffer_len f.entries ds fit) next in
      rw call (
        read_again-Ends fuel n l ds f tail coded' next room hf
          (subst (λ x. f.entries ≤ length x) at few) full_progress all' none_left again)

  -- Reading a directory to its end comes to an end: on a directory that is loaded, from any place in
  -- it, when each entry with its path fits the buffer, and the buffer is not empty, one call more than
  -- there are entries left is enough. No call throws, the iterator then stands behind the last entry,
  -- and the buffers begin with the entries that were left, whole and in their order, each buffer where
  -- the one before it ended.
  pub read_all-Ends :
      (n : ℕ) (l : List DirEnt)
      → ((d : DirEnt) → length (enc d) ≡ size)
      → 0 < buffer_len
      → Fit size buffer_len (drop n l)
      → Ends l (drop n l) (read_all (length (drop n l) + 1) (started l n))
  read_all-Ends n l h room fit =
      read_all-from (length (drop n l) + 1) n l (drop n l) h room fit refl (omega arith)
