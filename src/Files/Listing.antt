-- ===== src/Files/Listing.antt =====
-- `copyDirentsToWasiBuffer` of src/storage/FileDescriptor.cpp against the contract in its comment.
use faasm.Prelude.{
  ℕ, zero, suc, ◌+◌, ◌-◌, ◌≤◌, ◌<◌, ◌≡◌, refl, sym, ap, ◌∙◌, subst, Bool, true, false, Option, some,
  List, [], ◌∷◌, ◌++◌, ok, ltb, leb, ◌==◌, if◌then◌else◌, length, length-append, get_elem?, arith,
  Bool-cases, inl, inr,
}
use faasm.Files.Dirents.{
  DirEnt, Iter, iter_back, next_loaded, iter_next, step_back, copy_entry, copy_loop, listing_length,
  copy_dirents_to_wasi_buffer,
}

-- What the contract asks for, by the entries that are left: the bytes for a buffer of this size, how
-- many entries are complete in it, and whether it is full.
pub record Filled : Type 0 where
  pub bytes : List ℕ
  pub entries : ℕ
  pub full : Bool

abbrev prepend : List ℕ → Filled → Filled
prepend b f = record f { bytes = b ++ f.bytes; entries = f.entries + 1 }

unfoldable pub fill : ℕ → (DirEnt → List ℕ) → ℕ → List DirEnt → Filled
fill size enc left [] = record { bytes = []; entries = 0; full = false }
fill size enc left (d ∷ ds) =
    let rest = prepend (enc d ++ d.path) (fill size enc (left - size - length d.path) ds) in
    if ltb left size
    then record { bytes = []; entries = 0; full = true }
    else if ltb (left - size) (length d.path)
    then record { bytes = enc d; entries = 0; full = true }
    else rest

pub fill-bound :
    (size : ℕ) (enc : DirEnt → List ℕ) (left : ℕ) (ds : List DirEnt)
    → ((d : DirEnt) → length (enc d) ≡ size)
    → (length (fill size enc left ds).bytes ≤ left)
      × ((fill size enc left ds).entries ≤ length ds)
      × (((fill size enc left ds).full ≡ false) → ((fill size enc left ds).entries ≡ length ds))
unfolding fill
fill-bound size enc left [] h = (omega arith, omega arith, λ _. refl)
fill-bound size enc left (d ∷ ds) h =
    let ih = fill-bound size enc (left - size - length d.path) ds h in
    let e = h d in
    let l =
      length-append (enc d ++ d.path) (fill size enc (left - size - length d.path) ds).bytes in
    let l' = length-append (enc d) d.path in ground arith

abbrev pub drop : ℕ → List DirEnt → List DirEnt
drop zero ds = ds
drop (suc n) [] = []
drop (suc n) (d ∷ ds) = drop n ds

length-drop : (n : ℕ) (l : List DirEnt) → length (drop n l) ≤ length l
length-drop zero l = omega arith
length-drop (suc n) [] = omega arith
length-drop (suc n) (d ∷ l) = omega (arith, length-drop n l)

pub drop-nil : (n : ℕ) (l : List DirEnt) → drop n l ≡ [] → length l ≤ n
drop-nil zero [] e = omega arith
drop-nil zero (d ∷ l) e = cc
drop-nil (suc n) [] e = omega arith
drop-nil (suc n) (d ∷ l) e = omega (arith, drop-nil n l e)

drop-cons :
    (n : ℕ) (l : List DirEnt) (d : DirEnt) (ds : List DirEnt)
    → drop n l ≡ d ∷ ds
    → (get_elem? l n ≡ some d) × (drop (suc n) l ≡ ds) × (n < length l)
drop-cons zero [] d ds e = cc
drop-cons zero (x ∷ l) d ds e = (cc, cc, omega arith)
drop-cons (suc n) [] d ds e = cc
drop-cons (suc n) (x ∷ l) d ds e = let (a, b, c) = drop-cons n l d ds e in (a, b, omega (arith, c))

append-nil : (l : List ℕ) → l ++ [] ≡ l
append-nil [] = refl
append-nil (x ∷ l) = ap (λ t. x ∷ t) (append-nil l)

pub append_assoc : (a b c : List ℕ) → a ++ (b ++ c) ≡ (a ++ b) ++ c
append_assoc [] b c = refl
append_assoc (x ∷ a) b c = ap (λ t. x ∷ t) (append_assoc a b c)

abbrev pub started : List DirEnt → ℕ → Iter
started l n = record { dir_contents_loaded = true; dir_contents_idx = n; dir_contents = l }

module _ (listing : Option (List DirEnt)) (size : ℕ) (enc : DirEnt → List ℕ) (buffer_len : ℕ)
    (l : List DirEnt) where
  -- What the loop gives back, by the contract.
  abbrev filled : ℕ → List ℕ → ℕ → Filled → ℕ × List ℕ × Iter
  filled left buffer n f = (
    if f.full then buffer_len else buffer_len - (left - length f.bytes),
    buffer ++ f.bytes,
    started l (n + f.entries),
  )

  loop-end :
      (fuel left n : ℕ) (buffer : List ℕ)
      → length l ≤ n
      → copy_loop listing size enc buffer_len (suc fuel) left buffer (started l n)
        ≡ ok (buffer_len - left, buffer, started l n)
  unfolding copy_loop
  loop-end fuel left n buffer h = ground arith

  loop-entry :
      (fuel left n : ℕ) (buffer : List ℕ) (d : DirEnt)
      → n < length l
      → get_elem? l n ≡ some d
      → copy_loop listing size enc buffer_len (suc fuel) left buffer (started l n)
        ≡ copy_entry listing size enc buffer_len
            (copy_loop listing size enc buffer_len fuel)
            left
            buffer
            d
            (started l (n + 1))
  unfolding copy_loop iter_next next_loaded
  loop-entry fuel left n buffer d h e =
      let more : leb (length l) n ≡ false = ground arith in rw (more, e) refl

  iter_back-started : (n : ℕ) → iter_back (started l (n + 1)) ≡ ok (started l n)
  unfolding iter_back
  iter_back-started n =
      let e : n + 1 - 1 ≡ n = omega arith in
      let z : (n + 1 == 0) ≡ false = ground arith in rw (z, e) refl

  filled-full :
      (left n : ℕ) (buffer bytes : List ℕ)
      → step_back listing size enc buffer_len (buffer ++ bytes) (started l (n + 1))
        ≡ ok (filled left buffer n (record { bytes = bytes; entries = 0; full = true }))
  unfolding step_back
  filled-full left n buffer bytes =
      let e : n + 0 ≡ n = omega arith in rw (step_back, iter_back-started n, e) refl

  filled-prepend :
      (left n : ℕ) (buffer b : List ℕ) (f : Filled)
      → filled left buffer n (prepend b f) ≡ filled (left - length b) (buffer ++ b) (n + 1) f
  filled-prepend left n buffer b f =
      let e : n + (f.entries + 1) ≡ n + 1 + f.entries = omega arith in
      let q : left - length (b ++ f.bytes) ≡ left - length b - length f.bytes =
        omega (arith, length-append b f.bytes) in
      rw (e, q, append_assoc buffer b f.bytes) refl

  copy_loop-fill :
      (fuel left n : ℕ) (buffer : List ℕ) (rest : List DirEnt)
      → ((d : DirEnt) → length (enc d) ≡ size)
      → drop n l ≡ rest
      → length rest < fuel
      → copy_loop listing size enc buffer_len fuel left buffer (started l n)
        ≡ ok (filled left buffer n (fill size enc left rest))
  unfolding fill copy_entry
  copy_loop-fill zero left n buffer rest h e hf = absurd (omega arith)
  copy_loop-fill (suc fuel) left n buffer [] h e hf =
      let z : n + 0 ≡ n = omega arith in
      let y : left - 0 ≡ left = omega arith in
      loop-end fuel left n buffer (drop-nil n l e) ∙ rw (z, y, append-nil buffer) refl
  copy_loop-fill (suc fuel) left n buffer (d ∷ ds) h e hf =
      let (at, next, below) = drop-cons n l d ds e in
      loop-entry fuel left n buffer d below at ∙ elim (Bool-cases (ltb left size)) [
        | inl full ↦ rw full (
            subst
              (λ b.
                step_back listing size enc buffer_len b (started l (n + 1))
                ≡ ok (buffer_len, buffer ++ [], started l (n + 0)))
              (append-nil buffer) (filled-full left n buffer []))
        | inr room ↦ elim (Bool-cases (ltb (left - size) (length d.path))) [
          | inl full ↦ rw (room, full) (filled-full left n buffer (enc d))
          | inr fits ↦
              rw (room, fits)
                (let f = fill size enc (left - size - length d.path) ds in
                  let one : suc n ≡ n + 1 = omega arith in
                  let after : drop (n + 1) l ≡ ds = subst (λ k. drop k l ≡ ds) one next in
                  let used : left - size - length d.path ≡ left - length (enc d ++ d.path) =
                    omega (arith, length-append (enc d) d.path, h d) in
                  copy_loop-fill fuel (left - size - length d.path) (n + 1)
                    (buffer ++ (enc d ++ d.path)) ds h after (omega arith)
                  ∙ ap ok (
                      ap (λ k. filled k (buffer ++ (enc d ++ d.path)) (n + 1) f) used
                      ∙ sym (filled-prepend left n buffer (enc d ++ d.path) f)))
        ]
      ]

  -- On a directory that is loaded, the call writes what the contract asks for: the entries from the
  -- iterator's on, in their order, each with its path, while they fit; it stands afterwards at the
  -- first entry that is not complete. What is written fits the buffer, and the number it reports is
  -- the size of the buffer if that was full, else that of what it wrote.
  pub copy_dirents_to_wasi_buffer-fill :
      (n : ℕ)
      → ((d : DirEnt) → length (enc d) ≡ size)
      → (f : Filled) × (f ≡ fill size enc buffer_len (drop n l))
        × (copy_dirents_to_wasi_buffer listing size enc buffer_len (started l n)
            ≡ ok
                (if f.full then buffer_len else length f.bytes, f.bytes, started l (n + f.entries)))
        × (length f.bytes ≤ buffer_len)
        × (f.entries ≤ length (drop n l))
  unfolding copy_dirents_to_wasi_buffer
  copy_dirents_to_wasi_buffer-fill n h =
      let f = fill size enc buffer_len (drop n l) in
      let (fits, few, _) = fill-bound size enc buffer_len (drop n l) h in
      let back : buffer_len - (buffer_len - length f.bytes) ≡ length f.bytes =
        omega (arith, fits) in
      (
        f,
        refl,
        copy_loop-fill (length l + listing_length listing + 1) buffer_len n [] (drop n l) h refl
              (omega (arith, length-drop n l))
            ∙ ap (λ k. ok (if f.full then buffer_len else k, f.bytes, started l (n + f.entries)))
                back,
        fits,
        few,
      )
