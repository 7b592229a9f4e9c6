-- ===== src/Files/Rights.antt =====
-- The table of file descriptors of src/storage/FileSystem.cpp: rights, fresh numbers, closing.

use faasm.Prelude.{
  ℕ, ◌+◌, ◌<◌, ◌≡◌, refl, ap, ◌∙◌, Bool, true, false, Option, some, List, [], ◌∷◌, ◌==◌,
  if◌then◌else◌, arith,
}
use faasm.Prelude.Bits.{◌⊑◌, bit_and-⊑}
use faasm.Files.Descriptors.{
  FileDescriptor, FileSystem, Opened, opened, refused, throws, Table, find_fd, put_fd, child,
  finish_open, open_under, open_file_descriptor, tear_down,
}

find-put :
    (fd k : ℕ) (d : FileDescriptor) (t : Table)
    → find_fd k (put_fd fd d t) ≡ (if k == fd then some d else find_fd k t)
unfolding find_fd put_fd
find-put fd k d [] = ground arith
find-put fd k d ((j, e) ∷ t) = ground (arith, find-put fd k d t)

find-put-same : (fd : ℕ) (d : FileDescriptor) (t : Table) → find_fd fd (put_fd fd d t) ≡ some d
find-put-same fd d t =
    let same : (fd == fd) ≡ true = ground arith in find-put fd fd d t ∙ rw same refl

-- Every number in the table is below the next one.
abbrev pub IsNumbered : ℕ → Table → Type 0
IsNumbered n [] = Unit
IsNumbered n ((k, d) ∷ t) = (k < n) × IsNumbered n t

IsNumbered-suc : (n : ℕ) (t : Table) → IsNumbered n t → IsNumbered (n + 1) t
IsNumbered-suc n [] h = tt
IsNumbered-suc n ((k, d) ∷ t) h = (omega arith, IsNumbered-suc n t h.1)

IsNumbered-put :
    (n : ℕ) (d : FileDescriptor) (t : Table) → IsNumbered n t → IsNumbered (n + 1) (put_fd n d t)
unfolding put_fd
IsNumbered-put n d [] h = (omega arith, tt)
IsNumbered-put n d ((k, e) ∷ t) h =
    let differs : (k == n) ≡ false = ground arith in
    rw differs (omega arith, IsNumbered-put n d t h.1)

tear_down-put :
    (dir n : ℕ) (d : FileDescriptor) (t : Table)
    → IsNumbered n t
    → d.preopen_type ≡ dir
    → tear_down dir (put_fd n d t) ≡ tear_down dir t
unfolding tear_down put_fd
tear_down-put dir n d [] h e = ground arith
tear_down-put dir n d ((k, x) ∷ t) h e =
    let differs : (k == n) ≡ false = ground arith in
    rw (differs, tear_down-put dir n d t h.1 e) refl

module _ (is_path_shared : List ℕ → Bool) (is_dot : List ℕ → Bool)
    (join : List ℕ → List ℕ → List ℕ) where
  -- Whatever `pathOpen` answers, the new descriptor stands in the table under the next number.
  finish_open-table :
      (fs : FileSystem) (d : FileDescriptor) (answer : Opened)
      → (n : Option ℕ) × ((finish_open is_path_shared is_dot join fs d answer).1 ≡ record {
        next_fd = fs.next_fd + 1;
        file_descriptors = put_fd fs.next_fd (record d { linux_fd = n }) fs.file_descriptors;
      })
  unfolding finish_open
  finish_open-table fs d (opened n) = (some n, refl)
  finish_open-table fs d (refused e) = (d.linux_fd, refl)
  finish_open-table fs d throws = (d.linux_fd, refl)

  module _ (path_open : FileDescriptor → Opened) (fs : FileSystem) (root_fd : ℕ)
      (relative_path : List ℕ) (base inheriting : ℕ) (root : FileDescriptor)
      (found : find_fd root_fd fs.file_descriptors ≡ some root) where
    abbrev after : FileSystem
    after =
        (open_file_descriptor is_path_shared is_dot join path_open fs root_fd relative_path base
          inheriting).1

    after-put :
        (n : Option ℕ) × (after ≡ record {
          next_fd = fs.next_fd + 1;
          file_descriptors =
              put_fd fs.next_fd
                (record (child is_path_shared is_dot join root relative_path base inheriting) {
                  linux_fd = n;
                })
                fs.file_descriptors;
        })
    unfolding open_file_descriptor open_under
    after-put =
        let d = child is_path_shared is_dot join root relative_path base inheriting in
        let (n, e) = finish_open-table fs d (path_open d) in
        (
          n,
          ap
                (λ o.
                  (open_under is_path_shared is_dot join path_open fs relative_path base inheriting
                    o).1)
                found
              ∙ e,
        )

    -- Opening under a descriptor that exists gives the next number a descriptor with no right that
    -- the parent does not let its children inherit, nor any to pass on; all others stay. The numbers
    -- stay below the next one. It holds whatever `pathOpen` answers, an exception included.
    pub open_file_descriptor-rights :
        IsNumbered fs.next_fd fs.file_descriptors
        → (d : FileDescriptor) × (find_fd fs.next_fd after.file_descriptors ≡ some d)
          × (d.rights_base ⊑ root.rights_inheriting)
          × (d.rights_inheriting ⊑ root.rights_inheriting)
          × ((k : ℕ)
              → find_fd k after.file_descriptors
                ≡ (if k == fs.next_fd then some d else find_fd k fs.file_descriptors))
          × IsNumbered after.next_fd after.file_descriptors
    open_file_descriptor-rights h =
        let (n, e) = after-put in
        let d = record (child is_path_shared is_dot join root relative_path base inheriting) {
          linux_fd = n;
        } in
        (
          d,
          rw e (find-put-same fs.next_fd d fs.file_descriptors),
          bit_and-⊑ base root.rights_inheriting,
          bit_and-⊑ inheriting root.rights_inheriting,
          λ k. rw e (find-put fs.next_fd k d fs.file_descriptors),
          rw e (IsNumbered-put fs.next_fd d fs.file_descriptors h),
        )

    -- `tearDown` closes no descriptor that opening made, as `__WASI_PREOPENTYPE_DIR` is 0, which is
    -- the preopen type of a descriptor that the map makes.
    pub tear_down-open_file_descriptor :
        IsNumbered fs.next_fd fs.file_descriptors
        → tear_down 0 after.file_descriptors ≡ tear_down 0 fs.file_descriptors
    tear_down-open_file_descriptor h =
        let (n, e) = after-put in
        rw e (
          tear_down-put 0 fs.next_fd
            (record (child is_path_shared is_dot join root relative_path base inheriting) {
              linux_fd = n;
            })
            fs.file_descriptors h refl)
