-- ===== src/Wasi/Errors.antt =====
-- How the calls of src/wavm/io.cpp report the errors of the system, over the operations of
-- src/storage/FileDescriptor.cpp.
use faasm.Prelude.{
  ℕ, ◌≡◌, refl, ap, ◌∙◌, Bool, true, false, Option, none, some, List, inl, inr, Result, ok, err,
  Bool-cases, Option-cases,
}
use faasm.Files.Descriptors.{FileDescriptor}
use faasm.Files.PathOpen.{errno_to_wasi}
use faasm.Files.Shared.{World}
use faasm.Files.Operations.{
  Reply, answers, fails, raises, System, Paths, abs_path, rename, renamed, write, after_writev,
  updated, error_set,
}
use faasm.Wasi.{Program}
use faasm.Wasi.Calls.{descriptor, write_result, fd_write, path_create_directory, path_rename}

module _ (p : Paths) (sys : System) where
  -- What a call to write may return.
  abbrev pub IsReported : Option ℕ → Type 0
  IsReported none = Unit
  IsReported (some n) = n ≡ 0

  -- `FileDescriptor::write` gives back no negative number: a failure of the system is the number 0.
  abbrev pub IsCount : Reply ℕ → Type 0
  IsCount (answers n) = Unit
  IsCount (fails wasi_errno) = ⊥
  IsCount raises = Unit

  error_set-IsCount : (o : Option ℕ) → IsCount (error_set o)
  error_set-IsCount none = tt
  error_set-IsCount (some wasi_errno) = tt

  updated-IsCount : (n : ℕ) (r : Bool × World) → IsCount (updated p sys n r).0
  updated-IsCount n (true, w) = tt
  updated-IsCount n (false, w) = tt

  after_writev-IsCount :
      (d : FileDescriptor) (r : Result ℕ ℕ × World) → IsCount (after_writev p sys d r).0
  after_writev-IsCount d (err errno, w) = error_set-IsCount (errno_to_wasi errno)
  after_writev-IsCount d (ok n, w) = elim (Bool-cases (p.is_path_shared d.path)) [
    | inl t ↦ rw t (updated-IsCount n (sys.update_shared_file d.path w))
    | inr t ↦ rw t tt
  ]

  pub write-IsCount :
      (d : FileDescriptor) (iovecs : List (List ℕ)) (w : World) → IsCount (write p sys d iovecs w).0
  unfolding write
  write-IsCount d iovecs w = after_writev-IsCount d (sys.writev_call d.linux_fd iovecs w)

  write_result-IsReported :
      (capture_on : Bool) (fd : ℕ) (iovecs : List (List ℕ)) (res_ptr : ℕ) (m : Program)
      (r : Reply ℕ × World)
      → IsCount r.0
      → IsReported (write_result p sys capture_on fd iovecs res_ptr m r).0
  write_result-IsReported capture_on fd iovecs res_ptr m (raises, w) h = tt
  write_result-IsReported capture_on fd iovecs res_ptr m (fails e, w) h = absurd h
  write_result-IsReported capture_on fd iovecs res_ptr m (answers n, w) h = refl

  fd_write-IsReported :
      (capture_on : Bool) (fd : ℕ) (iovecs : List (List ℕ)) (res_ptr : ℕ) (m : Program)
      → IsReported (fd_write p sys capture_on fd iovecs res_ptr m).0
  unfolding fd_write
  fd_write-IsReported capture_on fd iovecs res_ptr m = elim (Option-cases (descriptor m fd)) [
    | inl n ↦ rw n tt
    | inr (d, n) ↦ rw n (
        write_result-IsReported capture_on fd iovecs res_ptr m (write p sys d iovecs m.world)
          (write-IsCount d iovecs m.world))
  ]

  failed_write :
      (d : FileDescriptor) (r : Result ℕ ℕ × World) (errno wasi_errno : ℕ)
      → r.0 ≡ err errno
      → errno_to_wasi errno ≡ some wasi_errno
      → after_writev p sys d r ≡ (answers 0, r.1)
  failed_write d (err e, w) errno wasi_errno h k =
      let same : e ≡ errno = cc in
      let known : errno_to_wasi e ≡ some wasi_errno = ap errno_to_wasi same ∙ k in rw known refl
  failed_write d (ok n, w) errno wasi_errno h k = cc

  -- A program cannot tell a failed write from one of no bytes. `fd_write` returns 0 or throws, for
  -- every descriptor and every answer of the system. When `sys` fails to write to a descriptor in the
  -- table, with an error number that has a WASI one, and `sys'` writes no bytes there and leaves the
  -- same world, to a file that is not shared, the call leaves the same result, memory, captured output
  -- and descriptors with both.
  pub fd_write_unreported :
      (sys' : System) (capture_on : Bool) (fd : ℕ) (iovecs : List (List ℕ))
      (res_ptr errno wasi_errno : ℕ) (d : FileDescriptor) (m : Program) (w : World) (fd' : ℕ)
      (m' : Program)
      → descriptor m fd ≡ some d
      → p.is_path_shared d.path ≡ false
      → sys.writev_call d.linux_fd iovecs m.world ≡ (err errno, w)
      → errno_to_wasi errno ≡ some wasi_errno
      → sys'.writev_call d.linux_fd iovecs m.world ≡ (ok 0, w)
      → (fd_write p sys capture_on fd iovecs res_ptr m
          ≡ fd_write p sys' capture_on fd iovecs res_ptr m)
        × IsReported (fd_write p sys capture_on fd' iovecs res_ptr m').0
  unfolding fd_write write
  fd_write_unreported sys' capture_on fd iovecs res_ptr errno wasi_errno d m w fd' m' h shared f k
        f' =
      let failed : write p sys d iovecs m.world ≡ (answers 0, w) =
        ap (after_writev p sys d) f ∙ failed_write d (err errno, w) errno wasi_errno refl k in
      let wrote : write p sys' d iovecs m.world ≡ (answers 0, w) =
        ap (after_writev p sys' d) f' ∙ rw shared refl in
      (rw h (rw failed (rw wrote refl)), fd_write-IsReported capture_on fd' iovecs res_ptr m')

  failed_rename :
      (r : Result ℕ (Unit {0}) × World) (errno : ℕ)
      → r.0 ≡ err errno
      → renamed p sys r ≡ (fails 63, r.1)
  unfolding errno_to_wasi
  failed_rename (err e, w) errno h = refl
  failed_rename (ok u, w) errno h = cc

  -- When the system fails to rename, whatever the error number, `path_rename` returns the error 63,
  -- which is that of a call without permission, when both descriptors are in the table.
  pub path_rename_unreported :
      (fd new_fd errno : ℕ) (old_path new_path : List ℕ) (d new : FileDescriptor) (m : Program)
      → descriptor m fd ≡ some d
      → descriptor m new_fd ≡ some new
      → (sys.rename_call
          (p.prepend_runtime_root (abs_path p d old_path))
          (p.prepend_runtime_root (abs_path p new new_path))
          m.world).0
        ≡ err errno
      → (path_rename p sys fd old_path new_fd new_path m).0 ≡ some 63
  unfolding path_rename rename
  path_rename_unreported fd new_fd errno old_path new_path d new m h h' f =
      let step =
        failed_rename
          (sys.rename_call (p.prepend_runtime_root (abs_path p d old_path))
            (p.prepend_runtime_root (abs_path p new new_path)) m.world)
          errno f in
      rw h (rw h' (rw step refl))

  -- `path_create_directory` does the same for every two descriptors in the table: the directory is not
  -- made below that of the descriptor.
  pub path_create_directory_anywhere :
      (fd fd' : ℕ) (path : List ℕ) (d d' : FileDescriptor) (m : Program)
      → descriptor m fd ≡ some d
      → descriptor m fd' ≡ some d'
      → path_create_directory p sys fd path m ≡ path_create_directory p sys fd' path m
  unfolding path_create_directory
  path_create_directory_anywhere fd fd' path d d' m h h' = rw h (rw h' refl)
