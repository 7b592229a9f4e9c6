-- ===== src/Files/ReadOnly.antt =====
-- Opens under a directory that lets no right to write be inherited (`pathOpen` of
-- src/storage/FileDescriptor.cpp).
use Prim.Native.Nat.{bit_and}
use faasm.Prelude.{
  ℕ, ◌%◌, ◌^◌, ◌≡◌, refl, ◌⊎◌, inl, inr, Bool, false, Option, none, some, List, Result, ok, err,
}
use faasm.Files.Access.{
  Masks, OpenMode, OpenError, AccessMode, rdonly, open_access, get_open_mode, open_access-child,
}
use faasm.Files.Descriptors.{FileDescriptor, Opened, throws, child}
use faasm.Files.Shared.{World, Loaded}
use faasm.Files.PathOpen.{
  FdFlags, LinuxFlags, wasi_fd_flags_to_linux, path_open, more_flags, linux_open, with_flags,
  with_access,
}

module _ (masks : Masks) (fd : FdFlags) (linux : LinuxFlags) (is_path_shared : List ℕ → Bool)
    (is_device : List ℕ → Bool) (strip : List ℕ → List ℕ) (root : List ℕ → List ℕ)
    (prepend_runtime_root : List ℕ → List ℕ) (load : List ℕ → Loaded)
    (open_call : List ℕ → ℕ → ℕ → World → Result ℕ ℕ × World) where
  -- The open throws and leaves the world, or goes on without writing, with the flags that the open
  -- mode and the descriptor's flags stand for beside O_RDONLY.
  abbrev pub IsReadOnly : List ℕ → ℕ → ℕ → World → Opened × World → Type 0
  IsReadOnly path open_flags fd_flags w r =
      (r ≡ (throws, w))
      ⊎ ((mode : OpenMode) × (more : ℕ) × (get_open_mode masks (open_flags % 2 ^ 16) ≡ ok mode)
          × (wasi_fd_flags_to_linux fd fd_flags ≡ some more)
          × (r
              ≡ with_flags masks fd linux is_path_shared is_device strip root prepend_runtime_root
                  load open_call path false (more_flags more (linux_open linux 0 mode)) w))

  -- An open under a directory that lets no right to write be inherited asks the system for the access
  -- mode O_RDONLY, whatever rights and flags it is given, and a shared file that is missing is then
  -- not made. The flags O_CREAT and O_TRUNC are those of the open mode, and are passed on. An open
  -- that does not get that far throws and leaves everything as it was.
  pub path_open-child :
      (is_shared : List ℕ → Bool) (is_dot : List ℕ → Bool) (join : List ℕ → List ℕ → List ℕ)
      (dir : FileDescriptor) (relative_path path : List ℕ) (base inheriting open_flags fd_flags : ℕ)
      (w : World)
      → bit_and dir.rights_inheriting masks.rights_write ≡ 0
      → IsReadOnly path open_flags fd_flags w (
          path_open masks fd linux is_path_shared is_device strip root prepend_runtime_root load
            open_call path
            (some (child is_shared is_dot join dir relative_path base inheriting).rights_base)
            open_flags
            fd_flags
            w)
  unfolding path_open
  path_open-child is_shared is_dot join dir relative_path path base inheriting open_flags fd_flags w
        h =
      by_result (wasi_fd_flags_to_linux fd fd_flags) (get_open_mode masks (open_flags % 2 ^ 16))
        (open_access masks
          (child is_shared is_dot join dir relative_path base inheriting).rights_base open_flags)
        refl refl
        (λ a b e.
          open_access-child masks is_shared is_dot join dir relative_path base inheriting open_flags
            h e)
    where
      by_result :
          (o : Option ℕ) (g : Result OpenError OpenMode) (x : Result OpenError (AccessMode × Bool))
          → wasi_fd_flags_to_linux fd fd_flags ≡ o
          → get_open_mode masks (open_flags % 2 ^ 16) ≡ g
          → ((a : AccessMode) (b : Bool) → x ≡ ok (a, b) → (a ≡ rdonly) × (b ≡ false))
          → IsReadOnly path open_flags fd_flags w (
              with_access masks fd linux is_path_shared is_device strip root prepend_runtime_root
                load open_call path w o g x)
      by_result none g x eo eg f = inl refl
      by_result (some more) (err e) x eo eg f = inl refl
      by_result (some more) (ok mode) (err e) eo eg f = inl refl
      by_result (some more) (ok mode) (ok (a, b)) eo eg f =
          let (ea, eb) = f a b refl in inr (mode, more, eg, eo, rw (ea, eb) refl)
