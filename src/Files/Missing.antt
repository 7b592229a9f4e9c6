-- ===== src/Files/Missing.antt =====
-- Opening a shared file that the loader does not have (`pathOpen` of src/storage/FileDescriptor.cpp
-- over `syncSharedFile` of src/storage/SharedFiles.cpp).
use faasm.Prelude.{
  ℕ, ◌%◌, ◌^◌, ◌≡◌, refl, ap, ◌∙◌, Bool, true, false, if◌then◌else◌, none, some, List, [], Result,
  ok,
}
use faasm.Files.Access.{Masks, OpenMode, AccessMode, open_access, get_open_mode}
use faasm.Files.Descriptors.{Opened, opened, refused}
use faasm.Files.Shared.{
  World, Loaded, file, lookup, erase, real_path, sync_shared_file, sync_state, check_local,
}
use faasm.Files.Sync.{lookup-erase_same}
use faasm.Files.PathOpen.{
  FdFlags, LinuxFlags, wasi_fd_flags_to_linux, errno_to_wasi, path_open, clear_cache, after_sync,
  more_flags, linux_open, read_write_flag,
}

module _ (masks : Masks) (fd : FdFlags) (linux : LinuxFlags) (is_path_shared : List ℕ → Bool)
    (is_device : List ℕ → Bool) (strip : List ℕ → List ℕ) (root : List ℕ → List ℕ)
    (prepend_runtime_root : List ℕ → List ℕ) (load : List ℕ → Loaded)
    (open_call : List ℕ → ℕ → ℕ → World → Result ℕ ℕ × World) where
  -- A local file that the cache says nothing of is there for the next sync.
  sync-uncached :
      (path bytes : List ℕ) (w : World)
      → lookup path w.shared_file_map ≡ none
      → w.local_files (real_path 2 strip root path []) ≡ file bytes
      → (sync_shared_file 2 strip root load path [] w).0 ≡ some 0
  unfolding sync_shared_file sync_state check_local
  sync-uncached path bytes w c l = rw c (rw l refl)

  abbrev opens : List ℕ → ℕ → ℕ → ℕ → World → Opened × World
  opens path rights =
      path_open masks fd linux is_path_shared is_device strip root prepend_runtime_root load
        open_call path (some rights)

  -- The open of a shared file gets as far as the sync, and this is what follows.
  abbrev SyncThen : List ℕ → Bool → ℕ × ℕ → Opened × World → World → Type 0
  SyncThen path is_write flags r w' =
      r
      ≡ after_sync masks fd linux is_path_shared is_device strip root prepend_runtime_root load
          open_call path is_write flags (some 2, w')

  path_open-shared :
      (path : List ℕ) (rights open_flags fd_flags more : ℕ) (mode : OpenMode) (access : AccessMode)
      (is_write : Bool) (w w' : World)
      → is_path_shared path ≡ true
      → wasi_fd_flags_to_linux fd fd_flags ≡ some more
      → get_open_mode masks (open_flags % 2 ^ 16) ≡ ok mode
      → open_access masks rights open_flags ≡ ok (access, is_write)
      → sync_shared_file 2 strip root load path [] w ≡ (some 2, w')
      → (flags : ℕ × ℕ) × SyncThen path is_write flags (opens path rights open_flags fd_flags w) w'
  unfolding path_open
  path_open-shared path rights open_flags fd_flags more mode access is_write w w' p f m a s = (
    more_flags more (linux_open linux (read_write_flag linux access) mode),
    rw (a, f, m) (rw (p, s) refl),
  )

  -- A shared file that the loader does not have, opened with flags that can be translated: without
  -- writing, the open is refused with the WASI error ENOENT after the sync alone; with writing, it
  -- gives the descriptor of the system call, and if that leaves a file at the real path and the cache
  -- as it was, the next sync finds the file.
  pub path_open-missing :
      (path bytes : List ℕ) (rights open_flags fd_flags more linux_fd : ℕ) (mode : OpenMode)
      (access : AccessMode) (is_write : Bool) (w w' w'' : World)
      → is_path_shared path ≡ true
      → wasi_fd_flags_to_linux fd fd_flags ≡ some more
      → get_open_mode masks (open_flags % 2 ^ 16) ≡ ok mode
      → open_access masks rights open_flags ≡ ok (access, is_write)
      → sync_shared_file 2 strip root load path [] w ≡ (some 2, w')
      → is_device (real_path 2 strip root path []) ≡ false
      → ((flags permissions : ℕ)
          → open_call (real_path 2 strip root path []) flags permissions (clear_cache path w')
            ≡ (ok linux_fd, w''))
      → w''.shared_file_map ≡ erase path w'.shared_file_map
      → w''.local_files (real_path 2 strip root path []) ≡ file bytes
      → (opens path rights open_flags fd_flags w
          ≡ (if is_write then (opened linux_fd, w'') else (refused 44, w')))
        × ((sync_shared_file 2 strip root load path [] w'').0 ≡ some 0)
  unfolding errno_to_wasi
  path_open-missing path bytes rights open_flags fd_flags more linux_fd mode access is_write w w'
        w'' p f m a s d o c l =
      let (flags, e) =
        path_open-shared path rights open_flags fd_flags more mode access is_write w w' p f m a s in
      (
        e ∙ by_access is_write flags,
        sync-uncached path bytes w''
            (ap (lookup path) c ∙ lookup-erase_same path w'.shared_file_map) l,
      )
    where
      by_access :
          (is_write : Bool) (flags : ℕ × ℕ)
          → after_sync masks fd linux is_path_shared is_device strip root prepend_runtime_root load
              open_call path is_write flags
              (some 2, w')
            ≡ (if is_write then (opened linux_fd, w'') else (refused 44, w'))
      by_access true (flags, permissions) = rw (d, o flags permissions) refl
      by_access false flags = refl
