-- ===== src/Wasi/Directories.antt =====
-- Opening a path and reading a directory (`path_open` and `fd_readdir` of src/wavm/io.cpp).
use faasm.Prelude.{
  ℕ, Bool, false, not, ◌&&◌, Option, none, some, List, [], ◌⊎◌, inl, inr, Result, ok, err, ◌==◌,
  if◌then◌else◌,
}
use faasm.Prelude.Maps.{find, put}
use faasm.Files.Dirents.{DirEnt, Iter, IterError, copy_dirents_to_wasi_buffer}
use faasm.Files.Descriptors.{
  FileDescriptor, FileSystem, FsError, Opened, find_fd, child, open_file_descriptor,
}
use faasm.Files.Shared.{World}
use faasm.Wasi.{int32, chars, Program, log}
use faasm.Wasi.Calls.{Call, descriptor, einval}

-- `path_open`. The descriptor's own `pathOpen` runs once the root is found.
module _ (is_path_shared : List ℕ → Bool) (is_dot : List ℕ → Bool) (join : List ℕ → List ℕ → List ℕ)
    (path_open : FileDescriptor → World → Opened × World) where
  abbrev world_after : List ℕ → ℕ → ℕ → Program → Option FileDescriptor → World
  world_after path rights_base rights_inheriting m none = m.world
  world_after path rights_base rights_inheriting m (some root) =
      (path_open (child is_path_shared is_dot join root path rights_base rights_inheriting)
        m.world).1

  -- A negative result of `openFileDescriptor`, with its sign changed; or the new descriptor.
  abbrev pub open_result : ℕ → Result FsError (ℕ ⊎ ℕ) → Program → Call
  open_result res_fd_ptr (err e) m = (none, m)
  open_result res_fd_ptr (ok (inr wasi_errno)) m = (some wasi_errno, m)
  open_result res_fd_ptr (ok (inl fd)) m = (some 0, log (int32 res_fd_ptr fd) m)

  abbrev pub opened_in : ℕ → World → Program → Result FsError (ℕ ⊎ ℕ) × FileSystem → Call
  opened_in res_fd_ptr w m (r, fs) =
      open_result res_fd_ptr r (record m { file_system = fs; world = w })

  unfoldable pub wasi_path_open : ℕ → List ℕ → ℕ → ℕ → ℕ → Program → Call
  unfolding find_fd open_file_descriptor
  wasi_path_open root_fd path rights_base rights_inheriting res_fd_ptr m =
      opened_in res_fd_ptr (world_after path rights_base rights_inheriting m (descriptor m root_fd))
        m
        (open_file_descriptor is_path_shared is_dot join (λ d. (path_open d m.world).0)
          m.file_system root_fd path rights_base rights_inheriting)

-- `fd_readdir`. Every descriptor has an iterator, at first one that has not started; what an exception
-- of the iterator leaves is not followed.
module _ (listing : FileDescriptor → Option (List DirEnt)) (wasi_dirent_size : ℕ)
    (dirent_bytes : DirEnt → List ℕ) where
  abbrev pub iterator : Option Iter → Iter
  iterator none = record { dir_contents_loaded = false; dir_contents_idx = 0; dir_contents = [] }
  iterator (some it) = it

  abbrev pub listed : ℕ → ℕ → ℕ → Program → Result IterError (ℕ × List ℕ × Iter) → Call
  listed fd buf res_size_ptr m (err e) = (none, m)
  listed fd buf res_size_ptr m (ok (n, bytes, it)) = (
    some 0,
    log (int32 res_size_ptr n)
        (log (chars buf bytes) (record m { iterators = put fd it m.iterators })),
  )

  abbrev pub readdir_at : ℕ → ℕ → ℕ → ℕ → ℕ → Program → FileDescriptor → Iter → Call
  readdir_at fd buf buf_len start_cookie res_size_ptr m d it =
      if it.dir_contents_loaded && (start_cookie == 0)
      then (some einval, m)
      else if not it.dir_contents_loaded && not (start_cookie == 0)
      then (none, m)
      else listed fd buf res_size_ptr m
          (copy_dirents_to_wasi_buffer (listing d) wasi_dirent_size dirent_bytes buf_len it)

  abbrev readdir_of : ℕ → ℕ → ℕ → ℕ → ℕ → Program → Option FileDescriptor → Call
  readdir_of fd buf buf_len start_cookie res_size_ptr m none = (none, m)
  readdir_of fd buf buf_len start_cookie res_size_ptr m (some d) =
      readdir_at fd buf buf_len start_cookie res_size_ptr m d (iterator (find fd m.iterators))

  unfoldable pub fd_readdir : ℕ → ℕ → ℕ → ℕ → ℕ → Program → Call
  unfolding find_fd find put copy_dirents_to_wasi_buffer
  fd_readdir fd buf buf_len start_cookie res_size_ptr m =
      readdir_of fd buf buf_len start_cookie res_size_ptr m (descriptor m fd)
