-- ===== src/Wasi/Calls.antt =====
-- The calls of src/wavm/io.cpp. The first part of a result is the number that a call returns to the
-- program, `none` for an exception. A path is what `getStringFromWasm` read. `FileDescriptor::pathOpen`,
-- the listing of a directory and the layout of its entries are arguments, as in `Files`.
use faasm.Prelude.{
  ℕ, ◌-◌, ◌%◌, ◌^◌, Bool, ◌&&◌, Option, none, some, List, [], Result, ok, err, leb, if◌then◌else◌,
  length,
}
use faasm.Prelude.Maps.{find, put}
use faasm.Files.Dirents.{Iter}
use faasm.Files.Descriptors.{FileDescriptor, FileSystem, FsError, find_fd, dup}
use faasm.Files.PathOpen.{FdFlags}
use faasm.Files.Shared.{World, Loaded}
use faasm.Files.Operations.{
  Reply, answers, fails, raises, System, Paths, Whences, abs_path, mkdir, unlink, rename,
  update_flags, write, stat, read_link, seek, tell,
}
use faasm.Wasi.{
  Written, int32, uint64, chars, scattered, prestat, fdstat, filestat, Program, log, with_world,
}
use faasm.Wasi.Output.{capture_buffers, capture_text}

-- `__WASI_EBADF` and `__WASI_EINVAL`.
abbrev pub ebadf : ℕ
ebadf = 8

abbrev pub einval : ℕ
einval = 28

abbrev pub Call : Type 0
Call = Option ℕ × Program

abbrev pub descriptor : Program → ℕ → Option FileDescriptor
descriptor m fd = find_fd fd m.file_system.file_descriptors

-- `fd_prestat_get`.
abbrev prestat_of : ℕ → Program → Option FileDescriptor → Call
prestat_of ptr m none = (some ebadf, m)
prestat_of ptr m (some d) = (some 0, log (prestat ptr d.preopen_type (length d.path)) m)

unfoldable pub fd_prestat_get : ℕ → ℕ → Program → Call
unfolding find_fd
fd_prestat_get fd ptr m = prestat_of ptr m (descriptor m fd)

-- `fd_prestat_dir_name` copies the whole path, whatever the length of the buffer.
abbrev dir_name_of : ℕ → Program → Option FileDescriptor → Call
dir_name_of ptr m none = (some ebadf, m)
dir_name_of ptr m (some d) = (some 0, log (chars ptr d.path) m)

unfoldable pub fd_prestat_dir_name : ℕ → ℕ → ℕ → Program → Call
unfolding find_fd
fd_prestat_dir_name fd ptr len m = dir_name_of ptr m (descriptor m fd)

-- The number that a call returns for a reply without a value.
abbrev pub code : {A : Type 0} → Reply A → Option ℕ
code (answers x) = some 0
code (fails wasi_errno) = some wasi_errno
code raises = none

abbrev pub ended : {A : Type 0} → Program → Reply A × World → Call
ended m (r, w) = (code r, with_world w m)

-- `fd_close` does nothing, `fd_advise` and `ioctl` neither.
unfoldable pub fd_close : ℕ → Program → Call
fd_close fd m = (some 0, m)

unfoldable pub fd_advise : ℕ → ℕ → ℕ → ℕ → Program → Call
fd_advise fd offset len advice m = (some 0, m)

unfoldable pub ioctl : ℕ → ℕ → ℕ → Program → Call
ioctl a b c m = (some 0, m)

-- `dup` takes the iterator of the directory along.
abbrev copy_iterator : ℕ → ℕ → Program → Option Iter → Program
copy_iterator fd new_fd m none = m
copy_iterator fd new_fd m (some it) = record m { iterators = put new_fd it m.iterators }

abbrev pub duplicated : ℕ → Program → Result FsError ℕ × FileSystem → Call
duplicated fd m (err e, fs) = (none, record m { file_system = fs })
duplicated fd m (ok new_fd, fs) =
    (some new_fd, copy_iterator fd new_fd (record m { file_system = fs }) (find fd m.iterators))

unfoldable pub do_wasi_dup : ℕ → ℕ → Program → Call
unfolding dup find put
do_wasi_dup new_linux_fd fd m = duplicated fd m (dup new_linux_fd m.file_system fd)

abbrev fd_result : ℕ → Call → Call
fd_result res_fd_ptr (none, m) = (none, m)
fd_result res_fd_ptr (some new_fd, m) = (some 0, log (int32 res_fd_ptr new_fd) m)

unfoldable pub wasi_fd_dup : ℕ → ℕ → ℕ → Program → Call
unfolding do_wasi_dup
wasi_fd_dup new_linux_fd fd res_fd_ptr m = fd_result res_fd_ptr (do_wasi_dup new_linux_fd fd m)

module _ (p : Paths) (sys : System) where
  -- After `FileDescriptor::write`: for a negative number of bytes, `fails`, the error that the
  -- descriptor keeps is returned. A count of `writev` that is not an error is not negative.
  abbrev pub captured : Bool → ℕ → List (List ℕ) → Program → Program
  captured capture_on fd iovecs m =
      if leb fd 2 && capture_on then record m { stdout = capture_buffers iovecs m.stdout } else m

  abbrev pub write_result : Bool → ℕ → List (List ℕ) → ℕ → Program → Reply ℕ × World → Call
  write_result capture_on fd iovecs res_ptr m (raises, w) = (none, with_world w m)
  write_result capture_on fd iovecs res_ptr m (fails wasi_errno, w) =
      (some wasi_errno, with_world w m)
  write_result capture_on fd iovecs res_ptr m (answers n, w) =
      (some 0, log (int32 res_ptr (n % 2 ^ 32)) (captured capture_on fd iovecs (with_world w m)))

  abbrev pub write_of : Bool → ℕ → List (List ℕ) → ℕ → Program → Option FileDescriptor → Call
  write_of capture_on fd iovecs res_ptr m none = (none, m)
  write_of capture_on fd iovecs res_ptr m (some d) =
      write_result capture_on fd iovecs res_ptr m (write p sys d iovecs m.world)

  unfoldable pub fd_write : Bool → ℕ → List (List ℕ) → ℕ → Program → Call
  unfolding find_fd write capture_buffers
  fd_write capture_on fd iovecs res_ptr m =
      write_of capture_on fd iovecs res_ptr m (descriptor m fd)

  -- `fd_read`, with the lengths of the buffers: the result of `readv` is written as it is.
  abbrev pub read_result : List ℕ → ℕ → Program → Result ℕ (List ℕ) × World → Call
  read_result buffers res_ptr m (err errno, w) =
      (some 0, log (int32 res_ptr (2 ^ 32 - 1)) (with_world w m))
  read_result buffers res_ptr m (ok bytes, w) = (
    some 0,
    log (int32 res_ptr (length bytes % 2 ^ 32)) (log (scattered buffers bytes) (with_world w m)),
  )

  abbrev read_of : List ℕ → ℕ → Program → Option FileDescriptor → Call
  read_of buffers res_ptr m none = (none, m)
  read_of buffers res_ptr m (some d) =
      read_result buffers res_ptr m (sys.readv_call d.linux_fd buffers m.world)

  unfoldable pub fd_read : ℕ → List ℕ → ℕ → Program → Call
  unfolding find_fd
  fd_read fd buffers res_ptr m = read_of buffers res_ptr m (descriptor m fd)

  abbrev with_descriptor : Program → (FileDescriptor → Call) → Option FileDescriptor → Call
  with_descriptor m f none = (none, m)
  with_descriptor m f (some d) = f d

  unfoldable pub path_create_directory : ℕ → List ℕ → Program → Call
  unfolding find_fd mkdir
  path_create_directory fd path m =
      with_descriptor m (λ d. ended m (mkdir p sys path m.world)) (descriptor m fd)

  -- The new path is made absolute by the new descriptor.
  unfoldable pub path_rename : ℕ → List ℕ → ℕ → List ℕ → Program → Call
  unfolding find_fd rename abs_path
  path_rename fd old_path new_fd new_path m =
      with_descriptor m
        (λ old.
          with_descriptor m
            (λ new. ended m (rename p sys old (abs_path p new new_path) old_path m.world))
            (descriptor m new_fd))
        (descriptor m fd)

  unfoldable pub path_unlink_file : ℕ → List ℕ → Program → Call
  unfolding find_fd unlink
  path_unlink_file root_fd path m =
      with_descriptor m (λ d. ended m (unlink p sys d path m.world)) (descriptor m root_fd)

  unfoldable pub fd_fdstat_set_flags : FdFlags → ℕ → ℕ → Program → Call
  unfolding find_fd update_flags
  fd_fdstat_set_flags f fd fd_flags m =
      with_descriptor m (λ d. ended m (update_flags p sys f d fd_flags m.world)) (descriptor m fd)

  -- A reply with a value, which is written to the memory.
  abbrev pub ended_with : {A : Type 0} → Program → (A → Written) → Reply A × World → Call
  ended_with m x (answers v, w) = (some 0, log (x v) (with_world w m))
  ended_with m x (fails wasi_errno, w) = (some wasi_errno, with_world w m)
  ended_with m x (raises, w) = (none, with_world w m)

  unfoldable pub fd_fdstat_get : (List ℕ → Loaded) → ℕ → ℕ → Program → Call
  unfolding find_fd stat
  fd_fdstat_get load fd ptr m =
      with_descriptor m
        (λ d.
          ended_with m (λ st. fdstat ptr st.wasi_filetype d.rights_base d.rights_inheriting)
            (stat p sys load d [] m.world))
        (descriptor m fd)

  -- `doFileStat`, `path_filestat_get`, and `fd_filestat_get` with the empty path.
  unfoldable pub do_file_stat : (List ℕ → Loaded) → ℕ → List ℕ → ℕ → Program → Call
  unfolding find_fd stat
  do_file_stat load fd relative_path ptr m =
      with_descriptor m
        (λ d.
          ended_with m (λ st. filestat ptr st.wasi_filetype st.native)
            (stat p sys load d relative_path m.world))
        (descriptor m fd)

  abbrev pub fd_filestat_get : (List ℕ → Loaded) → ℕ → ℕ → Program → Call
  fd_filestat_get load fd ptr m = do_file_stat load fd [] ptr m

  abbrev told : ℕ → Program → ℕ × World → Call
  told ptr m (offset, w) = (some 0, log (uint64 ptr offset) (with_world w m))

  unfoldable pub fd_tell : ℕ → ℕ → Program → Call
  unfolding find_fd tell
  fd_tell fd ptr m = with_descriptor m (λ d. told ptr m (tell p sys d m.world)) (descriptor m fd)

  unfoldable pub fd_seek : Whences → ℕ → ℕ → ℕ → ℕ → Program → Call
  unfolding find_fd seek
  fd_seek h fd offset whence ptr m =
      with_descriptor m
        (λ d. ended_with m (λ n. uint64 ptr n) (seek p sys h d offset whence m.world))
        (descriptor m fd)

  -- `path_readlink`: a failure is written as -1.
  abbrev link_result : ℕ → ℕ → Program → Reply (Option (List ℕ)) → Call
  link_result buf res_ptr m (answers none) = (some 0, log (int32 res_ptr (2 ^ 32 - 1)) m)
  link_result buf res_ptr m (answers (some content)) =
      (some 0, log (int32 res_ptr (length content % 2 ^ 32)) (log (chars buf content) m))
  link_result buf res_ptr m (fails wasi_errno) = (some wasi_errno, m)
  link_result buf res_ptr m raises = (none, m)

  unfoldable pub path_readlink : ℕ → List ℕ → ℕ → ℕ → ℕ → Program → Call
  unfolding find_fd read_link
  path_readlink root_fd path buf buf_len res_ptr m =
      with_descriptor m (λ d. link_result buf res_ptr m (read_link p sys d path buf_len m.world))
        (descriptor m root_fd)

-- `puts` of a text.
unfoldable pub puts : Bool → List ℕ → Program → Call
unfolding capture_text
puts capture_on text m =
    (some 0, if capture_on then record m { stdout = capture_text text m.stdout } else m)
