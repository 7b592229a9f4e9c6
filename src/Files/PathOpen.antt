-- ===== src/Files/PathOpen.antt =====
-- `FileDescriptor::pathOpen` of src/storage/FileDescriptor.cpp, with the translations of flags and
-- of error numbers. The flags of Linux and WASI are arguments, and so is the system call `open`: it
-- gives the descriptor or an error number, and what it leaves. Error numbers are those of Linux and
-- of WASI.
use Prim.Native.Nat.{bit_or}
use faasm.Prelude.{
  ℕ, ◌%◌, ◌^◌, Bool, Option, none, some, List, [], ◌==◌, if◌then◌else◌, Result, ok, err,
}
use faasm.Files.Access.{
  Masks, OpenMode, create_mode, directory_mode, excl_mode, trunc_mode, plain_mode, OpenError,
  AccessMode, rdonly, rdwr, wronly, open_access, get_open_mode, has,
}
use faasm.Files.Descriptors.{Opened, opened, refused, throws}
use faasm.Files.Shared.{World, Loaded, real_path, erase, sync_shared_file}

-- A flag of WASI with the flag of Linux that it becomes.
pub record FdFlags : Type 0 where
  pub rsync : ℕ × ℕ
  pub append : ℕ × ℕ
  pub dsync : ℕ × ℕ
  pub sync : ℕ × ℕ
  pub nonblock : ℕ × ℕ

abbrev add_flag : ℕ → ℕ × ℕ → ℕ → ℕ
add_flag fd_flags (wasi, linux) result = if has fd_flags wasi then bit_or result linux else result

-- `wasiFdFlagsToLinux`; none for the exception.
unfoldable pub wasi_fd_flags_to_linux : FdFlags → ℕ → Option ℕ
wasi_fd_flags_to_linux f fd_flags =
    let all =
      bit_or (bit_or (bit_or (bit_or f.rsync.0 f.append.0) f.dsync.0) f.sync.0) f.nonblock.0 in
    if fd_flags == 0
    then some 0
    else if has fd_flags all
    then some (
        add_flag fd_flags f.nonblock (
          add_flag fd_flags f.sync
            (add_flag fd_flags f.dsync (add_flag fd_flags f.append (add_flag fd_flags f.rsync 0)))))
    else none

-- `errnoToWasi`; none for the exception.
unfoldable pub errno_to_wasi : ℕ → Option ℕ
errno_to_wasi errno_in =
    if errno_in == 1
    then some 63
    else if errno_in == 2
    then some 44
    else if errno_in == 5
    then some 29
    else if errno_in == 9
    then some 8
    else if errno_in == 12
    then some 48
    else if errno_in == 13
    then some 2
    else if errno_in == 17
    then some 20
    else if errno_in == 20
    then some 54
    else if errno_in == 21
    then some 31
    else if errno_in == 22
    then some 28
    else if errno_in == 24
    then some 33
    else none

-- O_RDWR, O_WRONLY, O_CREAT, O_DIRECTORY, O_TRUNC and O_EXCL; O_RDONLY is 0.
pub record LinuxFlags : Type 0 where
  pub o_rdwr : ℕ
  pub o_wronly : ℕ
  pub o_creat : ℕ
  pub o_directory : ℕ
  pub o_trunc : ℕ
  pub o_excl : ℕ

abbrev pub read_write_flag : LinuxFlags → AccessMode → ℕ
read_write_flag l rdonly = 0
read_write_flag l rdwr = l.o_rdwr
read_write_flag l wronly = l.o_wronly

-- The flags and the mode; S_IRWXU | S_IRGRP | S_IROTH is 484.
abbrev pub linux_open : LinuxFlags → ℕ → OpenMode → ℕ × ℕ
linux_open l read_write create_mode = (bit_or read_write l.o_creat, 484)
linux_open l read_write directory_mode = (bit_or read_write l.o_directory, 0)
linux_open l read_write trunc_mode = (bit_or read_write l.o_trunc, 0)
linux_open l read_write excl_mode = (bit_or read_write l.o_excl, 0)
linux_open l read_write plain_mode = (read_write, 0)

-- An error number as `pathOpen` reports it.
abbrev report : Option ℕ → Opened
report none = throws
report (some wasi_errno) = refused wasi_errno

abbrev answered : Result ℕ ℕ × World → Opened × World
answered (ok linux_fd, w) = (opened linux_fd, w)
answered (err errno, w) = (report (errno_to_wasi errno), w)

-- `clearCacheForSharedFile`.
abbrev pub clear_cache : List ℕ → World → World
clear_cache path w = record w { shared_file_map = erase path w.shared_file_map }

abbrev pub more_flags : ℕ → ℕ × ℕ → ℕ × ℕ
more_flags more (flags, mode) = (bit_or flags more, mode)

module _ (masks : Masks) (fd : FdFlags) (linux : LinuxFlags) (is_path_shared : List ℕ → Bool)
    (is_device : List ℕ → Bool) (strip_shared_prefix : List ℕ → List ℕ)
    (prepend_shared_root : List ℕ → List ℕ) (prepend_runtime_root : List ℕ → List ℕ)
    (load : List ℕ → Loaded) (open_call : List ℕ → ℕ → ℕ → World → Result ℕ ℕ × World) where
  -- The system call; /dev/urandom and /dev/null are opened without flags.
  abbrev open_local : List ℕ → ℕ × ℕ → World → Opened × World
  open_local real (flags, mode) w =
      answered (if is_device real then open_call real 0 0 w else open_call real flags mode w)

  -- After `syncSharedFile`: an error ends an open that does not write.
  abbrev pub after_sync : List ℕ → Bool → ℕ × ℕ → Option ℕ × World → Opened × World
  after_sync path is_write flags (none, w) = (throws, w)
  after_sync path is_write flags (some linux_errno, w) =
      let real = real_path 2 strip_shared_prefix prepend_shared_root path [] in
      if linux_errno == 0
      then open_local real flags w
      else if is_write
      then open_local real flags (clear_cache path w)
      else (report (errno_to_wasi linux_errno), w)

  abbrev pub with_flags : List ℕ → Bool → ℕ × ℕ → World → Opened × World
  with_flags path is_write flags w =
      if is_path_shared path
      then after_sync path is_write flags
          (sync_shared_file 2 strip_shared_prefix prepend_shared_root load path [] w)
      else open_local (prepend_runtime_root path) flags w

  abbrev pub with_access :
      List ℕ
      → World
      → Option ℕ
      → Result OpenError OpenMode
      → Result OpenError (AccessMode × Bool)
      → Opened × World
  with_access path w (some more) (ok mode) (ok (access, is_write)) =
      with_flags path is_write
        (more_flags more (linux_open linux (read_write_flag linux access) mode)) w
  with_access path w _ _ _ = (throws, w)

  -- `pathOpen` of a descriptor with this path and these rights, if they are set.
  unfoldable pub path_open : List ℕ → Option ℕ → ℕ → ℕ → World → Opened × World
  unfolding wasi_fd_flags_to_linux errno_to_wasi get_open_mode open_access
  path_open path none open_flags fd_flags w = (throws, w)
  path_open path (some rights) open_flags fd_flags w =
      with_access path w (wasi_fd_flags_to_linux fd fd_flags)
        (get_open_mode masks (open_flags % 2 ^ 16)) (open_access masks rights open_flags)
