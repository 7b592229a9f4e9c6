-- ===== src/Files/Operations.antt =====
-- The operations of a file descriptor on its path (src/storage/FileDescriptor.cpp). The calls of the
-- system are arguments, each with an error number or its value, and so is `updateSharedFile`; paths
-- are lists of characters, and their joining is an argument.

use faasm.Prelude.{
  ℕ, ◌-◌, ◌^◌, Bool, true, false, ◌||◌, Option, none, some, List, [], ◌∷◌, ◌==◌, if◌then◌else◌,
  Result, ok, err,
}
use faasm.Prelude.Words.{neg}
use faasm.Files.Descriptors.{FileDescriptor}
use faasm.Files.PathOpen.{FdFlags, errno_to_wasi, wasi_fd_flags_to_linux}
use faasm.Files.Shared.{World, Loaded, same_path, real_path, sync_shared_file, delete_shared_file}

-- What an operation ends with: its value, the WASI error that it sets, or an exception.
pub data Reply (A : Type 0) : Type 0 where
  answers : A → Reply A
  fails : ℕ → Reply A
  raises : Reply A

-- The parts of `struct stat` that are read; `file_kind` is the kind that the macros find in the mode.
pub data FileKind : Type 0 where
  regular block_device directory symbolic_link character_device unrecognised : FileKind

pub record NativeStat : Type 0 where
  pub file_kind : FileKind
  pub st_dev : ℕ
  pub st_ino : ℕ
  pub st_nlink : ℕ
  pub st_size : ℕ
  pub st_mode : ℕ
  pub st_atim : ℕ
  pub st_mtim : ℕ
  pub st_ctim : ℕ

-- `storage::Stat` of a file that was found.
pub record Stat : Type 0 where
  pub wasi_filetype : FileKind
  pub native : NativeStat

pub record System : Type 0 where
  pub mkdir_call : List ℕ → ℕ → World → Result ℕ (Unit {0}) × World
  pub unlink_call : List ℕ → World → Result ℕ (Unit {0}) × World
  pub rmdir_call : List ℕ → World → Result ℕ (Unit {0}) × World
  pub rename_call : List ℕ → List ℕ → World → Result ℕ (Unit {0}) × World
  pub stat_call : List ℕ → World → Result ℕ NativeStat
  pub fstat_call : ℕ → World → Result ℕ NativeStat
  pub readlink_call : List ℕ → ℕ → World → Result ℕ (List ℕ)
  pub lseek_call : Option ℕ → ℕ → ℕ → World → Result ℕ ℕ × World
  pub writev_call : Option ℕ → List (List ℕ) → World → Result ℕ ℕ × World
  pub readv_call : Option ℕ → List ℕ → World → Result ℕ (List ℕ) × World
  pub set_flags_call : Option ℕ → ℕ → World → Result ℕ (Unit {0}) × World
  -- `updateSharedFile`; false for an exception.
  pub update_shared_file : List ℕ → World → Bool × World

abbrev pub report_errno : {A : Type 0} → Option ℕ → Reply A
report_errno none = raises
report_errno (some wasi_errno) = fails wasi_errno

abbrev pub checked : {A : Type 0} → Result ℕ A × World → Reply A × World
checked (ok x, w) = (answers x, w)
checked (err errno, w) = (report_errno (errno_to_wasi errno), w)

-- The paths that a descriptor deals with.
pub record Paths : Type 0 where
  pub is_path_shared : List ℕ → Bool
  pub join : List ℕ → List ℕ → List ℕ
  pub strip_shared_prefix : List ℕ → List ℕ
  pub prepend_shared_root : List ℕ → List ℕ
  pub prepend_runtime_root : List ℕ → List ℕ

-- The path ".", which stands for the empty one.
unfoldable pub base_path : List ℕ → List ℕ
unfolding same_path
base_path path = if same_path path (46 ∷ []) then [] else path

unfoldable pub abs_path : Paths → FileDescriptor → List ℕ → List ℕ
unfolding base_path
abs_path p d [] = d.path
abs_path p d (c ∷ relative_path) = p.join (base_path d.path) (c ∷ relative_path)

-- `stdFdFactory`, with the rights of the standard descriptors.
abbrev pub std_fd_factory : ℕ → ℕ → List ℕ → FileDescriptor
std_fd_factory rights std_fd dev_path = record {
  path = dev_path;
  rights_base = rights;
  rights_inheriting = rights;
  linux_fd = some std_fd;
  preopen_type = 0;
}

-- The values of WASI for the three ways to seek.
pub record Whences : Type 0 where
  pub from_start : ℕ
  pub from_current : ℕ
  pub from_end : ℕ

-- SEEK_SET, SEEK_CUR and SEEK_END, or the exception.
unfoldable pub linux_whence : Whences → ℕ → Option ℕ
linux_whence h wasi_whence =
    if wasi_whence == h.from_start
    then some 0
    else if wasi_whence == h.from_current
    then some 1
    else if wasi_whence == h.from_end
    then some 2
    else none

-- One of the descriptors 0, 1 and 2.
abbrev pub is_std : Option ℕ → Bool
is_std none = false
is_std (some n) = n == 1 || n == 0 || n == 2

-- The result -1 of a call that failed, as a word of 32 bits.
abbrev pub call_failed : ℕ
call_failed = 2 ^ 32 - 1

abbrev pub error_set : Option ℕ → Reply ℕ
error_set none = raises
error_set (some wasi_errno) = answers 0

module _ (p : Paths) (sys : System) where
  -- The path is taken as it is, without that of the descriptor.
  unfoldable pub mkdir : List ℕ → World → Reply (Unit {0}) × World
  unfolding errno_to_wasi
  mkdir dir_path w = checked (sys.mkdir_call (p.prepend_runtime_root dir_path) 493 w)

  unfoldable pub unlink : FileDescriptor → List ℕ → World → Reply (Unit {0}) × World
  unfolding errno_to_wasi abs_path delete_shared_file
  unlink d relative_path w =
      if p.is_path_shared relative_path
      then (
        answers tt,
        delete_shared_file 2 p.strip_shared_prefix p.prepend_shared_root relative_path w,
      )
      else checked (sys.unlink_call (p.prepend_runtime_root (abs_path p d relative_path)) w)

  unfoldable pub rmdir : FileDescriptor → List ℕ → World → Reply (Unit {0}) × World
  unfolding errno_to_wasi abs_path
  rmdir d relative_path w =
      checked (sys.rmdir_call (p.prepend_runtime_root (abs_path p d relative_path)) w)

  -- A failure is reported by the call's result, which is -1, with its sign changed.
  abbrev pub renamed : Result ℕ (Unit {0}) × World → Reply (Unit {0}) × World
  renamed (ok u, w) = (answers tt, w)
  renamed (err errno, w) = (report_errno (errno_to_wasi (neg call_failed)), w)

  unfoldable pub rename : FileDescriptor → List ℕ → List ℕ → World → Reply (Unit {0}) × World
  unfolding errno_to_wasi abs_path
  rename d new_path relative_path w = renamed (
      sys.rename_call (p.prepend_runtime_root (abs_path p d relative_path))
        (p.prepend_runtime_root new_path) w)

  abbrev set_flags : FileDescriptor → World → Option ℕ → Reply (Unit {0}) × World
  set_flags d w none = (raises, w)
  set_flags d w (some new_flags) = checked (sys.set_flags_call d.linux_fd new_flags w)

  unfoldable pub update_flags : FdFlags → FileDescriptor → ℕ → World → Reply (Unit {0}) × World
  unfolding errno_to_wasi wasi_fd_flags_to_linux
  update_flags f d fd_flags w = set_flags d w (wasi_fd_flags_to_linux f fd_flags)

  abbrev pub updated : ℕ → Bool × World → Reply ℕ × World
  updated n (true, w) = (answers n, w)
  updated n (false, w) = (raises, w)

  -- The result after `writev`; where it failed, the error is set and `false` becomes the number 0.
  abbrev pub after_writev : FileDescriptor → Result ℕ ℕ × World → Reply ℕ × World
  after_writev d (err errno, w) = (error_set (errno_to_wasi errno), w)
  after_writev d (ok n, w) =
      if p.is_path_shared d.path
      then updated n (sys.update_shared_file d.path w)
      else (answers n, w)

  unfoldable pub write : FileDescriptor → List (List ℕ) → World → Reply ℕ × World
  unfolding errno_to_wasi
  write d iovecs w = after_writev d (sys.writev_call d.linux_fd iovecs w)

  -- `stat`: the native call's answer, or the error of the synchronisation; `none` is its exception.
  abbrev pub stat_shared : List ℕ → Option ℕ × World → Option (Result ℕ NativeStat) × World
  stat_shared path (none, w) = (none, w)
  stat_shared path (some errno, w) =
      if errno == 0
      then (
        some (sys.stat_call (real_path 2 p.strip_shared_prefix p.prepend_shared_root path []) w),
        w,
      )
      else (some (err errno), w)

  abbrev pub native_stat :
      (List ℕ → Loaded) → FileDescriptor → List ℕ → World → Option (Result ℕ NativeStat) × World
  native_stat load d relative_path w =
      let path = abs_path p d relative_path in
      if is_std d.linux_fd
      then (some (std_stat d.linux_fd w), w)
      else if p.is_path_shared path
      then stat_shared path
          (sync_shared_file 2 p.strip_shared_prefix p.prepend_shared_root load path [] w)
      else (some (sys.stat_call (p.prepend_runtime_root path) w), w)
    where
      std_stat : Option ℕ → World → Result ℕ NativeStat
      std_stat none w = err 9
      std_stat (some n) w = sys.fstat_call n w

  -- The file type, a character device for the standard descriptors.
  abbrev pub typed : FileDescriptor → NativeStat → FileKind → Reply Stat
  typed d st unrecognised =
      if is_std d.linux_fd
      then answers (record { wasi_filetype = character_device; native = st })
      else raises
  typed d st kind =
      answers (record {
        wasi_filetype = if is_std d.linux_fd then character_device else kind;
        native = st;
      })

  abbrev pub stat_result :
      FileDescriptor → Option (Result ℕ NativeStat) × World → Reply Stat × World
  stat_result d (none, w) = (raises, w)
  stat_result d (some (err errno), w) = (report_errno (errno_to_wasi errno), w)
  stat_result d (some (ok st), w) = (typed d st st.file_kind, w)

  unfoldable pub stat : (List ℕ → Loaded) → FileDescriptor → List ℕ → World → Reply Stat × World
  unfolding errno_to_wasi abs_path sync_shared_file
  stat load d relative_path w = stat_result d (native_stat load d relative_path w)

  -- `readLink`: the bytes, or `none` for a failure.
  abbrev link_bytes : Result ℕ (List ℕ) → Reply (Option (List ℕ))
  link_bytes (err errno) = answers none
  link_bytes (ok content) = answers (some content)

  unfoldable pub read_link : FileDescriptor → List ℕ → ℕ → World → Reply (Option (List ℕ))
  unfolding abs_path
  read_link d relative_path buffer_len w =
      let link_path = p.prepend_runtime_root (abs_path p d relative_path) in
      if p.is_path_shared link_path
      then raises
      else link_bytes (sys.readlink_call link_path buffer_len w)

  abbrev seek_by : FileDescriptor → ℕ → World → Option ℕ → Reply ℕ × World
  seek_by d offset w none = (raises, w)
  seek_by d offset w (some linux_whence) = checked (sys.lseek_call d.linux_fd offset linux_whence w)

  unfoldable pub seek : Whences → FileDescriptor → ℕ → ℕ → World → Reply ℕ × World
  unfolding errno_to_wasi linux_whence
  seek h d offset wasi_whence w = seek_by d offset w (linux_whence h wasi_whence)

  -- `tell`: a failure gives -1 as a 64-bit number.
  abbrev pub offset_of : Result ℕ ℕ × World → ℕ × World
  offset_of (ok n, w) = (n, w)
  offset_of (err errno, w) = (18446744073709551615, w)

  unfoldable pub tell : FileDescriptor → World → ℕ × World
  tell d w = offset_of (sys.lseek_call d.linux_fd 0 1 w)
