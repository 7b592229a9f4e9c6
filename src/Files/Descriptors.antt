-- ===== src/Files/Descriptors.antt =====
-- The table of file descriptors (src/storage/FileSystem.cpp). Rights are words of flags. What
-- `pathOpen` answers for a descriptor is an argument; `throws` is an exception. A descriptor that the
-- map makes is value-initialised: its preopen type is 0, its underlying descriptor -1, here `none`. Paths are lists of characters, and their joining is an argument.
use Prim.Native.Nat.{bit_and}
use faasm.Prelude.{
  ℕ, ◌+◌, Bool, Option, none, some, List, [], ◌∷◌, ◌++◌, ltb, Result, ok, err, ◌==◌, if◌then◌else◌,
  ◌⊎◌, inl, inr,
}

pub record FileDescriptor : Type 0 where
  pub path : List ℕ
  pub rights_base : ℕ
  pub rights_inheriting : ℕ
  pub linux_fd : Option ℕ
  pub preopen_type : ℕ

pub record FileSystem : Type 0 where
  pub next_fd : ℕ
  pub file_descriptors : List (ℕ × FileDescriptor)

pub data FsError : Type 0 where
  no_such_descriptor open_throws : FsError

pub data Opened : Type 0 where
  opened : ℕ → Opened
  refused : ℕ → Opened
  throws : Opened

abbrev pub Table : Type 0
Table = List (ℕ × FileDescriptor)

unfoldable pub find_fd : ℕ → Table → Option FileDescriptor
find_fd fd [] = none
find_fd fd ((k, d) ∷ t) = if k == fd then some d else find_fd fd t

-- `fileDescriptors[fd] = d`.
unfoldable pub put_fd : ℕ → FileDescriptor → Table → Table
put_fd fd d [] = (fd, d) ∷ []
put_fd fd d ((k, e) ∷ t) = if k == fd then (fd, d) ∷ t else (k, e) ∷ put_fd fd d t

abbrev pub get_file_descriptor : FileSystem → ℕ → Result FsError FileDescriptor
get_file_descriptor fs fd = elim (find_fd fd fs.file_descriptors) [
  | none ↦ err no_such_descriptor
  | some d ↦ ok d
]

abbrev pub get_new_fd : FileSystem → ℕ × FileSystem
get_new_fd fs = (fs.next_fd, record fs { next_fd = fs.next_fd + 1 })

module _ (is_path_shared : List ℕ → Bool) (is_dot : List ℕ → Bool)
    (join : List ℕ → List ℕ → List ℕ) where
  abbrev pub full_path : FileDescriptor → List ℕ → List ℕ
  full_path root relative_path =
      if is_path_shared relative_path
      then relative_path
      else if is_dot root.path
      then relative_path
      else join root.path relative_path

  abbrev pub child : FileDescriptor → List ℕ → ℕ → ℕ → FileDescriptor
  child root relative_path rights_base rights_inheriting = record {
    path = full_path root relative_path;
    rights_base = bit_and rights_base root.rights_inheriting;
    rights_inheriting = bit_and rights_inheriting root.rights_inheriting;
    linux_fd = none;
    preopen_type = 0;
  }

  -- With the answer of `pathOpen`: the descriptor stays in the table whatever it is. The number is
  -- the new descriptor's, or the WASI error.
  unfoldable pub finish_open :
      FileSystem → FileDescriptor → Opened → Result FsError (ℕ ⊎ ℕ) × FileSystem
  finish_open fs d (opened linux_fd) = (
    ok (inl fs.next_fd),
    record {
      next_fd = fs.next_fd + 1;
      file_descriptors =
          put_fd fs.next_fd (record d { linux_fd = some linux_fd }) fs.file_descriptors;
    },
  )
  finish_open fs d (refused wasi_errno) = (
    ok (inr wasi_errno),
    record { next_fd = fs.next_fd + 1; file_descriptors = put_fd fs.next_fd d fs.file_descriptors },
  )
  finish_open fs d throws = (
    err open_throws,
    record { next_fd = fs.next_fd + 1; file_descriptors = put_fd fs.next_fd d fs.file_descriptors },
  )

  -- `openFileDescriptor`, once the root descriptor has been looked up.
  unfoldable pub open_under :
      (FileDescriptor → Opened)
      → FileSystem
      → List ℕ
      → ℕ
      → ℕ
      → Option FileDescriptor
      → Result FsError (ℕ ⊎ ℕ) × FileSystem
  open_under path_open fs relative_path rights_base rights_inheriting none =
      (err no_such_descriptor, fs)
  open_under path_open fs relative_path rights_base rights_inheriting (some root) =
      let d = child root relative_path rights_base rights_inheriting in
      finish_open fs d (path_open d)

  unfoldable pub open_file_descriptor :
      (FileDescriptor → Opened)
      → FileSystem
      → ℕ
      → List ℕ
      → ℕ
      → ℕ
      → Result FsError (ℕ ⊎ ℕ) × FileSystem
  unfolding finish_open find_fd put_fd open_under
  open_file_descriptor path_open fs root_fd relative_path rights_base rights_inheriting =
      open_under path_open fs relative_path rights_base rights_inheriting
        (find_fd root_fd fs.file_descriptors)

-- `dup`: the number is taken before the descriptor is looked up. `new_linux_fd` is what the system
-- call gives; the preopen type is not copied.
unfoldable pub dup : ℕ → FileSystem → ℕ → Result FsError ℕ × FileSystem
unfolding find_fd put_fd
dup new_linux_fd fs fd = elim (find_fd fd fs.file_descriptors) [
  | none ↦ (err no_such_descriptor, (get_new_fd fs).1)
  | some d ↦ (
    ok fs.next_fd,
    record {
      next_fd = fs.next_fd + 1;
      file_descriptors =
          put_fd fs.next_fd (record d { linux_fd = some new_linux_fd; preopen_type = 0 })
            fs.file_descriptors;
    },
  )
]

-- `close`: the underlying descriptors that are closed.
abbrev close : FileDescriptor → List ℕ
close d = elim d.linux_fd [ none ↦ [] | some n ↦ if ltb 0 n then n ∷ [] else [] ]

-- `tearDown`: the underlying descriptors that it closes, where `dir` is `__WASI_PREOPENTYPE_DIR`.
unfoldable pub tear_down : ℕ → Table → List ℕ
tear_down dir [] = []
tear_down dir ((k, d) ∷ t) =
    let rest = tear_down dir t in if d.preopen_type == dir then rest else close d ++ rest
