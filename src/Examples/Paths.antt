-- ===== src/Examples/Paths.antt =====
-- Runs of the file operations of src/storage.
use faasm.Prelude.{
  ℕ, ◌+◌, ◌≤◌, ◌≡◌, ◌%◌, ◌^◌, refl, true, false, Result, Option, some, none, List, [], ◌∷◌, ◌++◌,
  ok, arith, length, ◌==◌, if◌then◌else◌,
}
use faasm.Prelude.Bits.{◌⊑◌}
use faasm.Files.Dirents.{DirEnt, copy_dirents_to_wasi_buffer}
use faasm.Files.Listing.{Filled, fill, drop, started, copy_dirents_to_wasi_buffer-fill}
use faasm.Files.Descriptors.{
  child, FileDescriptor, FileSystem, opened, refused, find_fd, open_file_descriptor,
}
use faasm.Files.Rights.{IsNumbered, open_file_descriptor-rights}
use faasm.Files.ReadOnly.{IsReadOnly, path_open-child}
use faasm.Files.Access.{Masks, rdwr, create_mode, get_open_mode, open_access}
use faasm.Files.PathOpen.{FdFlags, LinuxFlags, wasi_fd_flags_to_linux, clear_cache, path_open}
use faasm.Files.Missing.{path_open-missing}
use faasm.Files.Shared.{
  no_such_file, exists, file, sync_state, check_local, store_loaded, assign, World, absent,
  same_path, lookup, sync_shared_file,
}

abbrev entry : DirEnt
entry = record { next = 1; ino = 5; kind = 4; path = 46 ∷ [] }

-- Entries of two bytes.
abbrev two_bytes : DirEnt → List ℕ
two_bytes d = d.ino ∷ d.kind ∷ []

copy_dirents_to_wasi_buffer-fill_example :
    (f : Filled) × (f ≡ fill 2 two_bytes 5 (drop 0 (entry ∷ entry ∷ [])))
    × (copy_dirents_to_wasi_buffer none 2 two_bytes 5 (started (entry ∷ entry ∷ []) 0)
        ≡ ok (
          if f.full then 5 else length f.bytes,
          f.bytes,
          started (entry ∷ entry ∷ []) (0 + f.entries),
        ))
    × (length f.bytes ≤ 5)
    × (f.entries ≤ 2)
copy_dirents_to_wasi_buffer-fill_example =
    copy_dirents_to_wasi_buffer-fill none 2 two_bytes 5 (entry ∷ entry ∷ []) 0 (λ d. refl)

abbrev root_directory : FileDescriptor
root_directory = record {
  path = 47 ∷ [];
  rights_base = 7;
  rights_inheriting = 3;
  linux_fd = some 9;
  preopen_type = 0;
}

abbrev one_directory : FileSystem
one_directory = record { next_fd = 5; file_descriptors = (3, root_directory) ∷ [] }

found_root : find_fd 3 one_directory.file_descriptors ≡ some root_directory
unfolding find_fd
found_root = refl

abbrev opened_fs : FileSystem
opened_fs =
    (open_file_descriptor (λ p. false) (λ p. false) (λ p q. p ++ q) (λ d. refused 44) one_directory
      3 (97 ∷ []) 6 5).1

open_file_descriptor-rights_example :
    (d : FileDescriptor) × (find_fd 5 opened_fs.file_descriptors ≡ some d)
    × (d.rights_base ⊑ 3)
    × (d.rights_inheriting ⊑ 3)
    × ((k : ℕ)
        → find_fd k opened_fs.file_descriptors
          ≡ (if k == 5 then some d else find_fd k one_directory.file_descriptors))
    × IsNumbered opened_fs.next_fd opened_fs.file_descriptors
open_file_descriptor-rights_example =
    open_file_descriptor-rights (λ p. false) (λ p. false) (λ p q. p ++ q) (λ d. refused 44)
      one_directory 3 (97 ∷ []) 6 5 root_directory found_root (omega arith, tt)

abbrev strip_one : List ℕ → List ℕ
strip_one [] = []
strip_one (c ∷ p) = p

abbrev cached_world : World
cached_world = record { shared_file_map = (1 ∷ 2 ∷ [], exists) ∷ []; local_files = λ p. absent }

found_cached : lookup (1 ∷ 2 ∷ []) cached_world.shared_file_map ≡ some exists
unfolding lookup same_path
found_cached = refl

stripped_differs : same_path (1 ∷ 2 ∷ []) (strip_one (1 ∷ 2 ∷ [])) ≡ false
unfolding same_path
stripped_differs = refl

abbrev once : Option ℕ × World
once = sync_shared_file 2 strip_one (λ p. p) (λ p. no_such_file) (1 ∷ 3 ∷ []) [] cached_world

abbrev masks : Masks
masks = record {
  rights_read = 2;
  rights_write = 64;
  o_creat = 1;
  o_directory = 2;
  o_trunc = 8;
  o_excl = 4;
}

abbrev fd_flag_pairs : FdFlags
fd_flag_pairs = record {
  rsync = (16, 1052672);
  append = (1, 1024);
  dsync = (2, 4096);
  sync = (8, 1052672);
  nonblock = (4, 2048);
}

abbrev linux_flags : LinuxFlags
linux_flags = record {
  o_rdwr = 2;
  o_wronly = 1;
  o_creat = 64;
  o_directory = 65536;
  o_trunc = 512;
  o_excl = 128;
}

abbrev without_files : World
without_files = record { shared_file_map = []; local_files = λ q. absent }

abbrev shared_path : List ℕ
shared_path = 97 ∷ []

-- A system call that leaves an empty file where it opens.
abbrev creating : List ℕ → ℕ → ℕ → World → Result ℕ ℕ × World
creating p flags permissions w =
    (ok 7, record w { local_files = λ q. if same_path q p then file [] else w.local_files q })

abbrev missing_shared : World
missing_shared =
    (sync_shared_file 2 (λ p. p) (λ p. p) (λ p. no_such_file) shared_path [] without_files).1

abbrev created_shared : World
created_shared = (creating shared_path 0 0 (clear_cache shared_path missing_shared)).1

is_missing :
    sync_shared_file 2 (λ p. p) (λ p. p) (λ p. no_such_file) shared_path [] without_files
    ≡ (some 2, missing_shared)
unfolding sync_shared_file lookup sync_state check_local store_loaded assign
is_missing = refl

writes : open_access masks 66 1 ≡ ok (rdwr, true)
unfolding open_access
writes = refl

no_more_flags : wasi_fd_flags_to_linux fd_flag_pairs 0 ≡ some 0
unfolding wasi_fd_flags_to_linux
no_more_flags = refl

creates : get_open_mode masks (1 % 2 ^ 16) ≡ ok create_mode
unfolding get_open_mode
creates = refl

is_created : created_shared.local_files shared_path ≡ file []
unfolding same_path
is_created = refl

-- The directory lets the right 64 to write not be inherited; the open asks for it.
path_open-child_example :
    IsReadOnly masks fd_flag_pairs linux_flags
      (λ p. false)
      (λ p. false)
      (λ p. p)
      (λ p. p)
      (λ p. p)
      (λ p. no_such_file)
      creating
      (47 ∷ 97 ∷ [])
      1
      0
      without_files
      (path_open masks fd_flag_pairs linux_flags
        (λ p. false)
        (λ p. false)
        (λ p. p)
        (λ p. p)
        (λ p. p)
        (λ p. no_such_file)
        creating
        (47 ∷ 97 ∷ [])
        (some
          (child
            (λ p. false)
            (λ p. false)
            (λ p q. p ++ q)
            root_directory
            (97 ∷ [])
            66
            5).rights_base)
        1
        0
        without_files)
path_open-child_example =
    path_open-child masks fd_flag_pairs linux_flags (λ p. false) (λ p. false) (λ p. p) (λ p. p)
      (λ p. p) (λ p. no_such_file) creating (λ p. false) (λ p. false) (λ p q. p ++ q) root_directory
      (97 ∷ []) (47 ∷ 97 ∷ []) 66 5 1 0 without_files refl

path_open-missing_example :
    (path_open masks fd_flag_pairs linux_flags
        (λ p. true)
        (λ p. false)
        (λ p. p)
        (λ p. p)
        (λ p. p)
        (λ p. no_such_file)
        creating
        shared_path
        (some 66)
        1
        0
        without_files
      ≡ (opened 7, created_shared))
    × ((sync_shared_file 2 (λ p. p) (λ p. p) (λ p. no_such_file) shared_path [] created_shared).0
        ≡ some 0)
path_open-missing_example =
    path_open-missing masks fd_flag_pairs linux_flags (λ p. true) (λ p. false) (λ p. p) (λ p. p)
      (λ p. p) (λ p. no_such_file) creating shared_path [] 66 1 0 0 7 create_mode rdwr true
      without_files missing_shared created_shared refl no_more_flags creates writes is_missing refl
      (λ flags permissions. refl) refl is_created
