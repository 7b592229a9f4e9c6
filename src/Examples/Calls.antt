-- ===== src/Examples/Calls.antt =====
-- Runs of the WASI calls of src/wavm/io.cpp, and of a caller that reads a directory.
use faasm.Prelude.{
  ℕ, ◌≡◌, refl, true, false, none, some, List, [], ◌∷◌, ◌++◌, Result, ok, err, arith,
}
use faasm.Files.Dirents.{DirEnt}
use faasm.Files.Descriptors.{FileDescriptor, find_fd}
use faasm.Files.PathOpen.{errno_to_wasi}
use faasm.Files.Operations.{System, Paths, write}
use faasm.Files.Shared.{absent}
use faasm.Files.Reading.{Ends, read_all, read_all-Ends}
use faasm.Files.Listing.{drop}
use faasm.Wasi.{Program, no_stdout}
use faasm.Wasi.Output.{finish_task, capture_buffers}
use faasm.Wasi.Calls.{descriptor, fd_write}
use faasm.Wasi.Errors.{IsReported, fd_write_unreported}
use faasm.Wasi.Printing.{Write, run_writes, printed, finish_task-run_writes}

abbrev paths : Paths
paths = record {
  is_path_shared = λ p. false;
  join = λ p q. p ++ (47 ∷ q);
  strip_shared_prefix = λ p. p;
  prepend_shared_root = λ p. p;
  prepend_runtime_root = λ p. p;
}

-- A system on which reads and writes succeed by the answer to a write, and the rest fails with EACCES.
abbrev system : Result ℕ ℕ → System
system answer = record {
  mkdir_call = λ p mode w. (err 13, w);
  unlink_call = λ p w. (err 13, w);
  rmdir_call = λ p w. (err 13, w);
  rename_call = λ p q w. (err 13, w);
  stat_call = λ p w. err 13;
  fstat_call = λ n w. err 13;
  readlink_call = λ p len w. err 13;
  lseek_call = λ n offset whence w. (err 13, w);
  writev_call = λ n iovecs w. (answer, w);
  readv_call = λ n lens w. (ok [], w);
  set_flags_call = λ n flags w. (err 13, w);
  update_shared_file = λ p w. (true, w);
}

abbrev standard_output : FileDescriptor
standard_output = record {
  path = 111 ∷ [];
  rights_base = 7;
  rights_inheriting = 7;
  linux_fd = some 1;
  preopen_type = 0;
}

abbrev program : Program
program = record {
  file_system = record { next_fd = 5; file_descriptors = (1, standard_output) ∷ [] };
  iterators = [];
  world = record { shared_file_map = []; local_files = λ p. absent };
  stdout = no_stdout;
  memory_log = [];
}

found_output : descriptor program 1 ≡ some standard_output
unfolding find_fd
found_output = refl

-- ENOSPC has no WASI number in the table; EACCES has.
known_errno : errno_to_wasi 13 ≡ some 2
unfolding errno_to_wasi
known_errno = refl

fd_write_unreported_example :
    (fd_write paths (system (err 13)) true 1 ((97 ∷ []) ∷ []) 64 program
      ≡ fd_write paths (system (ok 0)) true 1 ((97 ∷ []) ∷ []) 64 program)
    × IsReported paths
        (system (err 13))
        (fd_write paths (system (err 13)) true 1 ((97 ∷ []) ∷ []) 64 program).0
fd_write_unreported_example =
    fd_write_unreported paths (system (err 13)) (system (ok 0)) true 1 ((97 ∷ []) ∷ []) 64 13 2
      standard_output program program.world 1 program found_output refl refl known_errno refl

abbrev two_writes : List Write
two_writes =
    (record { fd = 1; iovecs = (97 ∷ []) ∷ (98 ∷ []) ∷ []; res_ptr = 64 })
    ∷ (record { fd = 1; iovecs = (99 ∷ []) ∷ []; res_ptr = 64 })
    ∷ []

printed_abc : printed paths (system (ok 1)) two_writes program ≡ 97 ∷ 98 ∷ 99 ∷ []
unfolding printed fd_write find_fd write capture_buffers
printed_abc = refl

finish_task-run_writes_example :
    finish_task
      (λ n. [])
      true
      false
      0
      (120 ∷ [])
      (run_writes paths (system (ok 1)) two_writes program).stdout
    ≡ (printed paths (system (ok 1)) two_writes program ++ (10 ∷ 120 ∷ []), no_stdout)
finish_task-run_writes_example =
    finish_task-run_writes paths (system (ok 1)) (λ n. []) two_writes 97 (98 ∷ 99 ∷ []) (120 ∷ [])
      program refl printed_abc

abbrev entry : ℕ → DirEnt
entry n = record { next = n; ino = n; kind = 4; path = 46 ∷ [] }

-- Three entries of three bytes with their paths, through a buffer of four.
read_all-Ends_example :
    Ends none 2
      (λ d. d.ino ∷ d.kind ∷ [])
      4
      (entry 1 ∷ entry 2 ∷ entry 3 ∷ [])
      (drop 1 (entry 1 ∷ entry 2 ∷ entry 3 ∷ []))
      (read_all none 2
        (λ d. d.ino ∷ d.kind ∷ [])
        4
        3
        (record {
          dir_contents_loaded = true;
          dir_contents_idx = 1;
          dir_contents = entry 1 ∷ entry 2 ∷ entry 3 ∷ [];
        }))
read_all-Ends_example =
    read_all-Ends none 2 (λ d. d.ino ∷ d.kind ∷ []) 4 1 (entry 1 ∷ entry 2 ∷ entry 3 ∷ [])
      (λ d. refl) (omega arith) (omega arith, (omega arith, tt))
