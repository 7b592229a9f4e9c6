-- ===== src/Wasi.antt =====
-- A module as the WASI calls of src/wavm/io.cpp see it: its table of descriptors, the iterators of
-- their directories, what stands behind the files, the captured output and what the calls have written
-- to the memory of the program. Reading a path or a vector of buffers from that memory is the caller's,
-- which passes what was read.
use faasm.Prelude.{ℕ, ◌+◌, ◌-◌, Bool, true, false, Option, none, some, List, [], ◌∷◌, ◌++◌}
use faasm.Prelude.Maps.{NumberMap}
use faasm.Files.Dirents.{Iter}
use faasm.Files.Descriptors.{FileSystem}
use faasm.Files.Operations.{NativeStat, FileKind}
use faasm.Files.Shared.{World}
pub mod Output
pub mod Calls
pub mod Directories
pub mod Errors
pub mod Printing

-- The memory file of the captured output (`stdoutMemFd` and `stdoutSize` of src/wasm/WasmModule.cpp),
-- by its content and its offset.
pub record Stdout : Type 0 where
  pub content : List ℕ
  pub offset : ℕ
  pub stdout_size : ℕ

abbrev pub no_stdout : Stdout
no_stdout = record { content = []; offset = 0; stdout_size = 0 }

-- What a call writes to the memory of the program, by the pointer.
pub data Written : Type 0 where
  int32 : ℕ → ℕ → Written
  uint64 : ℕ → ℕ → Written
  chars : ℕ → List ℕ → Written
  scattered : List ℕ → List ℕ → Written
  prestat : ℕ → ℕ → ℕ → Written
  fdstat : ℕ → FileKind → ℕ → ℕ → Written
  filestat : ℕ → FileKind → NativeStat → Written

pub record Program : Type 0 where
  pub file_system : FileSystem
  pub iterators : NumberMap Iter
  pub world : World
  pub stdout : Stdout
  -- The latest first.
  pub memory_log : List Written

abbrev pub log : Written → Program → Program
log x m = record m { memory_log = x ∷ m.memory_log }

abbrev pub with_world : World → Program → Program
with_world w m = record m { world = w }
