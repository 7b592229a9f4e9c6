-- ===== src/Environment.antt =====
-- The arguments and the environment that a program reads (src/wasm/WasmEnvironment.cpp, `prepareArgcArgv`
-- of src/wasm/WasmModule.cpp, `writeStringArrayToMemory` of src/wavm/WAVMWasmModule.cpp and the calls of
-- src/wavm/env.cpp). The memory is a function from an address to its byte; texts are lists of bytes. The
-- splitting of a message's command line is an argument.
use faasm.Prelude.{
  ℕ, zero, suc, ◌+◌, ◌%◌, ◌^◌, Bool, true, false, Option, none, some, List, [], ◌∷◌, ◌++◌, map,
  ◌==◌, if◌then◌else◌, length,
}
use faasm.Prelude.Words.{add}
use faasm.Files.Shared.{same_path}
use faasm.Ceph.Socket.{le_bytes}
use faasm.Loader.Paths.{Message}
pub mod Bytes
pub mod Arrays

abbrev pub Memory : Type 0
Memory = ℕ → ℕ

-- `std::copy` to the memory.
unfoldable pub write_bytes : ℕ → List ℕ → Memory → Memory
write_bytes addr [] mem = mem
write_bytes addr (b ∷ bs) mem = λ a. if a == addr then b else write_bytes (addr + 1) bs mem a

abbrev pub write_word : ℕ → ℕ → Memory → Memory
write_word addr n mem = write_bytes addr (le_bytes 4 n) mem

-- `writeStringArrayToMemory`: the bytes of each text without a terminator, for which there is room, and
-- its address.
unfoldable pub write_string_array_to_memory : List (List ℕ) → ℕ → ℕ → Memory → Memory
unfolding write_bytes
write_string_array_to_memory [] str_pointers str_buffer mem = mem
write_string_array_to_memory (s ∷ ss) str_pointers str_buffer mem =
    write_string_array_to_memory ss (add str_pointers 4) (add str_buffer (length s + 1))
      (write_word str_pointers str_buffer (write_bytes str_buffer s mem))

-- The size of a buffer for the texts with their terminators, in 32 bits, and without an overflow.
unfoldable pub buffer_size : List (List ℕ) → ℕ
buffer_size [] = 0
buffer_size (s ∷ ss) = length s + 1 + buffer_size ss

-- `argv`, `argc` and `argvBufferSize`.
pub record Arguments : Type 0 where
  pub argv : List (List ℕ)
  pub argc : ℕ
  pub argv_buffer_size : ℕ

unfoldable pub prepare_argc_argv : (Message → List (List ℕ)) → Message → Arguments
unfolding buffer_size
prepare_argc_argv get_argv_for_message msg =
    let argv = get_argv_for_message msg in
    record {
      argv = argv;
      argc = length argv % 2 ^ 32;
      argv_buffer_size = buffer_size argv % 2 ^ 32;
    }

-- `args_sizes_get` and `args_get`.
unfoldable pub args_sizes_get : Arguments → ℕ → ℕ → Memory → Memory
unfolding write_bytes
args_sizes_get args argc_ptr argv_buf_size_ptr mem =
    write_word argv_buf_size_ptr args.argv_buffer_size (write_word argc_ptr args.argc mem)

unfoldable pub args_get : Arguments → ℕ → ℕ → Memory → Memory
unfolding write_string_array_to_memory
args_get args argv_ptr argv_buf_ptr mem =
    write_string_array_to_memory args.argv argv_ptr argv_buf_ptr mem

-- `vars` of a `WasmEnvironment`, in the order in which the map is gone through.
abbrev pub Vars : Type 0
Vars = List (List ℕ × List ℕ)

unfoldable pub add_env : List ℕ → List ℕ → Vars → Vars
unfolding same_path
add_env key value [] = (key, value) ∷ []
add_env key value ((k, v) ∷ vars) =
    if same_path k key then (k, value) ∷ vars else (k, v) ∷ add_env key value vars

-- `getEnv`: `operator[]` of the map, which makes a variable that is not there.
unfoldable pub get_env : List ℕ → Vars → List ℕ × Vars
unfolding same_path
get_env key [] = ([], (key, []) ∷ [])
get_env key ((k, v) ∷ vars) =
    let (found, rest) = get_env key vars in
    if same_path k key then (v, (k, v) ∷ vars) else (found, (k, v) ∷ rest)

-- `getVars`; an equals sign is 61.
unfoldable pub get_vars : Vars → List (List ℕ)
get_vars [] = []
get_vars ((k, v) ∷ vars) = (k ++ (61 ∷ v)) ∷ get_vars vars

abbrev pub get_env_count : Vars → ℕ
get_env_count vars = length vars % 2 ^ 32

unfoldable pub sum_of_vars : Vars → ℕ
sum_of_vars [] = 0
sum_of_vars ((k, v) ∷ vars) = length k + length v + 2 + sum_of_vars vars

unfoldable pub get_env_buffer_size : Vars → ℕ
unfolding sum_of_vars
get_env_buffer_size vars = sum_of_vars vars % 2 ^ 32

unfoldable pub environ_sizes_get : Vars → ℕ → ℕ → Memory → Memory
unfolding write_bytes get_env_buffer_size
environ_sizes_get vars count_ptr size_ptr mem =
    write_word size_ptr (get_env_buffer_size vars) (write_word count_ptr (get_env_count vars) mem)

unfoldable pub environ_get : Vars → ℕ → ℕ → Memory → Memory
unfolding write_string_array_to_memory get_vars
environ_get vars environ_ptrs environ_buf mem =
    write_string_array_to_memory (get_vars vars) environ_ptrs environ_buf mem
