-- ===== src/Examples/Caches.antt =====
-- Runs of the module caches of src/wavm/IRModuleCache.cpp and src/wavm/WAVMModuleCache.cpp.
use faasm.Prelude.{
  ℕ, ◌≡◌, refl, true, false, none, some, List, [], ◌∷◌, ◌++◌, ◌==◌, if◌then◌else◌, ok, err,
}
use faasm.Files.Shared.{same_path, bytes, absent}
use faasm.Loader.{Stores, trim_leading_slashes, load_file_bytes}
use faasm.Loader.Paths.{Message}
use faasm.Loader.Functions.{load_function_wasm, load_shared_object_wasm}
use faasm.Caches.{
  IrModule, no_memories, World, get_module_key, put_module, get_module_from_map, assign_key,
  featured, new_ir_module, through_int,
}
use faasm.Caches.Modules.{
  Around, get_module, get_main_module, load_main, read_back, bounded, get_shared_module_table_size,
  is_module_cached,
}
use faasm.Caches.Entries.{Holds}
use faasm.Caches.Stable.{ask_module, ask_compiled_module, change_stores, run, get_module-run}
use faasm.Caches.Linking.{get_module-linked}
use faasm.Caches.Failed.{Retried, get_module-Retried}
use faasm.Caches.Keys.{get_module_mistaken}
use faasm.Caches.Functions.{ModuleCache, Kept, get_cached_module, get_cached_module-Kept}
use faasm.Examples.Loads.{config, target, nothing_stored}

abbrev head : List ℕ → ℕ
head [] = 0
head (b ∷ content) = b

-- The byte 1 stands for a main module with a memory and a table, 2 for a shared module that imports a
-- table, any other for a module without either.
abbrev main_like : IrModule → IrModule
main_like m = record m {
  memory_defs = (record { min = 1; max = 2 }) ∷ [];
  table_defs = (record { min = 7; max = 9 }) ∷ [];
}

abbrev shared_like : IrModule → IrModule
shared_like m = record m { table_imports = (record { min = 3; max = 4 }) ∷ [] }

abbrev read_binary : List ℕ → IrModule → IrModule
read_binary content m =
    if head content == 1 then main_like m else if head content == 2 then shared_like m else m

abbrev around : Around ℕ
around = record {
  conf = config;
  use_local_fs_cache = false;
  target = target;
  max_wasm_memory_pages = 65536;
  is_wasm = λ content. true;
  load_binary_module = read_binary;
  parse_module = read_binary;
  compile_module = λ m. 1;
  load_precompiled_module = λ m object. 2;
}

abbrev stored : ℕ → Stores
stored b = record { s3 = λ k. some (b ∷ []); local_files = λ p. absent }

abbrev empty_cache : Stores → World ℕ
empty_cache st = record {
  module_map = λ k. none;
  compiled_module_map = λ k. none;
  original_table_sizes = λ k. none;
  stores = st;
}

abbrev user : List ℕ
user = 117 ∷ []

abbrev func : List ℕ
func = 102 ∷ []

abbrev main_module : IrModule
main_module = record (bounded around (main_like new_ir_module)) { simd = true }

loaded_main : (get_module around user func [] (empty_cache (stored 1))).0 ≡ ok main_module
unfolding get_module get_main_module load_main read_back get_module_key put_module
    get_module_from_map assign_key same_path load_function_wasm load_file_bytes trim_leading_slashes
loaded_main = refl

get_module-run_example :
    (get_module around user func [] (
      run around
        (ask_compiled_module user func []
          ∷ change_stores nothing_stored
          ∷ ask_module func user []
          ∷ [])
        (get_module around user func [] (empty_cache (stored 1))).1)).0
    ≡ ok main_module
get_module-run_example =
    get_module-run around user func [] main_module
      (ask_compiled_module user func []
        ∷ change_stores nothing_stored
        ∷ ask_module func user []
        ∷ [])
      (empty_cache (stored 1)) loaded_main

thrown_main : (get_module around user func [] (empty_cache (stored 0))).0 ≡ err no_memories
unfolding get_module get_main_module load_main read_back get_module_key put_module
    get_module_from_map assign_key same_path load_function_wasm load_file_bytes trim_leading_slashes
thrown_main = refl

get_module-Retried_example :
    Retried around user func [] no_memories
      (get_module around user func [] (empty_cache (stored 0))).1
get_module-Retried_example =
    get_module-Retried around user func [] no_memories (empty_cache (stored 0)) thrown_main

-- The function "f" of the user "u_u", and the function "u_f" of the user "u".
loaded_first :
    (get_module around (user ++ (95 ∷ user)) func [] (empty_cache (stored 1))).0 ≡ ok main_module
unfolding get_module get_main_module load_main read_back get_module_key put_module
    get_module_from_map assign_key same_path load_function_wasm load_file_bytes trim_leading_slashes
loaded_first = refl

get_module_mistaken_example :
    (get_module around user
      (user ++ (95 ∷ func))
      []
      (get_module around (user ++ (95 ∷ user)) func [] (empty_cache (stored 1))).1).0
    ≡ ok main_module
get_module_mistaken_example =
    get_module_mistaken around user user func [] main_module (empty_cache (stored 1)) loaded_first

abbrev with_main : World ℕ
with_main = record (empty_cache (stored 2)) {
  module_map = λ k. if same_path k (117 ∷ 95 ∷ 102 ∷ 95 ∷ []) then some main_module else none;
}

main_in_cache : Holds (get_module_key user func []) main_module with_main
unfolding get_module_key same_path
main_in_cache = (refl, refl)

shared_absent : is_module_cached user func (115 ∷ []) with_main ≡ false
unfolding is_module_cached get_module_key same_path
shared_absent = refl

shared_bytes :
    (load_shared_object_wasm around.conf around.use_local_fs_cache (115 ∷ []) with_main.stores).0
    ≡ bytes (2 ∷ [])
unfolding load_shared_object_wasm load_file_bytes trim_leading_slashes
shared_bytes = refl

get_module-linked_example :
    ((get_module around user func (115 ∷ []) with_main).0
      ≡ ok (record (shared_like (featured none)) {
        simd = true;
        table_imports = (record { min = 7; max = 500000 }) ∷ [];
      }))
    × ((get_shared_module_table_size around user func
          (115 ∷ [])
          (get_module around user func (115 ∷ []) with_main).1).0
        ≡ through_int 3)
    × ((get_module around user func [] (get_module around user func (115 ∷ []) with_main).1).0
        ≡ ok main_module)
get_module-linked_example =
    get_module-linked around user func [] (2 ∷ []) 115 main_module (shared_like (featured none))
      (record { min = 3; max = 4 }) (record { min = 7; max = 500000 }) [] [] with_main main_in_cache
      shared_absent shared_bytes refl refl refl refl refl

abbrev func_to_string : Message → List ℕ
func_to_string msg = msg.user ++ (47 ∷ msg.function)

abbrev demo : Message
demo = record {
  user = user;
  function = func;
  python_user = [];
  python_function = [];
  input_data = [];
}

abbrev no_modules : ModuleCache ℕ ℕ
no_modules = record { cached_module_map = λ k. none; world = empty_cache (stored 1) }

get_cached_module-Kept_example :
    Kept around func_to_string
      (λ m. true)
      (λ x. some x)
      0
      (117 ∷ 47 ∷ 102 ∷ [])
      []
      (λ k. none)
      (get_cached_module around func_to_string
        (λ m. true)
        (λ x. some x)
        0
        demo
        no_modules).1.cached_module_map
      (get_cached_module around func_to_string (λ m. true) (λ x. some x) 0 demo no_modules).0
get_cached_module-Kept_example =
    get_cached_module-Kept around func_to_string (λ m. true) (λ x. some x) 0 demo [] no_modules
