-- ===== src/Caches/Modules.antt =====
-- The operations of `IRModuleCache` (src/wavm/IRModuleCache.cpp). What WAVM does with the bytes of a
-- module is an argument; reading a precompiled module and compiling one succeed.
use faasm.Prelude.{
  ℕ, ◌+◌, Bool, true, false, not, none, List, [], ◌∷◌, Result, ok, err, if◌then◌else◌,
}
use faasm.Files.Shared.{Loaded, bytes, is_directory, no_such_file, other_exception}
use faasm.Loader.{Stores}
use faasm.Loader.Paths.{Message, Config, Target}
use faasm.Loader.Functions.{load_function_wasm, load_shared_object_wasm}
use faasm.Caches.{
  Size, IrModule, Thrown, not_loaded, no_memories, defines_tables, defines_memories, undefined,
  World, assign_key, is_in, or_new, get_module_key, through_int, put_module, get_module_from_map,
}

-- What stands around the cache: the settings of the build and of the loader, `isWasm`, the readers of
-- the binary and of the text format, which fill the module they are given, and the compiler.
pub record Around (C : Type 0) : Type 0 where
  pub conf : Config
  pub use_local_fs_cache : Bool
  pub target : Target
  pub max_wasm_memory_pages : ℕ
  pub is_wasm : List ℕ → Bool
  pub load_binary_module : List ℕ → IrModule → IrModule
  pub parse_module : List ℕ → IrModule → IrModule
  pub compile_module : IrModule → C
  pub load_precompiled_module : IrModule → List ℕ → C

abbrev pub max_table_size : ℕ
max_table_size = 500000

-- `messageFactory`.
abbrev pub message_factory : List ℕ → List ℕ → Message
message_factory user func = record {
  user = user;
  function = func;
  python_user = [];
  python_function = [];
  input_data = [];
}

abbrev pub is_nil : {A : Type 0} → List A → Bool
is_nil [] = true
is_nil (x ∷ xs) = false

abbrev pub force_max : ℕ → List Size → List Size
force_max max [] = []
force_max max (s ∷ ss) = record s { max = max } ∷ ss

-- The sum over the data segments.
abbrev pub segment_bytes : List ℕ → ℕ
segment_bytes [] = 0
segment_bytes (n ∷ ns) = n + segment_bytes ns

abbrev pub Done : Type 0
Done = Result Thrown (Unit {0})

module _ {C : Type 0} (a : Around C) where
  -- The bounds that a main module gets.
  abbrev pub bounded : IrModule → IrModule
  bounded m = record m {
    memory_defs = force_max a.max_wasm_memory_pages m.memory_defs;
    table_defs = force_max max_table_size m.table_defs;
  }

  abbrev pub check_main : List ℕ → IrModule → World C → Done × World C
  check_main key m w =
      if is_nil m.memory_defs
      then (err no_memories, put_module key m w)
      else (ok tt, put_module key (bounded m) w)

  abbrev pub read_main : List ℕ → List ℕ → IrModule × World C → Done × World C
  read_main key content (m, w) =
      check_main key
        (if a.is_wasm content then a.load_binary_module content m else a.parse_module content m) w

  unfoldable pub load_main : List ℕ → Loaded × Stores → World C → Done × World C
  unfolding put_module get_module_from_map
  load_main key (bytes content, st) w =
      read_main key content (get_module_from_map key (record w { stores = st }))
  load_main key (is_directory, st) w = (err not_loaded, record w { stores = st })
  load_main key (no_such_file, st) w = (err not_loaded, record w { stores = st })
  load_main key (other_exception, st) w = (err not_loaded, record w { stores = st })

  -- The last lines of `getMainModule` and of `getSharedModule`.
  unfoldable pub read_back : List ℕ → Done × World C → Result Thrown IrModule × World C
  unfolding get_module_from_map
  read_back key (err e, w) = (err e, w)
  read_back key (ok u, w) = (ok (get_module_from_map key w).0, (get_module_from_map key w).1)

  unfoldable pub get_main_module : List ℕ → List ℕ → World C → Result Thrown IrModule × World C
  unfolding load_main read_back get_module_key load_function_wasm
  get_main_module user func w =
      let key = get_module_key user func [] in
      read_back key (
        if is_in (w.module_map key)
        then (ok tt, w)
        else load_main key
            (load_function_wasm a.conf a.use_local_fs_cache (message_factory user func) w.stores) w)

  -- The table of the main module in place of the one that the shared module asks for.
  abbrev pub take_table : List ℕ → IrModule → List Size → List Size → World C → Done × World C
  take_table key m imports [] w = (err undefined, w)
  take_table key m imports (t ∷ ts) w =
      (ok tt, put_module key (record m { table_imports = t ∷ imports }) w)

  abbrev pub join_main : List ℕ → IrModule → List Size → IrModule × World C → Done × World C
  join_main key m imports (main, w) = take_table key m imports main.table_defs w

  abbrev pub import_table : List ℕ → List ℕ → IrModule → List Size → World C → Done × World C
  import_table key main_key m [] w = (err undefined, w)
  import_table key main_key m (s ∷ ss) w = join_main key m ss (
      get_module_from_map main_key
        (record w { original_table_sizes = assign_key key s.min w.original_table_sizes }))

  abbrev pub check_shared : List ℕ → List ℕ → IrModule → World C → Done × World C
  check_shared key main_key m w =
      if not (is_nil m.table_defs)
      then (err defines_tables, w)
      else if not (is_nil m.memory_defs)
      then (err defines_memories, w)
      else import_table key main_key m m.table_imports w

  abbrev pub read_shared : List ℕ → List ℕ → List ℕ → IrModule × World C → Done × World C
  read_shared key main_key content (m, w) =
      let m' = a.load_binary_module content m in check_shared key main_key m' (put_module key m' w)

  unfoldable pub load_shared : List ℕ → List ℕ → Loaded × Stores → World C → Done × World C
  unfolding put_module get_module_from_map assign_key
  load_shared key main_key (bytes content, st) w =
      read_shared key main_key content (get_module_from_map key (record w { stores = st }))
  load_shared key main_key (is_directory, st) w = (err not_loaded, record w { stores = st })
  load_shared key main_key (no_such_file, st) w = (err not_loaded, record w { stores = st })
  load_shared key main_key (other_exception, st) w = (err not_loaded, record w { stores = st })

  unfoldable pub get_shared_module :
      List ℕ → List ℕ → List ℕ → World C → Result Thrown IrModule × World C
  unfolding load_shared read_back get_module_key load_shared_object_wasm
  get_shared_module user func path w =
      let key = get_module_key user func path in
      read_back key (
        if is_in (w.module_map key)
        then (ok tt, w)
        else load_shared key (get_module_key user func [])
            (load_shared_object_wasm a.conf a.use_local_fs_cache path w.stores) w)

  unfoldable pub get_module : List ℕ → List ℕ → List ℕ → World C → Result Thrown IrModule × World C
  unfolding get_main_module get_shared_module
  get_module user func [] w = get_main_module user func w
  get_module user func (c ∷ path) w = get_shared_module user func (c ∷ path) w

  -- A size that is not there is made, as 0.
  unfoldable pub get_shared_module_table_size : List ℕ → List ℕ → List ℕ → World C → ℕ × World C
  unfolding assign_key get_module_key
  get_shared_module_table_size user func path w =
      let key = get_module_key user func path in
      let n = or_new 0 (w.original_table_sizes key) in
      (through_int n, record w { original_table_sizes = assign_key key n w.original_table_sizes })

  abbrev pub measured : Result Thrown IrModule × World C → Result Thrown ℕ × World C
  measured (err e, w) = (err e, w)
  measured (ok m, w) = (ok (segment_bytes m.data_segments), w)

  unfoldable pub get_shared_module_data_size :
      List ℕ → List ℕ → List ℕ → World C → Result Thrown ℕ × World C
  unfolding get_module
  get_shared_module_data_size user func path w = measured (get_module user func path w)

module _ {C : Type 0} where
  unfoldable pub is_module_cached : List ℕ → List ℕ → List ℕ → World C → Bool
  unfolding get_module_key
  is_module_cached user func path w = is_in (w.module_map (get_module_key user func path))

  unfoldable pub is_compiled_module_cached : List ℕ → List ℕ → List ℕ → World C → Bool
  unfolding get_module_key
  is_compiled_module_cached user func path w =
      is_in (w.compiled_module_map (get_module_key user func path))

  unfoldable pub clear : World C → World C
  clear w = record w {
    module_map = λ k. none;
    compiled_module_map = λ k. none;
    original_table_sizes = λ k. none;
  }
