-- ===== src/Caches/Compiled.antt =====
-- Compiled modules (`getCompiledModule` and the two functions under it of src/wavm/IRModuleCache.cpp).
use faasm.Prelude.{ℕ, Option, none, some, List, [], ◌∷◌, Result, ok, err}
use faasm.Files.Shared.{Loaded, bytes, is_directory, no_such_file, other_exception}
use faasm.Loader.{Stores}
use faasm.Loader.Paths.{Message}
use faasm.Loader.Functions.{load_function_object_file, load_shared_object_object_file}
use faasm.Caches.{
  IrModule, Thrown, not_loaded, World, assign_key, get_module_key, get_module_from_map,
}
use faasm.Caches.Modules.{Around, message_factory}

module _ {C : Type 0} (a : Around C) where
  -- `compiledModuleMap[key] = ...`, then the value at the key.
  abbrev pub keep_compiled : List ℕ → C → World C → Result Thrown C × World C
  keep_compiled key x w =
      (ok x, record w { compiled_module_map = assign_key key x w.compiled_module_map })

  abbrev pub compile_main : IrModule → List ℕ → C
  compile_main m [] = a.compile_module m
  compile_main m (b ∷ object) = a.load_precompiled_module m (b ∷ object)

  abbrev pub compile_with :
      (IrModule → List ℕ → C)
      → List ℕ
      → IrModule
      → Loaded × Stores
      → World C
      → Result Thrown C × World C
  compile_with compile key m (bytes object, st) w =
      keep_compiled key (compile m object) (record w { stores = st })
  compile_with compile key m (is_directory, st) w = (err not_loaded, record w { stores = st })
  compile_with compile key m (no_such_file, st) w = (err not_loaded, record w { stores = st })
  compile_with compile key m (other_exception, st) w = (err not_loaded, record w { stores = st })

  abbrev pub compile_main_module : List ℕ → Message → IrModule × World C → Result Thrown C × World C
  compile_main_module key msg (m, w) =
      compile_with compile_main key m
        (load_function_object_file a.conf a.use_local_fs_cache msg a.target w.stores) w

  abbrev pub compile_shared_module :
      List ℕ → List ℕ → IrModule × World C → Result Thrown C × World C
  compile_shared_module key path (m, w) =
      compile_with a.load_precompiled_module key m
        (load_shared_object_object_file a.conf a.use_local_fs_cache path a.target w.stores) w

  -- The compiled module that is there, or the one that `compile` makes.
  abbrev pub cached_or :
      (World C → Result Thrown C × World C) → World C → Option C → Result Thrown C × World C
  cached_or compile w (some x) = (ok x, w)
  cached_or compile w none = compile w

  -- `getCompiledMainModule` and `getCompiledSharedModule`.
  unfoldable pub get_compiled_module :
      List ℕ → List ℕ → List ℕ → World C → Result Thrown C × World C
  unfolding assign_key get_module_key get_module_from_map load_function_object_file
      load_shared_object_object_file
  get_compiled_module user func [] w =
      let key = get_module_key user func [] in
      cached_or
        (λ v. compile_main_module key (message_factory user func) (get_module_from_map key v)) w
        (w.compiled_module_map key)
  get_compiled_module user func (c ∷ path) w =
      let key = get_module_key user func (c ∷ path) in
      cached_or (λ v. compile_shared_module key (c ∷ path) (get_module_from_map key v)) w
        (w.compiled_module_map key)
