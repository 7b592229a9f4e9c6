-- ===== src/Caches/Keeping.antt =====
-- No operation of `IRModuleCache` changes a module that is there (src/wavm/IRModuleCache.cpp).
use faasm.Prelude.{
  ℕ, ◌≡◌, false, Option, none, some, List, [], ◌∷◌, inl, inr, Result, ok, err, Bool-cases,
  if◌then◌else◌,
}
use faasm.Files.Shared.{same_path, Loaded, bytes, is_directory, no_such_file, other_exception}
use faasm.Loader.{Stores}
use faasm.Loader.Functions.{
  load_function_wasm, load_function_object_file, load_shared_object_wasm,
  load_shared_object_object_file,
}
use faasm.Caches.{
  Size, IrModule, Thrown, World, assign_key, is_in, get_module_key, put_module, get_module_from_map,
}
use faasm.Caches.Modules.{
  Around, Done, is_nil, bounded, read_main, load_main, read_back, get_main_module, take_table,
  import_table, check_shared, load_shared, get_shared_module, get_module, message_factory, measured,
}
use faasm.Caches.Compiled.{
  compile_with, compile_main_module, compile_shared_module, get_compiled_module, cached_or,
  compile_main,
}
use faasm.Caches.Entries.{Holds, Holds-differ, Holds-put_module, Holds-get_module_from_map}

module _ {C : Type 0} (a : Around C) where
  module _ (k : List ℕ) (m : IrModule) where
    read_main_keeps :
        (key content : List ℕ) (x : IrModule × World C)
        → same_path k key ≡ false
        → Holds k m (x.1)
        → Holds k m (read_main a key content x).1
    read_main_keeps key content (x, w) e h =
        let y : IrModule =
          if a.is_wasm content then a.load_binary_module content x else a.parse_module content x in
        elim (Bool-cases (is_nil (y.memory_defs))) [
          | inl t ↦ rw t (Holds-put_module k key m y w e h)
          | inr t ↦ rw t (Holds-put_module k key m (bounded a y) w e h)
        ]

    load_main_keeps :
        (key : List ℕ) (l : Loaded × Stores) (w : World C)
        → same_path k key ≡ false
        → Holds k m w
        → Holds k m (load_main a key l w).1
    unfolding load_main
    load_main_keeps key (bytes content, st) w e h =
        read_main_keeps key content (get_module_from_map key (record w { stores = st })) e
          (Holds-get_module_from_map k key m (record w { stores = st }) h)
    load_main_keeps key (is_directory, st) w e h = h
    load_main_keeps key (no_such_file, st) w e h = h
    load_main_keeps key (other_exception, st) w e h = h

    read_back_keeps :
        (key : List ℕ) (x : Done × World C) → Holds k m (x.1) → Holds k m (read_back a key x).1
    unfolding read_back
    read_back_keeps key (err e, w) h = h
    read_back_keeps key (ok u, w) h = Holds-get_module_from_map k key m w h

    get_main_module_keeps :
        (user func : List ℕ) (w : World C)
        → Holds k m w
        → Holds k m (get_main_module a user func w).1
    unfolding get_main_module
    get_main_module_keeps user func w h =
        let key = get_module_key user func [] in
        elim (Bool-cases (is_in (w.module_map key))) [
          | inl t ↦ rw t (read_back_keeps key (ok tt, w) h)
          | inr t ↦ rw t (
              let loaded =
                load_function_wasm a.conf a.use_local_fs_cache (message_factory user func)
                  w.stores in
              read_back_keeps key (load_main a key loaded w)
                (load_main_keeps key loaded w (Holds-differ k key m w h t) h))
        ]

    take_table_keeps :
        (key : List ℕ) (x : IrModule) (ss ts : List Size) (w : World C)
        → same_path k key ≡ false
        → Holds k m w
        → Holds k m (take_table a key x ss ts w).1
    take_table_keeps key x ss [] w e h = h
    take_table_keeps key x ss (t ∷ ts) w e h =
        Holds-put_module k key m (record x { table_imports = t ∷ ss }) w e h

    import_table_keeps :
        (key main_key : List ℕ) (x : IrModule) (ss : List Size) (w : World C)
        → same_path k key ≡ false
        → Holds k m w
        → Holds k m (import_table a key main_key x ss w).1
    import_table_keeps key main_key x [] w e h = h
    import_table_keeps key main_key x (s ∷ ss) w e h =
        let v : World C = record w {
          original_table_sizes = assign_key key s.min w.original_table_sizes;
        } in
        take_table_keeps key x ss (get_module_from_map main_key v).0.table_defs
          (get_module_from_map main_key v).1 e (Holds-get_module_from_map k main_key m v h)

    check_shared_keeps :
        (key main_key : List ℕ) (x : IrModule) (w : World C)
        → same_path k key ≡ false
        → Holds k m w
        → Holds k m (check_shared a key main_key x w).1
    check_shared_keeps key main_key x w e h = elim (Bool-cases (is_nil (x.table_defs))) [
      | inr t ↦ rw t h
      | inl t ↦ rw t (elim (Bool-cases (is_nil (x.memory_defs))) [
        | inr u ↦ rw u h
        | inl u ↦ rw u (import_table_keeps key main_key x (x.table_imports) w e h)
      ])
    ]

    load_shared_keeps :
        (key main_key : List ℕ) (l : Loaded × Stores) (w : World C)
        → same_path k key ≡ false
        → Holds k m w
        → Holds k m (load_shared a key main_key l w).1
    unfolding load_shared
    load_shared_keeps key main_key (bytes content, st) w e h =
        let v : World C = record w { stores = st } in
        let x : IrModule = a.load_binary_module content (get_module_from_map key v).0 in
        check_shared_keeps key main_key x (put_module key x (get_module_from_map key v).1) e (
          Holds-put_module k key m x (get_module_from_map key v).1 e
            (Holds-get_module_from_map k key m v h))
    load_shared_keeps key main_key (is_directory, st) w e h = h
    load_shared_keeps key main_key (no_such_file, st) w e h = h
    load_shared_keeps key main_key (other_exception, st) w e h = h

    get_shared_module_keeps :
        (user func path : List ℕ) (w : World C)
        → Holds k m w
        → Holds k m (get_shared_module a user func path w).1
    unfolding get_shared_module
    get_shared_module_keeps user func path w h =
        let key = get_module_key user func path in
        elim (Bool-cases (is_in (w.module_map key))) [
          | inl t ↦ rw t (read_back_keeps key (ok tt, w) h)
          | inr t ↦ rw t (
              let main_key = get_module_key user func [] in
              let loaded = load_shared_object_wasm a.conf a.use_local_fs_cache path w.stores in
              read_back_keeps key (load_shared a key main_key loaded w)
                (load_shared_keeps key main_key loaded w (Holds-differ k key m w h t) h))
        ]

    pub get_module_keeps :
        (user func path : List ℕ) (w : World C)
        → Holds k m w
        → Holds k m (get_module a user func path w).1
    unfolding get_module
    get_module_keeps user func [] w h = get_main_module_keeps user func w h
    get_module_keeps user func (c ∷ path) w h = get_shared_module_keeps user func (c ∷ path) w h

    compile_with_keeps :
        (compile : IrModule → List ℕ → C) (key : List ℕ) (x : IrModule) (l : Loaded × Stores)
        (w : World C)
        → Holds k m w
        → Holds k m (compile_with a compile key x l w).1
    compile_with_keeps compile key x (bytes object, st) w h = h
    compile_with_keeps compile key x (is_directory, st) w h = h
    compile_with_keeps compile key x (no_such_file, st) w h = h
    compile_with_keeps compile key x (other_exception, st) w h = h

    cached_or_keeps :
        (compile : World C → Result Thrown C × World C) (w : World C) (o : Option C)
        → Holds k m w
        → Holds k m (compile w).1
        → Holds k m (cached_or a compile w o).1
    cached_or_keeps compile w none h g = g
    cached_or_keeps compile w (some x) h g = h

    pub get_compiled_module_keeps :
        (user func path : List ℕ) (w : World C)
        → Holds k m w
        → Holds k m (get_compiled_module a user func path w).1
    unfolding get_compiled_module
    get_compiled_module_keeps user func [] w h =
        let key = get_module_key user func [] in
        let g = Holds-get_module_from_map k key m w h in
        cached_or_keeps
          (λ v. compile_main_module a key (message_factory user func) (get_module_from_map key v)) w
          (w.compiled_module_map key) h
          (compile_with_keeps (compile_main a) key (get_module_from_map key w).0
            (load_function_object_file a.conf a.use_local_fs_cache (message_factory user func)
              a.target (get_module_from_map key w).1.stores)
            (get_module_from_map key w).1 g)
    get_compiled_module_keeps user func (c ∷ path) w h =
        let key = get_module_key user func (c ∷ path) in
        let g = Holds-get_module_from_map k key m w h in
        cached_or_keeps (λ v. compile_shared_module a key (c ∷ path) (get_module_from_map key v)) w
          (w.compiled_module_map key) h
          (compile_with_keeps a.load_precompiled_module key (get_module_from_map key w).0
            (load_shared_object_object_file a.conf a.use_local_fs_cache (c ∷ path) a.target
              (get_module_from_map key w).1.stores)
            (get_module_from_map key w).1 g)

    pub measured_keeps :
        (x : Result Thrown IrModule × World C) → Holds k m (x.1) → Holds k m (measured a x).1
    measured_keeps (err e, w) h = h
    measured_keeps (ok y, w) h = h
