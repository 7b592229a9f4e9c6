-- ===== src/Caches/Failed.antt =====
-- What a failed load leaves in `IRModuleCache` (src/wavm/IRModuleCache.cpp).
use faasm.Prelude.{
  ℕ, ◌≡◌, refl, subst, true, false, some, List, [], ◌∷◌, inl, inr, Result, ok, err, Bool-cases,
  if◌then◌else◌,
}
use faasm.Files.Shared.{Loaded, bytes, is_directory, no_such_file, other_exception}
use faasm.Loader.{Stores}
use faasm.Loader.Functions.{load_function_wasm, load_shared_object_wasm}
use faasm.Caches.{
  Size, IrModule, Thrown, not_loaded, no_memories, defines_tables, defines_memories, undefined,
  World, assign_key, is_in, get_module_key, put_module, get_module_from_map, featured,
}
use faasm.Caches.Modules.{
  Around, Done, is_nil, check_main, load_main, read_back, get_main_module, take_table, import_table,
  check_shared, load_shared, get_shared_module, get_module, message_factory, is_module_cached,
}
use faasm.Caches.Entries.{assign_key_same}

module _ {C : Type 0} (a : Around C) where
  -- There is a module under the key, with the property.
  abbrev HasModule : (IrModule → Type 0) → List ℕ → World C → Type 0
  HasModule P key w = (m : IrModule) × ((w.module_map key ≡ some m) × P m)

  abbrev Fault : Thrown → IrModule → Type 0
  Fault not_loaded m = Unit
  Fault no_memories m = m.memory_defs ≡ []
  Fault defines_tables m = is_nil m.table_defs ≡ false
  Fault defines_memories m = is_nil m.memory_defs ≡ false
  Fault undefined m = Unit

  -- What each exception leaves under the key.
  abbrev Leaves : List ℕ → Thrown → World C → Type 0
  Leaves key not_loaded w = is_in (w.module_map key) ≡ false
  Leaves key no_memories w = HasModule (Fault no_memories) key w
  Leaves key defines_tables w = HasModule (Fault defines_tables) key w
  Leaves key defines_memories w = HasModule (Fault defines_memories) key w
  Leaves key undefined w = Unit

  no_elements : (ss : List Size) → is_nil ss ≡ true → ss ≡ []
  no_elements [] h = refl
  no_elements (s ∷ ss) h = cc

  -- The same of what a call returns.
  abbrev Left : {A : Type 0} → List ℕ → Result Thrown A × World C → Type 0
  Left key (err e, w) = Leaves key e w
  Left key (ok x, w) = Unit

  Left-Leaves :
      {A : Type 0} (key : List ℕ) (e : Thrown) (r : Result Thrown A) (w : World C)
      → Left key (r, w)
      → r ≡ err e
      → Leaves key e w
  Left-Leaves key e (err d) w l h = let same : d ≡ e = cc in subst (λ x. Leaves key x w) same l
  Left-Leaves key e (ok x) w l h = cc

  there : (key : List ℕ) (m : IrModule) (w : World C) → (put_module key m w).module_map key ≡ some m
  unfolding put_module
  there key m w = assign_key_same key m w.module_map

  check_main-Left : (key : List ℕ) (m : IrModule) (w : World C) → Left key (check_main a key m w)
  check_main-Left key m w = elim (Bool-cases (is_nil (m.memory_defs))) [
    | inl t ↦ rw t (m, (there key m w, no_elements (m.memory_defs) t))
    | inr t ↦ rw t tt
  ]

  load_main-Left :
      (key : List ℕ) (l : Loaded × Stores) (w : World C)
      → is_in (w.module_map key) ≡ false
      → Left key (load_main a key l w)
  unfolding load_main
  load_main-Left key (bytes content, st) w n =
      let v : World C = record w { stores = st } in
      let x = (get_module_from_map key v).0 in
      check_main-Left key
        (if a.is_wasm content then a.load_binary_module content x else a.parse_module content x)
        (get_module_from_map key v).1
  load_main-Left key (is_directory, st) w n = n
  load_main-Left key (no_such_file, st) w n = n
  load_main-Left key (other_exception, st) w n = n

  take_table-Left :
      (key : List ℕ) (m : IrModule) (ss ts : List Size) (w : World C)
      → Left key (take_table a key m ss ts w)
  take_table-Left key m ss [] w = tt
  take_table-Left key m ss (t ∷ ts) w = tt

  import_table-Left :
      (key main_key : List ℕ) (m : IrModule) (ss : List Size) (w : World C)
      → Left key (import_table a key main_key m ss w)
  import_table-Left key main_key m [] w = tt
  import_table-Left key main_key m (s ∷ ss) w =
      let v : World C = record w {
        original_table_sizes = assign_key key s.min w.original_table_sizes;
      } in
      take_table-Left key m ss (get_module_from_map main_key v).0.table_defs
        (get_module_from_map main_key v).1

  check_shared-Left :
      (key main_key : List ℕ) (m : IrModule) (w : World C)
      → w.module_map key ≡ some m
      → Left key (check_shared a key main_key m w)
  check_shared-Left key main_key m w h = elim (Bool-cases (is_nil (m.table_defs))) [
    | inr t ↦ rw t (m, (h, t))
    | inl t ↦ rw t (elim (Bool-cases (is_nil (m.memory_defs))) [
      | inr u ↦ rw u (m, (h, u))
      | inl u ↦ rw u (import_table-Left key main_key m (m.table_imports) w)
    ])
  ]

  load_shared-Left :
      (key main_key : List ℕ) (l : Loaded × Stores) (w : World C)
      → is_in (w.module_map key) ≡ false
      → Left key (load_shared a key main_key l w)
  unfolding load_shared
  load_shared-Left key main_key (bytes content, st) w n =
      let v : World C = record w { stores = st } in
      let m = a.load_binary_module content (get_module_from_map key v).0 in
      check_shared-Left key main_key m (put_module key m (get_module_from_map key v).1)
        (there key m (get_module_from_map key v).1)
  load_shared-Left key main_key (is_directory, st) w n = n
  load_shared-Left key main_key (no_such_file, st) w n = n
  load_shared-Left key main_key (other_exception, st) w n = n

  read_back-Left : (key : List ℕ) (x : Done × World C) → Left key x → Left key (read_back a key x)
  unfolding read_back
  read_back-Left key (err e, w) l = l
  read_back-Left key (ok u, w) l = tt

  get_module-Left :
      (user func path : List ℕ) (w : World C)
      → Left (get_module_key user func path) (get_module a user func path w)
  unfolding get_module get_main_module get_shared_module
  get_module-Left user func [] w =
      let key = get_module_key user func [] in
      elim (Bool-cases (is_in (w.module_map key))) [
        | inl t ↦ rw t (read_back-Left key (ok tt, w) tt)
        | inr t ↦ rw t (
            let loaded =
              load_function_wasm a.conf a.use_local_fs_cache (message_factory user func) w.stores in
            read_back-Left key (load_main a key loaded w) (load_main-Left key loaded w t))
      ]
  get_module-Left user func (c ∷ path) w =
      let key = get_module_key user func (c ∷ path) in
      let main_key = get_module_key user func [] in
      elim (Bool-cases (is_in (w.module_map key))) [
        | inl t ↦ rw t (read_back-Left key (ok tt, w) tt)
        | inr t ↦ rw t (
            let loaded = load_shared_object_wasm a.conf a.use_local_fs_cache (c ∷ path) w.stores in
            read_back-Left key (load_shared a key main_key loaded w)
              (load_shared-Left key main_key loaded w t))
      ]

  -- The next call after an exception: a file that was not loaded is looked for again, and for each of
  -- the exceptions on what a module defines the module with that fault is given out.
  abbrev pub Retried : List ℕ → List ℕ → List ℕ → Thrown → World C → Type 0
  Retried user func path not_loaded w = is_module_cached user func path w ≡ false
  Retried user func path no_memories w =
      (m : IrModule) × ((get_module a user func path w).0 ≡ ok m) × (m.memory_defs ≡ [])
  Retried user func path defines_tables w =
      (m : IrModule) × ((get_module a user func path w).0 ≡ ok m) × (is_nil m.table_defs ≡ false)
  Retried user func path defines_memories w =
      (m : IrModule) × ((get_module a user func path w).0 ≡ ok m) × (is_nil m.memory_defs ≡ false)
  Retried user func path undefined w = Unit

  -- A module that is in the map is given out as it is, but for the feature.
  get_module_found :
      (user func path : List ℕ) (m : IrModule) (w : World C)
      → w.module_map (get_module_key user func path) ≡ some m
      → (get_module a user func path w).0 ≡ ok (featured (some m))
  unfolding get_module get_main_module get_shared_module read_back get_module_from_map
  get_module_found user func [] m w h =
      let present : is_in (w.module_map (get_module_key user func [])) ≡ true = rw h refl in
      rw present (rw h refl)
  get_module_found user func (c ∷ path) m w h =
      let present : is_in (w.module_map (get_module_key user func (c ∷ path))) ≡ true = rw h refl in
      rw present (rw h refl)

  Leaves-Retried :
      (user func path : List ℕ) (e : Thrown) (w : World C)
      → Leaves (get_module_key user func path) e w
      → Retried user func path e w
  unfolding is_module_cached
  Leaves-Retried user func path not_loaded w l = l
  Leaves-Retried user func path no_memories w (m, (h, f)) =
      (featured (some m), get_module_found user func path m w h, f)
  Leaves-Retried user func path defines_tables w (m, (h, f)) =
      (featured (some m), get_module_found user func path m w h, f)
  Leaves-Retried user func path defines_memories w (m, (h, f)) =
      (featured (some m), get_module_found user func path m w h, f)
  Leaves-Retried user func path undefined w l = tt

  -- What a call that throws leaves, by the exception: when the file was not loaded, the module is
  -- not cached; when a main module defined no memories, or a shared module defined tables or
  -- memories, the next call for the same module throws nothing and gives the module with that fault.
  -- Of the reads behind the end of a vector nothing is said.
  pub get_module-Retried :
      (user func path : List ℕ) (e : Thrown) (w : World C)
      → (get_module a user func path w).0 ≡ err e
      → Retried user func path e (get_module a user func path w).1
  get_module-Retried user func path e w h =
      Leaves-Retried user func path e (get_module a user func path w).1 (
        Left-Leaves (get_module_key user func path) e (get_module a user func path w).0
          (get_module a user func path w).1 (get_module-Left user func path w) h)
