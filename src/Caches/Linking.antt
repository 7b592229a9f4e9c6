-- ===== src/Caches/Linking.antt =====
-- A shared module beside its main module in `IRModuleCache` (src/wavm/IRModuleCache.cpp).
use faasm.Prelude.{
  ℕ, ◌≡◌, refl, sym, ap, ◌∙◌, subst, true, false, Option, none, some, List, [], ◌∷◌, Result, ok,
  err,
}
use faasm.Files.Shared.{same_path, Loaded, bytes, is_directory, no_such_file, other_exception}
use faasm.Loader.{Stores}
use faasm.Loader.Functions.{load_shared_object_wasm}
use faasm.Caches.{
  Size, IrModule, Thrown, World, assign_key, is_in, get_module_key, put_module, get_module_from_map,
  featured, through_int,
}
use faasm.Caches.Modules.{
  Around, Done, is_nil, check_shared, take_table, import_table, read_shared, load_shared, read_back,
  get_shared_module, get_module, get_shared_module_table_size, is_module_cached,
}
use faasm.Caches.Entries.{
  Holds, Holds-differ, Holds-put_module, Holds-get_module_from_map, get_module_from_map_held,
  assign_key_same,
}
use faasm.Caches.Stable.{get_module_held}

not_there : (o : Option IrModule) → is_in o ≡ false → o ≡ none
not_there none h = refl
not_there (some m) h = cc

module _ {C : Type 0} (a : Around C) (user func path : List ℕ) (main m : IrModule) (s t : Size)
    (ss ts : List Size) where
  abbrev main_key : List ℕ
  main_key = get_module_key user func []

  abbrev key : List ℕ
  key = get_module_key user func path

  -- The shared module with the table of the main module.
  abbrev pub linked : IrModule
  linked = record m { simd = true; table_imports = t ∷ ss }

  -- The cache with both modules, and the size that the shared module asked for.
  abbrev Joined : IrModule → World C → Type 0
  Joined x w =
      (w.module_map key ≡ some x)
      × (w.original_table_sizes key ≡ some s.min)
      × Holds main_key main w

  abbrev JoinedBy : {A : Type 0} → A → IrModule → Result Thrown A × World C → Type 0
  JoinedBy v x (r, w) = (r ≡ ok v) × Joined x w

  take_table-Joined :
      (u : World C) (tables : List Size)
      → same_path main_key key ≡ false
      → Holds main_key main u
      → u.original_table_sizes key ≡ some s.min
      → tables ≡ t ∷ ts
      → JoinedBy tt (record m { table_imports = t ∷ ss }) (take_table a key m ss tables u)
  unfolding put_module
  take_table-Joined u [] d h n e = cc
  take_table-Joined u (t' ∷ ts') d h n e =
      let same : t' ≡ t = cc in
      let x : IrModule = record m { table_imports = t' ∷ ss } in
      (
        refl,
        (
          assign_key_same key x u.module_map
              ∙ ap (λ y. some (record m { table_imports = y ∷ ss })) same,
          n,
          Holds-put_module main_key key main x u d h,
        ),
      )

  import_table-Joined :
      (w : World C)
      → same_path main_key key ≡ false
      → Holds main_key main w
      → main.table_defs ≡ t ∷ ts
      → JoinedBy tt (record m { table_imports = t ∷ ss }) (import_table a key main_key m (s ∷ ss) w)
  unfolding put_module get_module_from_map
  import_table-Joined w d h e =
      let v : World C = record w {
        original_table_sizes = assign_key key s.min w.original_table_sizes;
      } in
      let table : (get_module_from_map main_key v).0.table_defs ≡ t ∷ ts =
        ap (λ x. x.table_defs) (get_module_from_map_held main_key main v h) ∙ e in
      take_table-Joined (get_module_from_map main_key v).1
        (get_module_from_map main_key v).0.table_defs d
        (Holds-get_module_from_map main_key main_key main v h)
        (assign_key_same key s.min w.original_table_sizes) table

  read_shared-Joined :
      (content : List ℕ) (x : IrModule) (w : World C)
      → same_path main_key key ≡ false
      → Holds main_key main w
      → a.load_binary_module content x ≡ m
      → m.table_defs ≡ []
      → m.memory_defs ≡ []
      → m.table_imports ≡ s ∷ ss
      → main.table_defs ≡ t ∷ ts
      → JoinedBy tt
          (record m { table_imports = t ∷ ss })
          (read_shared a key main_key content (x, w))
  read_shared-Joined content x w d h e tables memories imports e' =
      let y : IrModule = record m { table_imports = t ∷ ss } in
      let v = put_module key m w in
      let no_tables : is_nil (m.table_defs) ≡ true = ap is_nil tables in
      let no_memory : is_nil (m.memory_defs) ≡ true = ap is_nil memories in
      let joined = import_table-Joined v d (Holds-put_module main_key key main m w d h) e' in
      let imported =
        subst (λ i. JoinedBy tt y (import_table a key main_key m i v)) (sym imports) joined in
      subst (λ z. JoinedBy tt y (check_shared a key main_key z (put_module key z w))) (sym e)
        (rw no_tables (rw no_memory imported))

  read_back-Joined :
      (x : Done × World C)
      → same_path main_key key ≡ false
      → JoinedBy tt (record m { table_imports = t ∷ ss }) x
      → JoinedBy linked linked (read_back a key x)
  unfolding read_back put_module get_module_from_map
  read_back-Joined (err e, w) d j = let bad = j.0 in cc
  read_back-Joined (ok u, w) d (e, (found, sizes, held)) =
      let same : featured (w.module_map key) ≡ linked = ap featured found in
      (
        ap ok same,
        (
          assign_key_same key (featured (w.module_map key)) w.module_map ∙ ap some same,
          sizes,
          Holds-get_module_from_map main_key key main w held,
        ),
      )

  load_shared-Joined :
      (content : List ℕ) (l : Loaded × Stores) (w : World C)
      → l.0 ≡ bytes content
      → w.module_map key ≡ none
      → same_path main_key key ≡ false
      → Holds main_key main w
      → a.load_binary_module content (featured none) ≡ m
      → m.table_defs ≡ []
      → m.memory_defs ≡ []
      → m.table_imports ≡ s ∷ ss
      → main.table_defs ≡ t ∷ ts
      → JoinedBy tt (record m { table_imports = t ∷ ss }) (load_shared a key main_key l w)
  unfolding load_shared get_module_from_map
  load_shared-Joined content (bytes x, st) w b n d h e tables memories imports e' =
      let same : x ≡ content = cc in
      let v : World C = record w { stores = st } in
      let e'' : a.load_binary_module x (featured (w.module_map key)) ≡ m = rw (same, n) e in
      read_shared-Joined x (get_module_from_map key v).0 (get_module_from_map key v).1 d
        (Holds-get_module_from_map main_key key main v h) e'' tables memories imports e'
  load_shared-Joined content (is_directory, st) w b n d h e tables memories imports e' = cc
  load_shared-Joined content (no_such_file, st) w b n d h e tables memories imports e' = cc
  load_shared-Joined content (other_exception, st) w b n d h e tables memories imports e' = cc

  get_shared_module-Joined :
      (content : List ℕ) (w : World C)
      → Holds main_key main w
      → is_in (w.module_map key) ≡ false
      → (load_shared_object_wasm a.conf a.use_local_fs_cache path w.stores).0 ≡ bytes content
      → a.load_binary_module content (featured none) ≡ m
      → m.table_defs ≡ []
      → m.memory_defs ≡ []
      → m.table_imports ≡ s ∷ ss
      → main.table_defs ≡ t ∷ ts
      → JoinedBy linked linked (get_shared_module a user func path w)
  unfolding get_shared_module
  get_shared_module-Joined content w h n b e tables memories imports e' =
      let d = Holds-differ main_key key main w h n in
      let l = load_shared_object_wasm a.conf a.use_local_fs_cache path w.stores in
      rw n (
        read_back-Joined (load_shared a key main_key l w) d (
          load_shared-Joined content l w b (not_there (w.module_map key) n) d h e tables memories
            imports e'))

-- A shared module that is loaded beside its main module, which is in the cache and defines a table,
-- when the shared module defines neither tables nor memories and imports a table: the module that is
-- given out imports a table of the size of the main module's, the size that it asked for is kept
-- beside it as an `int`, and the main module is given out as before.
pub get_module-linked :
    {C : Type 0} (a : Around C) (user func path content : List ℕ) (c : ℕ) (main m : IrModule)
    (s t : Size) (ss ts : List Size) (w : World C)
    → Holds (get_module_key user func []) main w
    → is_module_cached user func (c ∷ path) w ≡ false
    → (load_shared_object_wasm a.conf a.use_local_fs_cache (c ∷ path) w.stores).0 ≡ bytes content
    → a.load_binary_module content (featured none) ≡ m
    → m.table_defs ≡ []
    → m.memory_defs ≡ []
    → m.table_imports ≡ s ∷ ss
    → main.table_defs ≡ t ∷ ts
    → ((get_module a user func (c ∷ path) w).0
        ≡ ok (record m { simd = true; table_imports = t ∷ ss }))
      × ((get_shared_module_table_size a user func
            (c ∷ path)
            (get_module a user func (c ∷ path) w).1).0
          ≡ through_int s.min)
      × ((get_module a user func [] (get_module a user func (c ∷ path) w).1).0 ≡ ok main)
unfolding get_module get_shared_module_table_size is_module_cached
get_module-linked a user func path content c main m s t ss ts w h n b e tables memories imports e' =
    let (given, (found, sizes, held)) =
      get_shared_module-Joined a user func (c ∷ path) main m s t ss ts content w h n b e tables
        memories imports e' in
    (
      given,
      rw sizes refl,
      get_module_held a user func [] main (get_shared_module a user func (c ∷ path) w).1 held,
    )
