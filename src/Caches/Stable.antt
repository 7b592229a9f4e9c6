-- ===== src/Caches/Stable.antt =====
-- What `IRModuleCache` has given out stays (src/wavm/IRModuleCache.cpp).
use faasm.Prelude.{ℕ, ◌≡◌, refl, ap, subst, true, List, [], ◌∷◌, ok, err}
use faasm.Loader.{Stores}
use faasm.Caches.{IrModule, World, is_in, get_module_key, get_module_from_map}
use faasm.Caches.Modules.{
  Around, Done, read_back, get_main_module, get_shared_module, get_module,
  get_shared_module_table_size, get_shared_module_data_size,
}
use faasm.Caches.Compiled.{get_compiled_module}
use faasm.Caches.Keeping.{get_module_keeps, get_compiled_module_keeps, measured_keeps}
use faasm.Caches.Entries.{Holds, get_module_from_map-Holds, get_module_from_map_held}

-- The calls of the users of the cache and of the object store.
pub data Call : Type 0 where
  ask_module ask_compiled_module ask_table_size ask_data_size : List ℕ → List ℕ → List ℕ → Call
  change_stores : Stores → Call

module _ {C : Type 0} (a : Around C) where
  unfoldable pub step : Call → World C → World C
  unfolding get_module get_compiled_module get_shared_module_table_size get_shared_module_data_size
  step (ask_module user func path) w = (get_module a user func path w).1
  step (ask_compiled_module user func path) w = (get_compiled_module a user func path w).1
  step (ask_table_size user func path) w = (get_shared_module_table_size a user func path w).1
  step (ask_data_size user func path) w = (get_shared_module_data_size a user func path w).1
  step (change_stores st) w = record w { stores = st }

  unfoldable pub run : List Call → World C → World C
  unfolding step
  run [] w = w
  run (c ∷ cs) w = run cs (step c w)

  module _ (k : List ℕ) (m : IrModule) where
    step_keeps : (c : Call) (w : World C) → Holds k m w → Holds k m (step c w)
    unfolding step get_shared_module_table_size get_shared_module_data_size
    step_keeps (ask_module user func path) w h = get_module_keeps a k m user func path w h
    step_keeps (ask_compiled_module user func path) w h =
        get_compiled_module_keeps a k m user func path w h
    step_keeps (ask_table_size user func path) w h = h
    step_keeps (ask_data_size user func path) w h =
        measured_keeps a k m (get_module a user func path w)
          (get_module_keeps a k m user func path w h)
    step_keeps (change_stores st) w h = h

    pub run_keeps : (cs : List Call) (w : World C) → Holds k m w → Holds k m (run cs w)
    unfolding run
    run_keeps [] w h = h
    run_keeps (c ∷ cs) w h = run_keeps cs (step c w) (step_keeps c w h)

  read_back-Holds :
      (key : List ℕ) (m : IrModule) (x : Done × World C)
      → (read_back a key x).0 ≡ ok m
      → Holds key m (read_back a key x).1
  unfolding read_back
  read_back-Holds key m (err e, w) h = cc
  read_back-Holds key m (ok u, w) h =
      let same : (get_module_from_map key w).0 ≡ m = cc in
      subst (λ y. Holds key y (get_module_from_map key w).1) same (get_module_from_map-Holds key w)

  -- What a call gives is in the cache.
  pub get_module-Holds :
      (user func path : List ℕ) (m : IrModule) (w : World C)
      → (get_module a user func path w).0 ≡ ok m
      → Holds (get_module_key user func path) m (get_module a user func path w).1
  unfolding get_module get_main_module get_shared_module
  get_module-Holds user func [] m w h = read_back-Holds (get_module_key user func []) m _ h
  get_module-Holds user func (c ∷ path) m w h =
      read_back-Holds (get_module_key user func (c ∷ path)) m _ h

  -- A module in the cache is given without a load.
  pub get_module_held :
      (user func path : List ℕ) (m : IrModule) (w : World C)
      → Holds (get_module_key user func path) m w
      → (get_module a user func path w).0 ≡ ok m
  unfolding get_module get_main_module get_shared_module read_back
  get_module_held user func [] m w h =
      let key = get_module_key user func [] in
      let there : is_in (w.module_map key) ≡ true = rw (h.0) refl in
      rw there (ap ok (get_module_from_map_held key m w h))
  get_module_held user func (c ∷ path) m w h =
      let key = get_module_key user func (c ∷ path) in
      let there : is_in (w.module_map key) ≡ true = rw (h.0) refl in
      rw there (ap ok (get_module_from_map_held key m w h))

  -- A module that a call gave is the one that the same call gives after any further calls for this
  -- or other modules, compiled or not, and whatever was done to the object store in between.
  pub get_module-run :
      (user func path : List ℕ) (m : IrModule) (cs : List Call) (w : World C)
      → (get_module a user func path w).0 ≡ ok m
      → (get_module a user func path (run cs (get_module a user func path w).1)).0 ≡ ok m
  get_module-run user func path m cs w h =
      let key = get_module_key user func path in
      get_module_held user func path m (run cs (get_module a user func path w).1) (
        run_keeps key m cs (get_module a user func path w).1
          (get_module-Holds user func path m w h))
