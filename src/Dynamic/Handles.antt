-- ===== src/Dynamic/Handles.antt =====
-- The handles of dynamic modules (`dynamicLoadModule` of src/wavm/WAVMWasmModule.cpp).
use faasm.Prelude.{
  ℕ, ◌+◌, ◌≤◌, ◌<◌, ◌≡◌, refl, sym, ap, ◌∙◌, Bool, true, false, ◌&&◌, Option, none, some, List, [],
  ◌∷◌, ◌==◌, if◌then◌else◌, Result, ok, err, length, arith, Bool-cases, inl, inr,
}
use faasm.Prelude.Maps.{NumberMap, find, put, find-put}
use faasm.Memory.{Runtime, Error, grow_memory}
use faasm.Dynamic.{
  LoadedDynamicModule, PathKind, file, Load, Linker, memory_for_module, create_module_instance,
  next_handle, dynamic_load_module, register, load_cached, record_module, with_table,
}

-- Every key is below the next handle, every path has a handle from 2 on below it, and no two paths
-- have the same.
pub record WellNumbered (paths : NumberMap ℕ) (modules : NumberMap LoadedDynamicModule)
    : Type 0 where
  pub keys_below : (h : ℕ) → 2 + length modules ≤ h → find h modules ≡ none
  pub handles_bound : (p h : ℕ) → find p paths ≡ some h → (2 ≤ h) × (h < 2 + length modules)
  pub handles_differ : (p q h : ℕ) → find p paths ≡ some h → find q paths ≡ some h → p ≡ q

-- A load, with the path and what the path is.
abbrev pub Request : Type 0
Request = ℕ × PathKind × Load

module _ {M : Type 0} (w : Runtime M) where
  abbrev pub after : List Request → Linker M → Linker M
  after [] s = s
  after ((path, kind, load) ∷ later) s = after later (dynamic_load_module w path kind load s).1

  -- At each load the table and the memory can grow; the rest of the load may fail.
  abbrev pub GetsMemory : List Request → Linker M → Type 0
  GetsMemory [] s = Unit
  GetsMemory ((path, kind, load) ∷ later) s =
      ((table : ℕ × ℕ) × (offset : ℕ) × (load.table_growth ≡ some table)
        × ((grow_memory w s.memory memory_for_module).0 ≡ ok offset))
      × GetsMemory later (dynamic_load_module w path kind load s).1

  abbrev Numbered : Linker M → Type 0
  Numbered s = WellNumbered s.dynamic_path_to_handle_map s.dynamic_module_map

  abbrev pub no_modules : M → Linker M
  no_modules m = record {
    memory = m;
    dynamic_path_to_handle_map = [];
    dynamic_module_map = [];
    last_loaded_dynamic_module_handle = 0;
  }

  create-paths :
      (path handle : ℕ) (load : Load) (s : Linker M)
      → (create_module_instance w path handle load s).1.dynamic_path_to_handle_map
        ≡ s.dynamic_path_to_handle_map
  unfolding create_module_instance
  create-paths path handle load s = by_table load.table_growth
    where
      by_growth :
          (table : ℕ × ℕ) (r : Result Error ℕ × M)
          → (record_module path handle load table s r).1.dynamic_path_to_handle_map
            ≡ s.dynamic_path_to_handle_map
      by_growth table (err e, m) = refl
      by_growth table (ok offset, m) = elim (Bool-cases load.links) [
        | inl e ↦ rw e refl
        | inr e ↦ rw e refl
      ]

      by_table :
          (table : Option (ℕ × ℕ))
          → (with_table w path handle load s table).1.dynamic_path_to_handle_map
            ≡ s.dynamic_path_to_handle_map
      by_table none = refl
      by_table (some table) = by_growth table (grow_memory w s.memory memory_for_module)

  cached :
      (p : ℕ) (load : Load) (s : Linker M) (h : ℕ)
      → find p s.dynamic_path_to_handle_map ≡ some h
      → (dynamic_load_module w p file load s).0 ≡ some h
  unfolding dynamic_load_module
  cached p load s h e = ap (λ o. (load_cached w p file load s o).0) e

  failed_load :
      (p : ℕ) (failing : Load) (s : Linker M)
      → find p s.dynamic_path_to_handle_map ≡ none
      → failing.table_growth ≡ none
      → dynamic_load_module w p file failing s ≡ (none, register p s)
  unfolding dynamic_load_module create_module_instance
  failed_load p failing s np t = rw np (rw t refl)

  new_load :
      (q h : ℕ) (load : Load) (s : Linker M)
      → find q s.dynamic_path_to_handle_map ≡ none
      → (dynamic_load_module w q file load s).0 ≡ some h
      → (h ≡ next_handle s)
        × ((dynamic_load_module w q file load s).1.dynamic_path_to_handle_map
            ≡ put q (next_handle s) s.dynamic_path_to_handle_map)
  unfolding dynamic_load_module
  new_load q h load s nq e =
      let created = create_module_instance w q (next_handle s) load (register q s) in
      let at : (if created.0 && load.initialises then some (next_handle s) else none) ≡ some h =
        sym (ap (λ o. (load_cached w q file load s o).0) nq) ∙ e in
      (
        same (created.0 && load.initialises) at,
        ap (λ o. (load_cached w q file load s o).1.dynamic_path_to_handle_map) nq
            ∙ create-paths q (next_handle s) load (register q s),
      )
    where
      same : (b : Bool) → (if b then some (next_handle s) else none) ≡ some h → h ≡ next_handle s
      same true e = cc
      same false e = cc

  -- When the table cannot be grown for a new file, the file keeps the handle of its failed load, and
  -- the next new file that is loaded gets the same: loading the first file again then gives the handle
  -- of the second, and throws no more.
  pub dynamic_load_module-shared :
      (p q : ℕ) (failing load again : Load) (s : Linker M)
      → find p s.dynamic_path_to_handle_map ≡ none
      → find q s.dynamic_path_to_handle_map ≡ none
      → (p == q) ≡ false
      → failing.table_growth ≡ none
      → (h : ℕ)
      → (dynamic_load_module w q file load (dynamic_load_module w p file failing s).1).0 ≡ some h
      → (dynamic_load_module w p file again
          (dynamic_load_module w q file load (dynamic_load_module w p file failing s).1).1).0
        ≡ some h
  dynamic_load_module-shared p q failing load again s np nq differ t h e =
      let first = failed_load p failing s np t in
      let n = next_handle s in
      let paths = s.dynamic_path_to_handle_map in
      let second =
        new_load q h load (register p s)
          (find-put q p n paths ∙ ap (λ b. if b then some n else find q paths) differ ∙ nq)
          (ap (λ r. (dynamic_load_module w q file load r.1).0) (sym first) ∙ e) in
      let other : (q == p) ≡ false = ground arith in
      let self : (p == p) ≡ true = ground arith in
      ap (λ r. (dynamic_load_module w p file again (dynamic_load_module w q file load r.1).1).0)
        first
      ∙ cached p again (dynamic_load_module w q file load (register p s)).1 n (
          ap (find p) second.1
          ∙ find-put p q n (put p n paths)
          ∙ ap (λ b. if b then some n else find p (put p n paths)) other
          ∙ find-put p p n paths
          ∙ ap (λ b. if b then some n else find p paths) self)
      ∙ ap some (sym second.0)
