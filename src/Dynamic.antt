-- ===== src/Dynamic.antt =====
-- Dynamic modules: `dynamicLoadModule` and the part of `createModuleInstance` for a dynamic module
-- (src/wavm/WAVMWasmModule.cpp), and `LoadedDynamicModule` (src/wavm/LoadedDynamicModule.cpp). The
-- memory is that of `Memory`. A path is a number. What the table, the module registry, the linker
-- and the constructors of a module do is an argument; `none` is an exception.
use faasm.Prelude.{
  ℕ, ◌+◌, ◌*◌, ◌%◌, ◌^◌, Bool, true, false, ◌&&◌, Option, none, some, List, [], ◌==◌, ltb, leb,
  if◌then◌else◌, Result, ok, err, length,
}
use faasm.Prelude.Maps.{NumberMap, find, put}
use faasm.Prelude.Words.{add, sub, signed_less}
use faasm.Memory.{Runtime, Error, grow_memory}
use faasm.Memory.Stacks.{guard_region_size}
pub mod Layout
pub mod Handles
pub mod Got
pub mod Pointers

abbrev pub dynamic_module_stack_size : ℕ
dynamic_module_stack_size = 2097152

-- 66 pages.
abbrev pub dynamic_module_memory_size : ℕ
dynamic_module_memory_size = 4325376

pub record LoadedDynamicModule : Type 0 where
  pub path : ℕ
  pub memory_bottom : ℕ
  pub memory_top : ℕ
  pub stack_top : ℕ
  pub stack_pointer : ℕ
  pub stack_size : ℕ
  pub data_bottom : ℕ
  pub data_top : ℕ
  pub heap_bottom : ℕ
  pub table_bottom : ℕ
  pub table_top : ℕ
  -- Whether the instance is set.
  pub ptr : Bool

-- `LoadedDynamicModule::validate`.
unfoldable pub validate : LoadedDynamicModule → Bool
validate d =
    let data_size = sub d.data_top d.data_bottom in
    let mem_size = sub d.memory_top d.memory_bottom in
    let heap_size = sub d.memory_top d.heap_bottom in
    ltb d.memory_bottom d.memory_top
    && d.stack_top == add d.memory_bottom d.stack_size
    && d.data_top == d.heap_bottom
    && add d.stack_top data_size == d.heap_bottom
    && d.stack_pointer == sub d.stack_top 1
    && ltb 0 d.stack_size
    && leb d.table_bottom d.table_top
    && d.ptr
    && signed_less heap_size mem_size

-- The record of a module whose memory begins with a guard region at `mem_offset`.
unfoldable pub layout : ℕ → ℕ → ℕ → ℕ × ℕ → LoadedDynamicModule
layout path mem_offset data_size (old_elems, new_elems) =
    let bottom = add mem_offset guard_region_size in
    let stack_top = add bottom dynamic_module_stack_size in
    let data_top = add stack_top data_size in
    record {
      path = path;
      memory_bottom = bottom;
      memory_top = add bottom dynamic_module_memory_size;
      stack_top = stack_top;
      stack_pointer = sub stack_top 1;
      stack_size = dynamic_module_stack_size;
      data_bottom = stack_top;
      data_top = data_top;
      heap_bottom = data_top;
      table_bottom = old_elems;
      table_top = new_elems;
      ptr = false;
    }

-- What a path is in the file system.
pub data PathKind : Type 0 where
  empty directory missing file : PathKind

-- What loading a module meets: the table's elements before and after its growth, unless that fails;
-- the size of the data; whether the module links, and whether its constructors run.
pub record Load : Type 0 where
  pub table_growth : Option (ℕ × ℕ)
  pub data_size : ℕ
  pub links : Bool
  pub initialises : Bool

pub record Linker (M : Type 0) : Type 0 where
  pub memory : M
  pub dynamic_path_to_handle_map : NumberMap ℕ
  pub dynamic_module_map : NumberMap LoadedDynamicModule
  pub last_loaded_dynamic_module_handle : ℕ

abbrev pub main_module_dynlink_handle : ℕ
main_module_dynlink_handle = 999

abbrev pub memory_for_module : ℕ
memory_for_module = dynamic_module_memory_size + 2 * guard_region_size

abbrev pub with_instance : LoadedDynamicModule → LoadedDynamicModule
with_instance d = record d { ptr = true }

abbrev last_of : ℕ → Option LoadedDynamicModule → Option LoadedDynamicModule
last_of h found = if h == 0 then none else found

module _ {M : Type 0} where
  -- After the record is made: linking, the instance, and the validation.
  abbrev pub finish_instance : ℕ → Load → LoadedDynamicModule → Linker M → Bool × Linker M
  finish_instance handle load d s =
      if load.links
      then (
        validate (with_instance d),
        record s { dynamic_module_map = put handle (with_instance d) s.dynamic_module_map },
      )
      else (false, record s { dynamic_module_map = put handle d s.dynamic_module_map })

  abbrev pub record_module : ℕ → ℕ → Load → ℕ × ℕ → Linker M → Result Error ℕ × M → Bool × Linker M
  record_module path handle load table s (err e, m) = (false, record s { memory = m })
  record_module path handle load table s (ok mem_offset, m) =
      finish_instance handle load (layout path mem_offset load.data_size table)
        (record s { memory = m })

  abbrev pub next_handle : Linker M → ℕ
  next_handle s = 2 + length s.dynamic_module_map

  abbrev pub register : ℕ → Linker M → Linker M
  register path s = record s {
    dynamic_path_to_handle_map = put path (next_handle s) s.dynamic_path_to_handle_map;
    last_loaded_dynamic_module_handle = next_handle s;
  }

  -- `getLastLoadedDynamicModule`.
  unfoldable pub get_last_loaded_dynamic_module : Linker M → Option LoadedDynamicModule
  unfolding find
  get_last_loaded_dynamic_module s =
      last_of s.last_loaded_dynamic_module_handle
        (find s.last_loaded_dynamic_module_handle s.dynamic_module_map)

module _ {M : Type 0} (w : Runtime M) where
  abbrev pub with_table : ℕ → ℕ → Load → Linker M → Option (ℕ × ℕ) → Bool × Linker M
  with_table path handle load s none = (false, s)
  with_table path handle load s (some table) =
      record_module path handle load table s (grow_memory w s.memory memory_for_module)

  -- `createModuleInstance` of a dynamic module: whether it returns, and what it leaves.
  unfoldable pub create_module_instance : ℕ → ℕ → Load → Linker M → Bool × Linker M
  unfolding put validate layout grow_memory
  create_module_instance path handle load s = with_table path handle load s load.table_growth

  abbrev pub load_new : ℕ → PathKind → Load → Linker M → Option ℕ × Linker M
  load_new path empty load s = (some main_module_dynlink_handle, s)
  load_new path directory load s = (some 0, s)
  load_new path missing load s = (some 0, s)
  load_new path file load s =
      let (created, s') = create_module_instance path (next_handle s) load (register path s) in
      (if created && load.initialises then some (next_handle s) else none, s')

  abbrev pub load_cached : ℕ → PathKind → Load → Linker M → Option ℕ → Option ℕ × Linker M
  load_cached path kind load s (some cached_handle) = (some cached_handle, s)
  load_cached path kind load s none = load_new path kind load s

  -- `dynamicLoadModule`.
  unfoldable pub dynamic_load_module : ℕ → PathKind → Load → Linker M → Option ℕ × Linker M
  unfolding create_module_instance find put
  dynamic_load_module path kind load s =
      load_cached path kind load s (find path s.dynamic_path_to_handle_map)
