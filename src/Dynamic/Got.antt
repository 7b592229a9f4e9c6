-- ===== src/Dynamic/Got.antt =====
-- The global offset table of a module (`addModuleToGOT`, the entries of `GOT.func` and `GOT.mem` in
-- `resolve`, the placeholders in `createModuleInstance`, `getDynamicModuleFunction`, src/wavm/WAVMWasmModule.cpp). Names and
-- functions are numbers. What instances export is an argument, and the table grows up to a maximum.
use faasm.Prelude.{
  ℕ, zero, suc, ◌+◌, Bool, Option, none, some, List, [], ◌∷◌, ◌++◌, ltb, ◌==◌, if◌then◌else◌,
  Result, ok, err, length,
}
use faasm.Prelude.Maps.{NumberMap, find, insert}
use faasm.Prelude.Words.{add}
use faasm.Dynamic.{main_module_dynlink_handle}

-- The maps, and the table by its elements; an element is none until it is set.
pub record Got : Type 0 where
  pub global_offset_table_map : NumberMap ℕ
  pub global_offset_memory_map : NumberMap (ℕ × Bool)
  pub missing_global_offset_entries : NumberMap ℕ
  pub table : List (Option ℕ)

-- What `addModuleToGOT` reads of a module: the base offset of each element segment with the names of
-- its functions, which of them are exported, and the exported globals that start as a constant of 32
-- bits, with whether they are mutable.
pub record Exports : Type 0 where
  pub elem_segments : List (ℕ × List ℕ)
  pub is_exported : ℕ → Bool
  pub globals : List (ℕ × ℕ × Bool)

unfoldable pub add_elems : (ℕ → Bool) → ℕ → List ℕ → NumberMap ℕ → NumberMap ℕ
unfolding insert
add_elems is_exported table_idx [] m = m
add_elems is_exported table_idx (name ∷ names) m =
    add_elems is_exported (table_idx + 1) names
      (if is_exported name then insert name table_idx m else m)

-- The base of a main module's segments is their own; that of a dynamic module's is given.
abbrev pub base_of : Option ℕ → ℕ → ℕ
base_of none base_offset = base_offset
base_of (some table_bottom) base_offset = table_bottom

unfoldable pub add_segments : (ℕ → Bool) → Option ℕ → List (ℕ × List ℕ) → NumberMap ℕ → NumberMap ℕ
unfolding add_elems
add_segments is_exported table_bottom [] m = m
add_segments is_exported table_bottom ((base_offset, names) ∷ segments) m =
    add_segments is_exported table_bottom segments
      (add_elems is_exported (base_of table_bottom base_offset) names m)

unfoldable pub add_globals : ℕ → List (ℕ × ℕ × Bool) → NumberMap (ℕ × Bool) → NumberMap (ℕ × Bool)
unfolding insert
add_globals offset [] m = m
add_globals offset ((name, value, is_mutable) ∷ globals) m =
    add_globals offset globals (insert name (add offset value, is_mutable) m)

abbrev pub offset_or_zero : Option ℕ → ℕ
offset_or_zero none = 0
offset_or_zero (some data_bottom) = data_bottom

-- `addModuleToGOT`: for a dynamic module with the bottoms of its table and of its data.
unfoldable pub add_module_to_got : Exports → Option ℕ → Option ℕ → Got → Got
unfolding add_segments add_globals
add_module_to_got x table_bottom data_bottom g = record g {
  global_offset_table_map =
      add_segments x.is_exported table_bottom x.elem_segments g.global_offset_table_map;
  global_offset_memory_map =
      add_globals (offset_or_zero data_bottom) x.globals g.global_offset_memory_map;
}

pub data GotError : Type 0 where
  table_not_grown missing_function missing_module not_in_got : GotError

module _ (table_max : ℕ) where
  -- A function that a loaded module exports goes to the end of the table; for another a placeholder
  -- does, to be set later.
  unfoldable pub new_entry : ℕ → Got → Option ℕ → Result GotError (ℕ × Got)
  unfolding insert
  new_entry name g (some resolved_func) =
      if ltb (length g.table) table_max
      then ok (
        length g.table,
        record g {
          table = g.table ++ some resolved_func ∷ [];
          global_offset_table_map = insert name (length g.table) g.global_offset_table_map;
        },
      )
      else err table_not_grown
  new_entry name g none =
      if ltb (length g.table) table_max
      then ok (
        length g.table,
        record g {
          table = g.table ++ none ∷ [];
          missing_global_offset_entries =
              insert name (length g.table) g.missing_global_offset_entries;
        },
      )
      else err table_not_grown

  abbrev pub entry_or_new : ℕ → Got → Option ℕ → Option ℕ → Result GotError (ℕ × Got)
  entry_or_new name g exported (some table_idx) = ok (table_idx, g)
  entry_or_new name g exported none = new_entry name g exported

  -- An import of GOT.func: its index in the table. `exported` is what the main module, or the first of
  -- the dynamic modules that has it, exports under the name.
  unfoldable pub resolve_func : (ℕ → Option ℕ) → ℕ → Got → Result GotError (ℕ × Got)
  unfolding find new_entry
  resolve_func exported name g =
      entry_or_new name g (exported name) (find name g.global_offset_table_map)

-- What the env module, the main module, the wasi module and the dynamic modules export. A dynamic
-- module whose instance was never made has no entry here: the source would read a null pointer.
pub record Instances : Type 0 where
  pub env_export : ℕ → Option ℕ
  pub main_export : ℕ → Option ℕ
  pub wasi_export : ℕ → Option ℕ
  pub dynamic_export : NumberMap (ℕ → Option ℕ)

abbrev pub first_of : Option ℕ → Option ℕ → Option ℕ
first_of none next = next
first_of (some exported_func) next = some exported_func

abbrev pub found_function : Option ℕ → Result GotError ℕ
found_function none = err missing_function
found_function (some exported_func) = ok exported_func

abbrev pub export_of : ℕ → Option (ℕ → Option ℕ) → Result GotError ℕ
export_of name none = err missing_module
export_of name (some target_module) = found_function (target_module name)

unfoldable pub find_function : Instances → ℕ → ℕ → Result GotError ℕ
unfolding find
find_function x handle name =
    if handle == main_module_dynlink_handle
    then found_function
        (first_of (x.env_export name) (first_of (x.main_export name) (x.wasi_export name)))
    else export_of name (find handle x.dynamic_export)

-- `addFunctionToTable`, which leaves the maps as they are.
unfoldable pub add_function_to_table : ℕ → ℕ → Got → Result GotError (ℕ × Got)
add_function_to_table table_max exported_func g =
    if ltb (length g.table) table_max
    then ok (length g.table, record g { table = g.table ++ some exported_func ∷ [] })
    else err table_not_grown

abbrev pub add_found : ℕ → Got → Result GotError ℕ → Result GotError (ℕ × Got)
add_found table_max g (err e) = err e
add_found table_max g (ok exported_func) = add_function_to_table table_max exported_func g

-- `getDynamicModuleFunction`.
unfoldable pub get_dynamic_module_function : ℕ → Instances → ℕ → ℕ → Got → Result GotError (ℕ × Got)
unfolding find_function add_function_to_table
get_dynamic_module_function table_max x handle name g =
    add_found table_max g (find_function x handle name)

-- An import of GOT.mem: the value of its global.
abbrev mem_entry : Option (ℕ × Bool) → Result GotError ℕ
mem_entry none = err not_in_got
mem_entry (some (value, is_mutable)) = ok value

unfoldable pub resolve_mem : ℕ → Got → Result GotError ℕ
unfolding find
resolve_mem name g = mem_entry (find name g.global_offset_memory_map)

-- `setTableElement`.
unfoldable pub set_element : ℕ → ℕ → List (Option ℕ) → List (Option ℕ)
set_element i f [] = []
set_element zero f (x ∷ table) = some f ∷ table
set_element (suc i) f (x ∷ table) = x ∷ set_element i f table

-- The placeholders once the module is instantiated, by what it exports; one that it does not export is
-- an exception, and what was filled before it stays.
unfoldable pub fill_entry :
    (Got → Option GotError × Got) → ℕ → ℕ → Got → Option ℕ → Option GotError × Got
unfolding set_element insert
fill_entry more name table_idx g none = (some missing_function, g)
fill_entry more name table_idx g (some missing) = more (record g {
  table = set_element table_idx missing g.table;
  global_offset_table_map = insert name table_idx g.global_offset_table_map;
})

unfoldable pub fill_entries : (ℕ → Option ℕ) → NumberMap ℕ → Got → Option GotError × Got
unfolding fill_entry
fill_entries instance_export [] g = (none, record g { missing_global_offset_entries = [] })
fill_entries instance_export ((name, table_idx) ∷ entries) g =
    fill_entry (fill_entries instance_export entries) name table_idx g (instance_export name)

unfoldable pub fill_missing : (ℕ → Option ℕ) → Got → Option GotError × Got
unfolding fill_entries
fill_missing instance_export g = fill_entries instance_export g.missing_global_offset_entries g
