-- ===== src/Examples/Modules.antt =====
-- Runs of the dynamic modules of src/wavm/WAVMWasmModule.cpp.
use faasm.Prelude.{
  Option, ◌==◌, if◌then◌else◌, ok, ℕ, ◌-◌, ◌≤◌, ◌≡◌, ◌↔◌, refl, true, none, some, List, [], ◌∷◌,
  arith,
}
use faasm.Prelude.Maps.{find, put, insert}
use faasm.Memory.{grow_memory, do_grow_memory, check_growth}
use faasm.Dynamic.{
  file, missing, Load, Linker, validate, dynamic_module_memory_size, dynamic_module_stack_size,
  dynamic_load_module, create_module_instance,
}
use faasm.Dynamic.Layout.{laid, layout-validate}
use faasm.Dynamic.Handles.{Request, after, no_modules}
use faasm.Dynamic.Got.{
  Instances, get_dynamic_module_function, find_function, add_function_to_table, Got,
  add_module_to_got, add_segments, add_elems, set_element, Exports, resolve_func, new_entry,
  fill_missing, fill_entries, fill_entry,
}
use faasm.Dynamic.Pointers.{Event, added, imported, filled, looked_up, run, step, resolve_func-run}
use faasm.Examples.Sizes.{runtime}

layout-validate_example :
    (validate (laid 5 1310720 3000000 (10, 12)) ≡ true)
    × (((laid 5 1310720 3000000 (10, 12)).data_top ≤ (laid 5 1310720 3000000 (10, 12)).memory_top)
        ↔ (3000000 ≤ dynamic_module_memory_size - dynamic_module_stack_size))
layout-validate_example =
    layout-validate 5 1310720 3000000 10 12 (omega arith) (omega arith) (omega arith) (omega arith)

abbrev good : Load
good = record { table_growth = some (10, 12); data_size = 4096; links = true; initialises = true }

abbrev no_table : Load
no_table = record { table_growth = none; data_size = 4096; links = true; initialises = true }

abbrev requests : List Request
requests = (5, file, good) ∷ (6, missing, good) ∷ (7, file, good) ∷ []

abbrev loaded : Linker ℕ
loaded = after runtime requests (no_modules runtime 10)

second_loads :
    (dynamic_load_module runtime 6 file good
      (dynamic_load_module runtime 5 file no_table (no_modules runtime 10)).1).0
    ≡ some 2
unfolding grow_memory do_grow_memory check_growth dynamic_load_module create_module_instance put
    find
second_loads = refl

nothing_there : (p : ℕ) → find p (no_modules runtime 10).dynamic_path_to_handle_map ≡ none
unfolding find
nothing_there p = refl

abbrev table_of_two : Got
table_of_two = record {
  global_offset_table_map = (20, 0) ∷ [];
  global_offset_memory_map = [];
  missing_global_offset_entries = [];
  table = some 200 ∷ some 210 ∷ [];
}

abbrev exports_thirty : ℕ → Option ℕ
exports_thirty name = if name == 30 then some 300 else none

abbrev table_of_three : Got
table_of_three = record {
  global_offset_table_map = (20, 0) ∷ (30, 2) ∷ [];
  global_offset_memory_map = [];
  missing_global_offset_entries = [];
  table = some 200 ∷ some 210 ∷ some 300 ∷ [];
}

abbrev exports_nothing : ℕ → Option ℕ
exports_nothing name = none

abbrev exports_all : ℕ → Option ℕ
exports_all name = some 400

abbrev adds_thirty : Exports
adds_thirty = record {
  elem_segments = (0, 30 ∷ 31 ∷ []) ∷ [];
  is_exported = λ name. true;
  globals = [];
}

abbrev one_module : Instances
one_module = record {
  env_export = exports_nothing;
  main_export = exports_thirty;
  wasi_export = exports_all;
  dynamic_export = (2, exports_all) ∷ [];
}

-- Another name becomes a placeholder, a module with elements of its own is added, the placeholder is
-- filled, and functions are looked up in the main module and in one that is not there.
abbrev later : List Event
later =
    imported exports_nothing 40
    ∷ added adds_thirty (some 8) (some 0)
    ∷ filled exports_all
    ∷ looked_up one_module 999 30
    ∷ looked_up one_module 3 30
    ∷ []

thirty_is_new : resolve_func 100 exports_thirty 30 table_of_two ≡ ok (2, table_of_three)
unfolding resolve_func find new_entry insert
thirty_is_new = refl

resolve_func-run_example :
    resolve_func 100 exports_nothing 30 (run 100 later table_of_three)
    ≡ ok (2, run 100 later table_of_three)
unfolding find
resolve_func-run_example =
    resolve_func-run 30 2 100 exports_thirty exports_nothing later table_of_two table_of_three
      thirty_is_new refl

forty_is_filled :
    (run 100 later table_of_three).table ≡ some 200 ∷ some 210 ∷ some 300 ∷ some 400 ∷ some 300 ∷ []
unfolding run step resolve_func find new_entry insert add_module_to_got add_segments add_elems
    fill_missing fill_entries fill_entry set_element get_dynamic_module_function find_function
    add_function_to_table
forty_is_filled = refl
