-- ===== src/Dynamic/Layout.antt =====
-- The record that a dynamic module gets, and what `validate` says of it
-- (src/wavm/WAVMWasmModule.cpp and src/wavm/LoadedDynamicModule.cpp).
use faasm.Prelude.{ℕ, ◌+◌, ◌-◌, ◌^◌, ◌≤◌, ◌<◌, ◌≡◌, ◌↔◌, true, arith}
use faasm.Memory.Stacks.{guard_region_size}
use faasm.Dynamic.{
  validate, layout, dynamic_module_memory_size, dynamic_module_stack_size, memory_for_module,
  LoadedDynamicModule,
}

abbrev pub laid : ℕ → ℕ → ℕ → ℕ × ℕ → LoadedDynamicModule
laid path offset data_size table = record (layout path offset data_size table) { ptr = true }

-- The record of a dynamic module with a table that does not shrink passes the validation whatever the
-- size of its data below 2^31, although the data ends within the memory of the module only if it has
-- at most the bytes that the stack leaves: for regions and data that end below 2^32.
pub layout-validate :
    (path offset data_size old_elems new_elems : ℕ)
    → offset + memory_for_module < 2 ^ 32
    → offset + guard_region_size + dynamic_module_stack_size + data_size < 2 ^ 32
    → data_size < 2 ^ 31
    → old_elems ≤ new_elems
    → (validate (laid path offset data_size (old_elems, new_elems)) ≡ true)
      × (((laid path offset data_size (old_elems, new_elems)).data_top
            ≤ (laid path offset data_size (old_elems, new_elems)).memory_top)
          ↔ (data_size ≤ dynamic_module_memory_size - dynamic_module_stack_size))
unfolding validate layout
layout-validate path offset data_size old_elems new_elems h b d t =
    (ground arith, ((λ x. omega arith), (λ x. omega arith)))
