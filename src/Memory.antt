-- ===== src/Memory.antt =====
-- The linear memory of a WAVM module: `growMemory`, `setMemorySize`, `mmapMemory`, `unmapMemory` of
-- src/wasm/WasmModule.cpp with the hooks `doGrowMemory`, `shrinkMemory`, `getMemorySizeBytes` of
-- src/wavm/WAVMWasmModule.cpp, and `sbrk` and `mmap` of src/wavm/memory.cpp. The WAVM runtime is not
-- part of the repository, so its memory is a parameter. An exception is an `err`, beside the
-- memory as it was left. WASM_BYTES_PER_PAGE is 65536 (CMakePresets.json).
pub mod Sizes
pub mod Grow
pub mod Shrink
pub mod Break
pub mod Stacks
use faasm.Prelude.{
  ℕ, ◌+◌, ◌-◌, ◌*◌, ◌/◌, ◌%◌, ◌^◌, ◌≤◌, ◌<◌, ◌≡◌, Bool, true, false, not, ◌&&◌, ◌||◌, Result, ok,
  err, ltb, leb, ◌==◌, if◌then◌else◌,
}

abbrev pub page_bytes : ℕ
page_bytes = 65536

abbrev pub uint32_max : ℕ
uint32_max = 4294967295

-- `Runtime::GrowResult`.
pub data GrowResult : Type 0 where
  success out_of_memory out_of_max_size out_of_quota : GrowResult

-- What the code calls of the WAVM runtime. Growing gives the result, the page that the new region
-- begins at, and the memory after it; shrinking the result, the new number of pages, and the
-- memory.
pub record Runtime (M : Type 0) : Type 0 where
  pub num_pages : M → ℕ
  pub max_pages : M → ℕ
  pub grow : M → ℕ → GrowResult × ℕ × M
  pub shrink : M → ℕ → GrowResult × ℕ × M

pub data Error : Type 0 where
  not_page_aligned exceeds_max grow_failed growth_discrepancy beyond_break shrink_failed : Error

pub is_wasm_page_aligned : ℕ → Bool
is_wasm_page_aligned offset = offset % 2 ^ 32 % page_bytes == 0

unfoldable pub get_number_of_wasm_pages_for_bytes : ℕ → ℕ
get_number_of_wasm_pages_for_bytes n_bytes = (n_bytes + (page_bytes - 1)) % 2 ^ 64 / page_bytes

unfoldable pub round_up_to_wasm_page_aligned : ℕ → ℕ
unfolding get_number_of_wasm_pages_for_bytes
round_up_to_wasm_page_aligned n_bytes =
    get_number_of_wasm_pages_for_bytes (n_bytes % 2 ^ 32) * page_bytes % 2 ^ 32

module _ {M : Type 0} (w : Runtime M) where
  abbrev pub get_memory_size_bytes : M → ℕ
  get_memory_size_bytes m = w.num_pages m * page_bytes

  -- `getCurrentBrk` gives a `uint32_t`.
  abbrev pub get_current_brk : M → ℕ
  get_current_brk m = get_memory_size_bytes m % 2 ^ 32

  unfoldable pub do_grow_memory : M → ℕ → Result Error Bool × M
  do_grow_memory m page_change =
      let (result, new_mem_page_base, m') = w.grow m page_change in
      if not (new_mem_page_base * page_bytes % 2 ^ 32 == get_memory_size_bytes m)
      then (err growth_discrepancy, m')
      else (ok (elim result [ success ↦ true | _ ↦ false ]), m')

  -- After `doGrowMemory`: the check of the new size.
  unfoldable pub check_growth : ℕ → ℕ → Result Error Bool × M → Result Error ℕ × M
  check_growth old_bytes new_bytes (err e, m) = (err e, m)
  check_growth old_bytes new_bytes (ok false, m) = (err grow_failed, m)
  check_growth old_bytes new_bytes (ok true, m) =
      if get_memory_size_bytes m == new_bytes
      then (ok old_bytes, m)
      else (err growth_discrepancy, m)

  unfoldable pub grow_memory : M → ℕ → Result Error ℕ × M
  unfolding is_wasm_page_aligned get_number_of_wasm_pages_for_bytes
  grow_memory m n_bytes =
      let old_bytes = get_current_brk m in
      let new_brk = (old_bytes + n_bytes) % 2 ^ 32 in
      let new_bytes = (old_bytes + n_bytes) % 2 ^ 64 in
      let old_pages = get_number_of_wasm_pages_for_bytes old_bytes % 2 ^ 32 in
      let new_pages = get_number_of_wasm_pages_for_bytes new_bytes % 2 ^ 32 in
      if n_bytes == 0
      then (ok (get_current_brk m), m)
      else if not (is_wasm_page_aligned new_brk)
      then (err not_page_aligned, m)
      else if ltb uint32_max new_bytes || ltb (w.max_pages m) new_pages
      then (err exceeds_max, m)
      else check_growth old_bytes new_bytes
          (do_grow_memory m ((new_pages + 2 ^ 32 - old_pages) % 2 ^ 32))

  unfoldable pub check_shrink : GrowResult × ℕ × M → Result Error ℕ × M
  check_shrink (success, new_num_pages, m) = (ok (new_num_pages * page_bytes % 2 ^ 32), m)
  check_shrink (_, _, m) = (err shrink_failed, m)

  unfoldable pub shrink_memory : M → ℕ → Result Error ℕ × M
  unfolding is_wasm_page_aligned get_number_of_wasm_pages_for_bytes
  shrink_memory m n_bytes =
      if not (is_wasm_page_aligned n_bytes)
      then (err not_page_aligned, m)
      else if ltb (get_current_brk m) n_bytes
      then (err beyond_break, m)
      else check_shrink (w.shrink m (get_number_of_wasm_pages_for_bytes n_bytes))

  unfoldable pub mmap_memory : M → ℕ → Result Error ℕ × M
  mmap_memory m n_bytes = grow_memory m (round_up_to_wasm_page_aligned n_bytes)

  abbrev pub without_value : Result Error ℕ × M → Result Error (Unit {0}) × M
  without_value (ok _, m) = (ok tt, m)
  without_value (err e, m) = (err e, m)

  unfoldable pub set_memory_size : M → ℕ → Result Error (Unit {0}) × M
  set_memory_size m n_bytes =
      let mem_size = get_current_brk m in
      if ltb mem_size n_bytes
      then without_value (grow_memory m (n_bytes - mem_size))
      else if ltb n_bytes mem_size
      then without_value (shrink_memory m (mem_size - n_bytes))
      else (ok tt, m)

  -- `__sbrk` of src/wavm/memory.cpp: whether the increment is negative, and its size.
  unfoldable pub sbrk : M → Bool × ℕ → Result Error ℕ × M
  sbrk m (true, decrement) = shrink_memory m decrement
  sbrk m (false, increment) = grow_memory m increment

  unfoldable pub unmap_memory : M → ℕ → ℕ → Result Error (Unit {0}) × M
  unfolding is_wasm_page_aligned round_up_to_wasm_page_aligned
  unmap_memory m offset n_bytes =
      let page_aligned = round_up_to_wasm_page_aligned n_bytes in
      let unmap_top = (offset + page_aligned) % 2 ^ 32 in
      if n_bytes == 0
      then (ok tt, m)
      else if not (is_wasm_page_aligned offset)
      then (err not_page_aligned, m)
      else if ltb (w.max_pages m * page_bytes) unmap_top
      then (err exceeds_max, m)
      else if unmap_top == get_memory_size_bytes m
      then without_value (shrink_memory m page_aligned)
      else (ok tt, m)
