-- ===== src/Uffd/Faults.antt =====
-- `sigbusHandler` of src/wasm/UffdMemoryArenaManager.cpp. The range that the thread's weak pointer
-- still gives is an argument. `x & ~(FAULT_PAGE_SIZE - 1)` is `x / 65536 * 65536`.
use Prim.Native.Nat.{min}
use faasm.Prelude.{
  ℕ, ◌+◌, ◌-◌, ◌*◌, ◌/◌, Bool, true, false, Option, none, some, ltb, ◌==◌, if◌then◌else◌,
}
use faasm.Uffd.{Range, pointer_in_range, pointer_permissions, touch}
use faasm.Uffd.Arena.{Ranges, find_range}

abbrev fault_page_size : ℕ
fault_page_size = 65536

pub data Outcome : Type 0 where
  terminate exit_process kill_thread : Outcome
  -- Address, size, offset into the initial content.
  copy_pages : ℕ → ℕ → ℕ → Outcome
  zero_pages : ℕ → ℕ → Outcome

-- The cached range if it holds the pointer, else the one of the set.
unfoldable pub lookup_range : Option Range → Ranges → ℕ → Option Range
lookup_range none rs fault = find_range fault rs
lookup_range (some cached) rs fault =
    if pointer_in_range cached fault then some cached else find_range fault rs

-- The part of the handler that runs with the range found: what it asks for, and the range after.
unfoldable pub serve_fault : Range → ℕ → Outcome × Range
serve_fault range fault =
    if pointer_permissions range.permissions fault == 0
    then (kill_thread, range)
    else (let offset = (fault - range.map_start) / fault_page_size * fault_page_size in
        let fault_end = min (offset + fault_page_size) range.map_bytes in
        let fault_size = fault_end - offset in
        let touched = touch range fault_end in
        if ltb offset range.init_source_size
        then (copy_pages (range.map_start + offset) fault_size offset, touched)
        else (zero_pages (range.map_start + offset) fault_size, touched))

-- The outcome, and the range as it is afterwards, if one was found.
unfoldable pub sigbus_handler : Bool → Option Range → Ranges → ℕ → Outcome × Option Range
unfolding lookup_range serve_fault
sigbus_handler false cached rs fault = (terminate, none)
sigbus_handler true cached rs fault = elim (lookup_range cached rs fault) [
  | none ↦ (exit_process, none)
  | some range ↦ let (outcome, range') = serve_fault range fault in (outcome, some range')
]

-- The pages that an outcome populates, as an address and a size.
unfoldable pub populated : Outcome → Option (ℕ × ℕ)
populated (copy_pages a n o) = some (a, n)
populated (zero_pages a n) = some (a, n)
populated _ = none
