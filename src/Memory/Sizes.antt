-- ===== src/Memory/Sizes.antt =====
-- What the code relies on of the WAVM runtime, and the arithmetic of pages.
use faasm.Prelude.{ℕ, ◌+◌, ◌%◌, ◌^◌, ◌≤◌, ◌<◌, ◌≡◌, ◌≢◌, arith}
use faasm.Memory.{
  page_bytes, Runtime, success, get_number_of_wasm_pages_for_bytes, round_up_to_wasm_page_aligned,
}

-- The documented behaviour of the runtime: a call that succeeds moves the size by what it was
-- asked for and says where from or where to; one that fails changes nothing; the maximum stays, and
-- is below 4 GB.
pub record Laws {M : Type 0} (w : Runtime M) : Type 0 where
  pub max_bound : (m : M) → w.max_pages m < 65536
  pub size_bound : (m : M) → w.num_pages m ≤ w.max_pages m
  pub grow_max : (m : M) (k : ℕ) → w.max_pages (w.grow m k).2 ≡ w.max_pages m
  pub grow_pages :
      (m : M) (k : ℕ) → (w.grow m k).0 ≡ success → w.num_pages (w.grow m k).2 ≡ w.num_pages m + k
  pub grow_base : (m : M) (k : ℕ) → (w.grow m k).0 ≡ success → (w.grow m k).1 ≡ w.num_pages m
  pub grow_failure :
      (m : M) (k : ℕ) → (w.grow m k).0 ≢ success → w.num_pages (w.grow m k).2 ≡ w.num_pages m
  pub shrink_max : (m : M) (k : ℕ) → w.max_pages (w.shrink m k).2 ≡ w.max_pages m
  pub shrink_pages :
      (m : M) (k : ℕ)
      → k ≤ w.num_pages m
      → (w.shrink m k).0 ≡ success
      → (w.num_pages (w.shrink m k).2 + k ≡ w.num_pages m)
        × ((w.shrink m k).1 ≡ w.num_pages (w.shrink m k).2)
  pub shrink_failure :
      (m : M) (k : ℕ) → (w.shrink m k).0 ≢ success → w.num_pages (w.shrink m k).2 ≡ w.num_pages m

-- Below 4 GB less a page, `roundUpToWasmPageAligned` gives the least multiple of the page size
-- that is not below its argument.
pub round_up_least :
    (n : ℕ)
    → n + page_bytes ≤ 2 ^ 32
    → (round_up_to_wasm_page_aligned n % page_bytes ≡ 0)
      × (n ≤ round_up_to_wasm_page_aligned n)
      × (round_up_to_wasm_page_aligned n < n + page_bytes)
unfolding round_up_to_wasm_page_aligned get_number_of_wasm_pages_for_bytes
round_up_least n h = ground arith

pub round_up-bound :
    (n : ℕ)
    → (round_up_to_wasm_page_aligned n < 2 ^ 32)
      × (round_up_to_wasm_page_aligned n % page_bytes ≡ 0)
unfolding round_up_to_wasm_page_aligned get_number_of_wasm_pages_for_bytes
round_up-bound n = ground arith
