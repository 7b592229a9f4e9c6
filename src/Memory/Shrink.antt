-- ===== src/Memory/Shrink.antt =====
-- Shrinking the memory (`shrinkMemory` of src/wavm/WAVMWasmModule.cpp).
use faasm.Prelude.{
  ℕ, ◌+◌, ◌-◌, ◌*◌, ◌/◌, ◌%◌, ◌^◌, ◌≤◌, ◌<◌, ◌≡◌, ◌≢◌, refl, ap, ◌∙◌, ok, err, leb, ◌==◌, arith,
  Bool-cases, inl, inr, ◌⊎◌, ◌&&◌,
}
use faasm.Memory.{
  page_bytes, Runtime, GrowResult, success, Error, is_wasm_page_aligned, beyond_break,
  get_number_of_wasm_pages_for_bytes, get_memory_size_bytes, check_shrink, shrink_failed,
  not_page_aligned, out_of_memory, out_of_max_size, out_of_quota, shrink_memory,
}
use faasm.Memory.Sizes.{Laws}
use faasm.Memory.Grow.{GrowResult-cases}

module _ {M : Type 0} (w : Runtime M) (laws : Laws w) where
  shrink_memory-admitted :
      (m : M) (n : ℕ)
      → n % page_bytes ≡ 0
      → n ≤ get_memory_size_bytes w m
      → shrink_memory w m n ≡ check_shrink w (w.shrink m (n / page_bytes))
  unfolding shrink_memory is_wasm_page_aligned get_number_of_wasm_pages_for_bytes
  shrink_memory-admitted m n ha hn =
      let b = laws.size_bound m in let c = laws.max_bound m in ground arith

  shrink_memory-refused :
      (m : M) (n : ℕ)
      → n % page_bytes ≢ 0 ⊎ get_memory_size_bytes w m < n
      → (e : Error) × (shrink_memory w m n ≡ (err e, m))
  unfolding shrink_memory is_wasm_page_aligned get_number_of_wasm_pages_for_bytes
  shrink_memory-refused m n h =
      let b = laws.size_bound m in
      let c = laws.max_bound m in
      elim (Bool-cases (n % page_bytes == 0)) [
        | inl e ↦ (beyond_break, ground arith)
        | inr e ↦ (not_page_aligned, ground arith)
      ]

  check_shrink-success :
      (x : GrowResult × ℕ × M) (b : ℕ)
      → x.0 ≡ success
      → x.1 * page_bytes ≡ b
      → b < 2 ^ 32
      → check_shrink w x ≡ (ok b, x.2)
  unfolding check_shrink
  check_shrink-success (success, k, m) b e q h = ground arith
  check_shrink-success (out_of_memory, k, m) b e q h = cc
  check_shrink-success (out_of_max_size, k, m) b e q h = cc
  check_shrink-success (out_of_quota, k, m) b e q h = cc

  check_shrink-failure :
      (x : GrowResult × ℕ × M) → x.0 ≢ success → check_shrink w x ≡ (err shrink_failed, x.2)
  unfolding check_shrink
  check_shrink-failure (success, k, m) ne = elim (ne refl) [ ]
  check_shrink-failure (out_of_memory, k, m) ne = refl
  check_shrink-failure (out_of_max_size, k, m) ne = refl
  check_shrink-failure (out_of_quota, k, m) ne = refl

  -- Shrinking by whole pages that are there gives the new size, which is smaller by exactly what
  -- was asked for, if the runtime gives the pages back.
  pub shrink_memory_exact :
      (m : M) (n : ℕ)
      → n % page_bytes ≡ 0
      → n ≤ get_memory_size_bytes w m
      → (w.shrink m (n / page_bytes)).0 ≡ success
      → (shrink_memory w m n
          ≡ (ok (get_memory_size_bytes w m - n), (w.shrink m (n / page_bytes)).2))
        × (get_memory_size_bytes w (shrink_memory w m n).1 ≡ get_memory_size_bytes w m - n)
  shrink_memory_exact m n ha hn e = (whole, rw whole smaller)
    where
      d :
          (w.num_pages (w.shrink m (n / page_bytes)).2 + n / page_bytes ≡ w.num_pages m)
          × ((w.shrink m (n / page_bytes)).1 ≡ w.num_pages (w.shrink m (n / page_bytes)).2)
      d = laws.shrink_pages m (n / page_bytes) (omega arith) e

      smaller :
          get_memory_size_bytes w (w.shrink m (n / page_bytes)).2 ≡ get_memory_size_bytes w m - n
      smaller = let d0 = d.0 in omega arith

      whole :
          shrink_memory w m n
          ≡ (ok (get_memory_size_bytes w m - n), (w.shrink m (n / page_bytes)).2)
      whole =
          let b = laws.size_bound m in
          let c = laws.max_bound m in
          shrink_memory-admitted m n ha hn
          ∙ check_shrink-success (w.shrink m (n / page_bytes)) (get_memory_size_bytes w m - n) e
              (rw d.1 smaller) (omega arith)

  -- `shrinkMemory`, over a runtime that behaves as documented, either gives the new size and the
  -- memory is smaller by exactly what was asked for, or it throws and the memory has the size that
  -- it had.
  pub shrink_memory_cases :
      (m : M) (n : ℕ)
      → (((shrink_memory w m n).0 ≡ ok (get_memory_size_bytes w m - n))
          × (get_memory_size_bytes w (shrink_memory w m n).1 + n ≡ get_memory_size_bytes w m))
        ⊎ ((e : Error) × ((shrink_memory w m n).0 ≡ err e)
            × (get_memory_size_bytes w (shrink_memory w m n).1 ≡ get_memory_size_bytes w m))
  shrink_memory_cases m n =
      elim (Bool-cases (n % page_bytes == 0 && leb n (get_memory_size_bytes w m))) [
        | inl y ↦ elim (GrowResult-cases (w.shrink m (n / page_bytes)).0) [
          | inl e ↦
              let x = shrink_memory_exact m n (ground arith) (ground arith) e in
              inl (ap (λ r. r.0) x.0, ground arith)
          | inr ne ↦ inr (failed (ground arith) (ground arith) ne)
        ]
        | inr y ↦
            let x = shrink_memory-refused m n (ground arith) in
            inr (x.0, ap (λ r. r.0) x.1, ap (λ r. get_memory_size_bytes w r.1) x.1)
      ]
    where
      failed :
          n % page_bytes ≡ 0
          → n ≤ get_memory_size_bytes w m
          → (w.shrink m (n / page_bytes)).0 ≢ success
          → (e : Error) × ((shrink_memory w m n).0 ≡ err e)
            × (get_memory_size_bytes w (shrink_memory w m n).1 ≡ get_memory_size_bytes w m)
      failed ha hn ne =
          let at =
            shrink_memory-admitted m n ha hn
            ∙ check_shrink-failure (w.shrink m (n / page_bytes)) ne in
          let same = laws.shrink_failure m (n / page_bytes) ne in
          (shrink_failed, ap (λ r. r.0) at, rw (at, same) refl)
