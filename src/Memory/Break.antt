-- ===== src/Memory/Break.antt =====
-- The operations on the break: `setMemorySize` and `unmapMemory` of src/wasm/WasmModule.cpp, and
-- `__sbrk` of src/wavm/memory.cpp.
use faasm.Prelude.{
  ℕ, ◌+◌, ◌-◌, ◌*◌, ◌%◌, ◌^◌, ◌<◌, ◌≡◌, refl, sym, ap, ◌∙◌, Bool, true, false, Result, ok, err, ltb,
  leb, ◌==◌, arith, Bool-cases, inl, inr, ◌⊎◌, ◌&&◌,
}
use faasm.Memory.{
  page_bytes, Runtime, Error, is_wasm_page_aligned, round_up_to_wasm_page_aligned,
  get_memory_size_bytes, grow_memory, shrink_memory, set_memory_size, unmap_memory, without_value,
}
use faasm.Memory.Sizes.{Laws}
use faasm.Memory.Shrink.{shrink_memory_cases}
use faasm.Memory.Grow.{get_current_brk_exact, grow_memory_cases}

module _ {M : Type 0} (w : Runtime M) where
  without_value-ok :
      (x : Result Error ℕ × M) {v : ℕ} → x.0 ≡ ok v → without_value w x ≡ (ok tt, x.1)
  without_value-ok (ok _, m) h = refl
  without_value-ok (err _, m) h = cc

  without_value-err :
      (x : Result Error ℕ × M) {e : Error} → x.0 ≡ err e → without_value w x ≡ (err e, x.1)
  without_value-err (ok _, m) h = cc
  without_value-err (err _, m) h = cc

module _ {M : Type 0} (w : Runtime M) (laws : Laws w) where
  set_memory_size-up :
      (m : M) (n : ℕ)
      → get_memory_size_bytes w m < n
      → set_memory_size w m n ≡ without_value w (grow_memory w m (n - get_memory_size_bytes w m))
  unfolding set_memory_size
  set_memory_size-up m n h = rw (get_current_brk_exact w laws m) (ground arith)

  set_memory_size-down :
      (m : M) (n : ℕ)
      → n < get_memory_size_bytes w m
      → set_memory_size w m n ≡ without_value w (shrink_memory w m (get_memory_size_bytes w m - n))
  unfolding set_memory_size
  set_memory_size-down m n h = rw (get_current_brk_exact w laws m) (ground arith)

  set_memory_size-same : (m : M) → set_memory_size w m (get_memory_size_bytes w m) ≡ (ok tt, m)
  unfolding set_memory_size
  set_memory_size-same m = rw (get_current_brk_exact w laws m) (ground arith)

  -- The case in which `unmapMemory` shrinks the memory.
  abbrev unmaps_top : M → ℕ → ℕ → Bool
  unmaps_top m offset n =
      ltb 0 n
      && is_wasm_page_aligned offset
      && leb ((offset + round_up_to_wasm_page_aligned n) % 2 ^ 32) (w.max_pages m * page_bytes)
      && ((offset + round_up_to_wasm_page_aligned n) % 2 ^ 32 == get_memory_size_bytes w m)

  unmap_memory-top :
      (m : M) (offset n : ℕ)
      → unmaps_top m offset n ≡ true
      → (unmap_memory w m offset n
          ≡ without_value w (shrink_memory w m (round_up_to_wasm_page_aligned n)))
        × ((offset + round_up_to_wasm_page_aligned n) % 2 ^ 32 ≡ get_memory_size_bytes w m)
  unfolding unmap_memory
  unmap_memory-top m offset n h = ground arith

  unmap_memory-other :
      (m : M) (offset n : ℕ) → unmaps_top m offset n ≡ false → (unmap_memory w m offset n).1 ≡ m
  unfolding unmap_memory
  unmap_memory-other m offset n h = ground arith

  -- If `setMemorySize` does not throw, the memory has the size asked for; if it does, it has the
  -- size that it had. The size is below 2^63, and the runtime behaves as documented.
  pub set_memory_size_cases :
      (m : M) (n : ℕ)
      → n < 2 ^ 63
      → (((set_memory_size w m n).0 ≡ ok tt)
          × (get_memory_size_bytes w (set_memory_size w m n).1 ≡ n))
        ⊎ ((e : Error) × ((set_memory_size w m n).0 ≡ err e)
            × (get_memory_size_bytes w (set_memory_size w m n).1 ≡ get_memory_size_bytes w m))
  set_memory_size_cases m n hn = elim (Bool-cases (ltb (get_memory_size_bytes w m) n)) [
    | inl up ↦
        let step = set_memory_size-up m n (ground arith) in
        elim (grow_memory_cases w laws m (n - get_memory_size_bytes w m) (omega arith)) [
          | inl (x, y) ↦
              let at =
                step ∙ without_value-ok w (grow_memory w m (n - get_memory_size_bytes w m)) x in
              inl (ap (λ r. r.0) at, rw at (ground arith))
          | inr (e, x, y) ↦
              let at =
                step ∙ without_value-err w (grow_memory w m (n - get_memory_size_bytes w m)) x in
              inr (e, ap (λ r. r.0) at, rw at y)
        ]
    | inr up ↦ elim (Bool-cases (n == get_memory_size_bytes w m)) [
      | inl same ↦
          let is : n ≡ get_memory_size_bytes w m = ground arith in
          let at : set_memory_size w m n ≡ (ok tt, m) = rw is (set_memory_size-same m) in
          inl (ap (λ r. r.0) at, rw at (sym is))
      | inr other ↦
          let step = set_memory_size-down m n (ground arith) in
          elim (shrink_memory_cases w laws m (get_memory_size_bytes w m - n)) [
            | inl (x, y) ↦
                let at =
                  step ∙ without_value-ok w (shrink_memory w m (get_memory_size_bytes w m - n)) x in
                inl (ap (λ r. r.0) at, rw at (ground arith))
            | inr (e, x, y) ↦
                let at =
                  step
                  ∙ without_value-err w (shrink_memory w m (get_memory_size_bytes w m - n)) x in
                inr (e, ap (λ r. r.0) at, rw at y)
          ]
    ]
  ]

  -- Over a runtime that behaves as documented, `unmapMemory` leaves the size alone, or the
  -- unmapped part was the top of the memory, which then ends where that part began.
  pub unmap_memory_cases :
      (m : M) (offset n : ℕ)
      → offset < 2 ^ 32
      → (get_memory_size_bytes w (unmap_memory w m offset n).1 ≡ get_memory_size_bytes w m)
        ⊎ ((get_memory_size_bytes w (unmap_memory w m offset n).1 ≡ offset)
            × (offset + round_up_to_wasm_page_aligned n ≡ get_memory_size_bytes w m)
            × ((unmap_memory w m offset n).0 ≡ ok tt))
  unmap_memory_cases m offset n h = elim (Bool-cases (unmaps_top m offset n)) [
    | inl top ↦
        let (step, e) = unmap_memory-top m offset n top in
        elim (shrink_memory_cases w laws m (round_up_to_wasm_page_aligned n)) [
          | inl (x, y) ↦
              let at =
                step ∙ without_value-ok w (shrink_memory w m (round_up_to_wasm_page_aligned n)) x in
              inr (rw at (ground arith), ground arith, ap (λ r. r.0) at)
          | inr (e, x, y) ↦
              let at =
                step
                ∙ without_value-err w (shrink_memory w m (round_up_to_wasm_page_aligned n)) x in
              inl (rw at y)
        ]
    | inr other ↦ inl (ap (get_memory_size_bytes w) (unmap_memory-other m offset n other))
  ]
