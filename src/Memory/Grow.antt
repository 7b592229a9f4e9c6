-- ===== src/Memory/Grow.antt =====
-- Growing the memory of a module (`growMemory` of src/wasm/WasmModule.cpp).
use faasm.Prelude.{
  ℕ, ◌+◌, ◌*◌, ◌/◌, ◌%◌, ◌^◌, ◌≤◌, ◌<◌, ◌≡◌, ◌≢◌, refl, ap, ◌∙◌, Bool, true, false, Result, ok, err,
  leb, ◌==◌, arith, Bool-cases, inl, inr, ◌⊎◌, ◌&&◌,
}
use faasm.Memory.{
  page_bytes, Runtime, GrowResult, success, out_of_memory, out_of_max_size, out_of_quota, Error,
  not_page_aligned, exceeds_max, grow_failed, is_wasm_page_aligned,
  get_number_of_wasm_pages_for_bytes, get_memory_size_bytes, get_current_brk, do_grow_memory,
  check_growth, grow_memory,
}
use faasm.Memory.Sizes.{Laws}

pub GrowResult-cases : (g : GrowResult) → (g ≡ success) ⊎ (g ≢ success)
GrowResult-cases success = inl refl
GrowResult-cases out_of_memory = inr (λ e. cc)
GrowResult-cases out_of_max_size = inr (λ e. cc)
GrowResult-cases out_of_quota = inr (λ e. cc)

module _ {M : Type 0} (w : Runtime M) (laws : Laws w) where
  -- The guards of `growMemory` admit the growth by `n` bytes of a memory of `s` pages of at most `k`.
  abbrev pub Admits : ℕ → ℕ → ℕ → Type 0
  Admits s k n = (n % page_bytes ≡ 0) × (s * page_bytes + n ≤ k * page_bytes)

  pub get_current_brk_exact : (m : M) → get_current_brk w m ≡ get_memory_size_bytes w m
  get_current_brk_exact m = grind (arith, laws.size_bound m, laws.max_bound m)

  pub grow_memory-zero : (m : M) → grow_memory w m 0 ≡ (ok (get_memory_size_bytes w m), m)
  unfolding grow_memory
  grow_memory-zero m = rw (get_current_brk_exact m) refl

  grow_memory-admitted :
      (m : M) (n : ℕ)
      → 0 < n
      → Admits (w.num_pages m) (w.max_pages m) n
      → grow_memory w m n
        ≡ check_growth w
            (get_memory_size_bytes w m)
            (get_memory_size_bytes w m + n)
            (do_grow_memory w m (n / page_bytes))
  unfolding grow_memory is_wasm_page_aligned get_number_of_wasm_pages_for_bytes
  grow_memory-admitted m n hn h =
      let b = laws.size_bound m in let c = laws.max_bound m in ground arith

  grow_memory-refused :
      (m : M) (n : ℕ)
      → 0 < n
      → n < 2 ^ 63
      → (n % page_bytes ≢ 0) ⊎ (w.max_pages m * page_bytes < w.num_pages m * page_bytes + n)
      → (e : Error) × (grow_memory w m n ≡ (err e, m))
  unfolding grow_memory is_wasm_page_aligned get_number_of_wasm_pages_for_bytes
  grow_memory-refused m n hn hb h =
      let b = laws.size_bound m in
      let c = laws.max_bound m in
      elim (Bool-cases (n % page_bytes == 0)) [
        | inl e ↦ (exceeds_max, ground arith)
        | inr e ↦ (not_page_aligned, ground arith)
      ]

  do_grow_memory-success :
      (m : M) (k : ℕ) → (w.grow m k).0 ≡ success → do_grow_memory w m k ≡ (ok true, (w.grow m k).2)
  unfolding do_grow_memory
  do_grow_memory-success m k e =
      let b = laws.size_bound m in
      let c = laws.max_bound m in let d = laws.grow_base m k e in rw e (ground arith)

  do_grow_memory-failure :
      (m : M) (k : ℕ)
      → (w.grow m k).0 ≢ success
      → ((do_grow_memory w m k).0 ≢ ok true) × ((do_grow_memory w m k).1 ≡ (w.grow m k).2)
  unfolding do_grow_memory
  do_grow_memory-failure m k ne = ground arith

  check_growth-exact :
      {b : ℕ} {m' : M} (o : ℕ)
      → get_memory_size_bytes w m' ≡ b
      → check_growth w o b (ok true, m') ≡ (ok o, m')
  unfolding check_growth
  check_growth-exact {b} {m'} o q = ground arith

  check_growth-failure :
      (o b : ℕ) (x : Result Error Bool × M)
      → x.0 ≢ ok true
      → (e : Error) × (check_growth w o b x ≡ (err e, x.1))
  unfolding check_growth
  check_growth-failure o b (err e, m) ne = (e, refl)
  check_growth-failure o b (ok false, m) ne = (grow_failed, refl)
  check_growth-failure o b (ok true, m) ne = elim (ne refl) [ ]

  -- Over a runtime that behaves as documented, growing by whole pages that fit below the maximum
  -- gives the old size, and the memory is larger by exactly what was asked for, if the runtime
  -- finds the pages.
  pub grow_memory_exact :
      (m : M) (n : ℕ)
      → 0 < n
      → Admits (w.num_pages m) (w.max_pages m) n
      → (w.grow m (n / page_bytes)).0 ≡ success
      → (grow_memory w m n ≡ (ok (get_memory_size_bytes w m), (w.grow m (n / page_bytes)).2))
        × (get_memory_size_bytes w (grow_memory w m n).1 ≡ get_memory_size_bytes w m + n)
  grow_memory_exact m n hn h e = (whole, rw whole grown)
    where
      grown : get_memory_size_bytes w (w.grow m (n / page_bytes)).2 ≡ get_memory_size_bytes w m + n
      grown = let p = laws.grow_pages m (n / page_bytes) e in ground arith

      whole : grow_memory w m n ≡ (ok (get_memory_size_bytes w m), (w.grow m (n / page_bytes)).2)
      whole =
          rw (grow_memory-admitted m n hn h, do_grow_memory-success m (n / page_bytes) e)
            (check_growth-exact (get_memory_size_bytes w m) grown)

  -- `growMemory`, for a request below 2^63 bytes over a runtime that behaves as documented, either
  -- gives the old size and the memory is larger by exactly what was asked for, or it throws and
  -- the memory has the size that it had.
  pub grow_memory_cases :
      (m : M) (n : ℕ)
      → n < 2 ^ 63
      → (((grow_memory w m n).0 ≡ ok (get_memory_size_bytes w m))
          × (get_memory_size_bytes w (grow_memory w m n).1 ≡ get_memory_size_bytes w m + n))
        ⊎ ((e : Error) × ((grow_memory w m n).0 ≡ err e)
            × (get_memory_size_bytes w (grow_memory w m n).1 ≡ get_memory_size_bytes w m))
  grow_memory_cases m n hn = elim (Bool-cases (n == 0)) [
    | inl z ↦ inl (nothing (ground arith))
    | inr z ↦
        elim (Bool-cases (
          n % page_bytes == 0
          && leb (w.num_pages m * page_bytes + n) (w.max_pages m * page_bytes))) [
            | inl y ↦ elim (GrowResult-cases (w.grow m (n / page_bytes)).0) [
              | inl e ↦
                  let x = grow_memory_exact m n (ground arith) (ground arith, ground arith) e in
                  inl (ap (λ r. r.0) x.0, x.1)
              | inr ne ↦ inr (failed (ground arith) (ground arith, ground arith) ne)
            ]
            | inr y ↦
                let x = grow_memory-refused m n (ground arith) hn (ground arith) in
                inr (x.0, ap (λ r. r.0) x.1, ap (λ r. get_memory_size_bytes w r.1) x.1)
          ]
  ]
    where
      nothing :
          n ≡ 0
          → ((grow_memory w m n).0 ≡ ok (get_memory_size_bytes w m))
            × (get_memory_size_bytes w (grow_memory w m n).1 ≡ get_memory_size_bytes w m + n)
      nothing z = rw (z, grow_memory-zero m) (refl, omega arith)

      failed :
          0 < n
          → Admits (w.num_pages m) (w.max_pages m) n
          → (w.grow m (n / page_bytes)).0 ≢ success
          → (e : Error) × ((grow_memory w m n).0 ≡ err e)
            × (get_memory_size_bytes w (grow_memory w m n).1 ≡ get_memory_size_bytes w m)
      failed hp h ne =
          let f = do_grow_memory-failure m (n / page_bytes) ne in
          let (e, q) =
            check_growth-failure (get_memory_size_bytes w m) (get_memory_size_bytes w m + n)
              (do_grow_memory w m (n / page_bytes)) f.0 in
          let same = laws.grow_failure m (n / page_bytes) ne in
          let at = grow_memory-admitted m n hp h ∙ q in
          (e, ap (λ r. r.0) at, rw (at, f.1, same) refl)
