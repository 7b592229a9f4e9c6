-- ===== src/Memory/Stacks.antt =====
-- The thread stacks of a module (`addThreadStack`, `createMemoryGuardRegion` and
-- `ignoreThreadStacksInSnapshot` of src/wasm/WasmModule.cpp). THREAD_STACK_SIZE comes from the build,
-- and is an argument.
use faasm.Prelude.{
  ℕ, zero, suc, leb, ◌+◌, ◌-◌, ◌*◌, ◌%◌, ◌^◌, ◌≤◌, ◌<◌, ◌≡◌, refl, List, [], ◌∷◌, ◌++◌, Result, ok,
  err, if◌then◌else◌, arith, Bool-cases, inl, inr, ◌⊎◌, length, length-append,
}
use faasm.Memory.{Runtime, Error, get_memory_size_bytes, grow_memory}
use faasm.Memory.Sizes.{Laws}
use faasm.Memory.Grow.{grow_memory_cases}

abbrev pub guard_region_size : ℕ
guard_region_size = 655360

-- `createMemoryGuardRegion`, where `mprotect` succeeds: the span that it makes read-only.
abbrev pub guard_region : ℕ → ℕ × ℕ
guard_region wasm_offset = (wasm_offset, wasm_offset + guard_region_size)

-- The tops of the stacks, and the guard regions.
pub record Stacks : Type 0 where
  pub thread_stacks : List ℕ
  pub guards : List (ℕ × ℕ)

module _ (thread_stack_size : ℕ) where
  abbrev pub stack_bytes : ℕ
  stack_bytes = thread_stack_size + 2 * guard_region_size

  abbrev pub stack_top : ℕ → ℕ
  stack_top mem_base = mem_base + guard_region_size + thread_stack_size - 16

  abbrev pub push_stack : Stacks → ℕ → Stacks
  push_stack s mem_base = record {
    thread_stacks = s.thread_stacks ++ stack_top mem_base ∷ [];
    guards = s.guards ++ guard_region mem_base ∷ guard_region (stack_top mem_base + 16) ∷ [];
  }

  -- `ignoreThreadStacksInSnapshot`: the offset and the size of the region.
  unfoldable pub thread_stack_region : ℕ → ℕ → ℕ × ℕ
  thread_stack_region first_stack thread_pool_size = (
    first_stack - (thread_stack_size - 1) - guard_region_size,
    thread_pool_size * (thread_stack_size + 2 * guard_region_size),
  )

module _ {M : Type 0} (w : Runtime M) (thread_stack_size : ℕ) where
  abbrev pub add_to : Stacks → Result Error ℕ × M → Result Error Stacks × M
  add_to s (ok mem_base, m) = (ok (push_stack thread_stack_size s mem_base), m)
  add_to s (err e, m) = (err e, m)

  unfoldable pub add_thread_stack : Stacks → M → Result Error Stacks × M
  add_thread_stack s m = add_to s (grow_memory w m (stack_bytes thread_stack_size))

  abbrev then_grow :
      (Stacks → M → Result Error Stacks × M) → Result Error Stacks × M → Result Error Stacks × M
  then_grow loop (ok s, m) = loop s m
  then_grow loop (err e, m) = (err e, m)

  -- The loop of `executeTask` that runs while there is no stack at the index, on fuel.
  pub grow_stacks : ℕ → ℕ → Stacks → M → Result Error Stacks × M
  grow_stacks zero thread_pool_idx s m = (ok s, m)
  grow_stacks (suc fuel) thread_pool_idx s m =
      let rest = then_grow (grow_stacks fuel thread_pool_idx) (add_thread_stack s m) in
      if leb (length s.thread_stacks) thread_pool_idx then rest else (ok s, m)

  pub ensure_thread_stacks : ℕ → Stacks → M → Result Error Stacks × M
  unfolding grow_stacks
  ensure_thread_stacks thread_pool_idx s m =
      grow_stacks (thread_pool_idx + 1 - length s.thread_stacks) thread_pool_idx s m

-- Above `low` and below `high` there are the stacks, in this order, apart, each of its size, which
-- fills the space between two guard regions of the list.
abbrev pub IsLaid : ℕ → ℕ → List ℕ → List (ℕ × ℕ) → ℕ → Type 0
IsLaid size low [] [] high = low ≤ high
IsLaid size low (top ∷ tops) (below ∷ above ∷ guards) high =
    (low ≤ below.0)
    × (below.1 ≡ below.0 + guard_region_size)
    × (below.1 + size ≡ top + 16)
    × (above.0 ≡ top + 16)
    × (above.1 ≡ above.0 + guard_region_size)
    × (top % 16 ≡ 0)
    × IsLaid size above.1 tops guards high
IsLaid size low _ _ high = ⊥

IsLaid-push :
    (size low high top : ℕ) (tops : List ℕ) (guards : List (ℕ × ℕ))
    → high + guard_region_size + size ≡ top + 16
    → top % 16 ≡ 0
    → IsLaid size low tops guards high
    → IsLaid size low
        (tops ++ top ∷ [])
        (guards ++ guard_region high ∷ guard_region (top + 16) ∷ [])
        (high + (size + 2 * guard_region_size))
IsLaid-push size low high top [] [] h a l = (l, refl, h, refl, refl, a, omega arith)
IsLaid-push size low high top [] (g ∷ guards) h a l = absurd l
IsLaid-push size low high top (t ∷ ts) [] h a l = absurd l
IsLaid-push size low high top (t ∷ ts) (g ∷ []) h a l = absurd l
IsLaid-push size low high top (t ∷ ts) (below ∷ above ∷ guards) h a (b, c, d, e, f, g, l) =
    (b, c, d, e, f, g, IsLaid-push size above.1 high top ts guards h a l)

length-push : (l : List ℕ) (t : ℕ) → length (l ++ t ∷ []) ≡ length l + 1
length-push l t = length-append l (t ∷ [])

module _ {M : Type 0} (w : Runtime M) (size : ℕ) where
  add_to-ok :
      (s : Stacks) (x : Result Error ℕ × M) {b : ℕ}
      → x.0 ≡ ok b
      → add_to w size s x ≡ (ok (push_stack size s b), x.1)
  add_to-ok s (ok b, m) e = cc
  add_to-ok s (err b, m) e = cc

  add_to-err :
      (s : Stacks) (x : Result Error ℕ × M) {e : Error}
      → x.0 ≡ err e
      → add_to w size s x ≡ (err e, x.1)
  add_to-err s (ok b, m) e = cc
  add_to-err s (err b, m) e = cc

module _ {M : Type 0} (w : Runtime M) (laws : Laws w) (size : ℕ) (small : size < 2 ^ 32) where
  -- Adding a stack appends its top, which lies in the new memory, or leaves the stacks alone.
  add_thread_stack_cases :
      (s : Stacks) (m : M)
      → ((m' : M) × (add_thread_stack w size s m
            ≡ (ok (push_stack size s (get_memory_size_bytes w m)), m'))
          × (get_memory_size_bytes w m' ≡ get_memory_size_bytes w m + stack_bytes size))
        ⊎ ((e : Error) × (m' : M) × (add_thread_stack w size s m ≡ (err e, m'))
            × (get_memory_size_bytes w m' ≡ get_memory_size_bytes w m))
  unfolding add_thread_stack
  add_thread_stack_cases s m = elim (grow_memory_cases w laws m (stack_bytes size) (omega arith)) [
    | inl (x, y) ↦ inl (
      (grow_memory w m (stack_bytes size)).1,
      add_to-ok w size s (grow_memory w m (stack_bytes size)) x,
      y,
    )
    | inr (e, x, y) ↦ inr (
      e,
      (grow_memory w m (stack_bytes size)).1,
      add_to-err w size s (grow_memory w m (stack_bytes size)) x,
      y,
    )
  ]

  -- A whole new stack is above all that was laid before.
  push_stack-IsLaid :
      (s : Stacks) (m m' : M) (low : ℕ)
      → size % 16 ≡ 0
      → IsLaid size low s.thread_stacks s.guards (get_memory_size_bytes w m)
      → get_memory_size_bytes w m' ≡ get_memory_size_bytes w m + stack_bytes size
      → IsLaid size low
          (push_stack size s (get_memory_size_bytes w m)).thread_stacks
          (push_stack size s (get_memory_size_bytes w m)).guards
          (get_memory_size_bytes w m')
  push_stack-IsLaid s m m' low ha l e = rw e (
      IsLaid-push size low (get_memory_size_bytes w m) (stack_top size (get_memory_size_bytes w m))
        s.thread_stacks s.guards (omega arith) (omega arith) l)

  grow_stacks_cases :
      (fuel idx low : ℕ) (s : Stacks) (m : M)
      → size % 16 ≡ 0
      → idx < fuel + length s.thread_stacks
      → IsLaid size low s.thread_stacks s.guards (get_memory_size_bytes w m)
      → ((s' : Stacks) × (m' : M) × (grow_stacks w size fuel idx s m ≡ (ok s', m'))
          × (idx < length s'.thread_stacks)
          × IsLaid size low s'.thread_stacks s'.guards (get_memory_size_bytes w m'))
        ⊎ ((e : Error) × (m' : M) × (grow_stacks w size fuel idx s m ≡ (err e, m')))
  unfolding grow_stacks
  grow_stacks_cases zero idx low s m ha hf l = inl (s, m, refl, omega arith, l)
  grow_stacks_cases (suc fuel) idx low s m ha hf l =
      elim (Bool-cases (leb (length s.thread_stacks) idx)) [
        | inl more ↦ elim (add_thread_stack_cases s m) [
          | inl (m1, e1, q) ↦
              rw (more, e1)
                (grow_stacks_cases fuel idx low (push_stack size s (get_memory_size_bytes w m)) m1
                  ha
                  (rw (length-push s.thread_stacks (stack_top size (get_memory_size_bytes w m)))
                    (omega arith))
                  (push_stack-IsLaid s m m1 low ha l q))
          | inr (e, m1, e1, q) ↦ inr (e, m1, rw (more, e1) refl)
        ]
        | inr done ↦ inl (s, m, rw done refl, ground arith, l)
      ]

  -- When `executeTask` has run its loop, there is a stack at the index, or the memory could not
  -- grow. If the stacks and guard regions were so before, then afterwards the tops are 16-aligned and
  -- each stack fills, with its size, which is a multiple of 16, the space between two guard regions;
  -- they overlap neither each other nor what lies below them, and end below the end of the memory.
  -- The runtime behaves as documented.
  pub ensure_thread_stacks-IsLaid :
      (idx low : ℕ) (s : Stacks) (m : M)
      → size % 16 ≡ 0
      → IsLaid size low s.thread_stacks s.guards (get_memory_size_bytes w m)
      → ((s' : Stacks) × (m' : M) × (ensure_thread_stacks w size idx s m ≡ (ok s', m'))
          × (idx < length s'.thread_stacks)
          × IsLaid size low s'.thread_stacks s'.guards (get_memory_size_bytes w m'))
        ⊎ ((e : Error) × (m' : M) × (ensure_thread_stacks w size idx s m ≡ (err e, m')))
  unfolding ensure_thread_stacks
  ensure_thread_stacks-IsLaid idx low s m ha l =
      grow_stacks_cases (idx + 1 - length s.thread_stacks) idx low s m ha (omega arith) l

-- The region that `ignoreThreadStacksInSnapshot` takes for stacks of at least 16 bytes, of which
-- the first was added at `mem_base`, begins 15 bytes below `mem_base` and ends 15 bytes before the
-- end of the last guard region. There are at least 15 bytes below `mem_base`.
pub thread_stack_region_offset :
    (size mem_base n : ℕ)
    → 16 ≤ size
    → 15 ≤ mem_base
    → ((thread_stack_region size (stack_top size mem_base) n).0 + 15 ≡ mem_base)
      × ((thread_stack_region size (stack_top size mem_base) n).0
            + (thread_stack_region size (stack_top size mem_base) n).1
            + 15
          ≡ mem_base + n * stack_bytes size)
unfolding thread_stack_region
thread_stack_region_offset size mem_base n h hb = (omega arith, omega arith)
