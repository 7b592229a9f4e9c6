-- ===== src/OpenMp/Fork.antt =====
-- `__kmpc_fork_call` of src/wavm/openmp.cpp: the team that it starts.
use faasm.Prelude.{
  ℕ, zero, suc, ◌+◌, ◌^◌, ◌<◌, ◌≡◌, refl, subst, true, List, some, ok, arith, length, get_elem?,
}
use faasm.OpenMp.{
  Level, Call, minus_one, get_local_thread_num, get_global_thread_num, thread_calls, next_level,
  from_parent_level, kmpc_fork_call, get_max_threads_at_next_level, all_zero,
}

length-thread_calls : (l : Level) (f i n : ℕ) → length (thread_calls l f i n) ≡ n
unfolding thread_calls
length-thread_calls l f i zero = refl
length-thread_calls l f i (suc n) = rw (length-thread_calls l f (i + 1) n) (omega arith)

get_elem-thread_calls :
    (l : Level) (f i n j : ℕ)
    → j < n
    → get_elem? (thread_calls l f i n) j
      ≡ some (record { func_ptr = f; app_idx = get_global_thread_num l (i + j); group_idx = i + j })
unfolding thread_calls
get_elem-thread_calls l f i zero j h = absurd (omega arith)
get_elem-thread_calls l f i (suc n) zero h = let e : i + 0 ≡ i = omega arith in rw e refl
get_elem-thread_calls l f i (suc n) (suc j) h =
    let e : i + suc j ≡ i + 1 + j = omega arith in
    rw e (get_elem-thread_calls l f (i + 1) n j (omega arith))

-- A thread finds its local number from the global one, if the sum does not pass 2^31.
local-global :
    (l : Level) (i : ℕ)
    → i < 2 ^ 31
    → l.global_tid_offset < 2 ^ 32
    → get_local_thread_num l (get_global_thread_num l i) ≡ ok i
unfolding get_local_thread_num get_global_thread_num
local-global l i h ho = ground arith

-- A fork at the top level, with a team below 2^31 threads that all return 0, makes one call for
-- each thread that the level asks for, and the `i`-th call finds `i` as its local thread number;
-- the level is left with no pushed number of threads.
pub kmpc_fork_call_team :
    (cores f i : ℕ) (execute : Level → List Call → List ℕ) (parent : Level) (vars : List ℕ)
    → parent.depth ≡ 0
    → get_max_threads_at_next_level cores parent < 2 ^ 31
    → i < get_max_threads_at_next_level cores parent
    → all_zero (
        execute (next_level cores parent vars) (
          thread_calls
            (next_level cores parent vars)
            f
            0
            (get_max_threads_at_next_level cores parent)))
      ≡ true
    → (calls : List Call) × (call : Call) × (kmpc_fork_call cores execute parent vars f
        ≡ (ok (next_level cores parent vars, calls), record parent { pushed_threads = minus_one }))
      × (length calls ≡ get_max_threads_at_next_level cores parent)
      × (get_elem? calls i ≡ some call)
      × (get_local_thread_num (next_level cores parent vars) call.app_idx ≡ ok i)
      × (call.func_ptr ≡ f)
kmpc_fork_call_team cores f i execute parent vars hd hm hi he =
    let next = next_level cores parent vars in
    let size = get_max_threads_at_next_level cores parent in
    (
      thread_calls next f 0 size,
      record { func_ptr = f; app_idx = get_global_thread_num next i; group_idx = i },
      unfold kmpc_fork_call next_level from_parent_level in ground arith,
      length-thread_calls next f 0 size,
      subst
          (λ j.
            get_elem? (thread_calls next f 0 size) i
            ≡ some (record { func_ptr = f; app_idx = get_global_thread_num next j; group_idx = j }))
          zero_add (get_elem-thread_calls next f 0 size i hi),
      local-global next i (omega arith) no_offset,
      refl,
    )
  where
    zero_add : 0 + i ≡ i
    zero_add = omega arith

    no_offset : (next_level cores parent vars).global_tid_offset < 2 ^ 32
    no_offset = unfold next_level from_parent_level in ground arith
