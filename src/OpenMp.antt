-- ===== src/OpenMp.antt =====
-- OpenMP for WAVM modules: the levels of src/threads/ThreadState.cpp and the runtime calls of
-- src/wavm/openmp.cpp. The thread-local level and the message of the executing thread are
-- arguments. Numbers of 32 bits are words (Prelude/Words).
pub mod StaticInit
pub mod TripCount
pub mod Balanced
pub mod Chunked
pub mod Serial
pub mod Fork
use faasm.Prelude.{
  ℕ, zero, suc, ◌+◌, ◌-◌, ◌^◌, Bool, true, false, not, ◌&&◌, List, [], ◌∷◌, Result, ok, err, ltb,
  leb, ◌==◌, if◌then◌else◌,
}
use faasm.Prelude.Words.{add, sub, is_non_negative, is_positive, signed_less}

-- `threads::Level`; the shared offsets are `nSharedVarOffsets` words.
pub record Level : Type 0 where
  pub depth : ℕ
  pub active_levels : ℕ
  pub max_active_levels : ℕ
  pub num_threads : ℕ
  pub wanted_threads : ℕ
  pub pushed_threads : ℕ
  pub global_tid_offset : ℕ
  pub shared_var_offsets : List ℕ

pub data Error : Type 0 where
  negative_thread_num nested_unsupported threads_failed end_from_non_master : Error
  unimplemented_schedule divides_by_zero : Error

abbrev pub minus_one : ℕ
minus_one = 2 ^ 32 - 1

abbrev pub new_level : ℕ → Level
new_level num_threads = record {
  depth = 0;
  active_levels = 0;
  max_active_levels = 1;
  num_threads = num_threads;
  wanted_threads = minus_one;
  pushed_threads = minus_one;
  global_tid_offset = 0;
  shared_var_offsets = [];
}

unfoldable pub from_parent_level : Level → Level → Level
from_parent_level l parent = record l {
  depth = add parent.depth 1;
  active_levels =
      if signed_less 1 l.num_threads then add parent.active_levels 1 else parent.active_levels;
  max_active_levels = parent.max_active_levels;
  global_tid_offset =
      if parent.depth == 0 then 0 else add parent.global_tid_offset parent.num_threads;
}

-- `usable_cores` is `getUsableCores()`.
unfoldable pub get_max_threads_at_next_level : ℕ → Level → ℕ
get_max_threads_at_next_level usable_cores l =
    if not (signed_less l.active_levels l.max_active_levels)
    then 1
    else if is_positive l.pushed_threads
    then l.pushed_threads
    else if is_positive l.wanted_threads
    then l.wanted_threads
    else sub usable_cores 1

-- The argument is the `appidx` of the message.
unfoldable pub get_local_thread_num : Level → ℕ → Result Error ℕ
get_local_thread_num l app_idx =
    let local_thread_num = sub app_idx l.global_tid_offset in
    if l.depth == 0
    then ok app_idx
    else if is_non_negative local_thread_num
    then ok local_thread_num
    else err negative_thread_num

unfoldable pub get_global_thread_num : Level → ℕ → ℕ
get_global_thread_num l local_thread_num =
    if l.depth == 0 then local_thread_num else add local_thread_num l.global_tid_offset

unfoldable pub omp_set_max_active_levels : Level → ℕ → Level
omp_set_max_active_levels l max_levels =
    if is_non_negative max_levels then record l { max_active_levels = max_levels } else l

unfoldable pub kmpc_push_num_threads : Level → ℕ → Level
kmpc_push_num_threads l num_threads =
    if is_positive num_threads then record l { pushed_threads = num_threads } else l

unfoldable pub omp_set_num_threads : Level → ℕ → Level
omp_set_num_threads l num_threads =
    if is_positive num_threads then record l { wanted_threads = num_threads } else l

-- `__kmpc_master` and `__kmpc_single`: whether this thread runs the section.
abbrev pub kmpc_master : ℕ → Bool
kmpc_master local_thread_num = local_thread_num == 0

-- `__kmpc_end_master` and `__kmpc_end_single`.
abbrev pub kmpc_end_master : ℕ → Result Error (Unit {0})
kmpc_end_master local_thread_num = if local_thread_num == 0 then ok tt else err end_from_non_master

-- A message of the request that a fork makes: what it sets of one.
pub record Call : Type 0 where
  pub func_ptr : ℕ
  pub app_idx : ℕ
  pub group_idx : ℕ

-- The messages `i`, ..., for `n` more threads.
unfoldable pub thread_calls : Level → ℕ → ℕ → ℕ → List Call
thread_calls next microtask i zero = []
thread_calls next microtask i (suc n) =
    (record { func_ptr = microtask; app_idx = get_global_thread_num next i; group_idx = i })
    ∷ thread_calls next microtask (i + 1) n

-- The level that `__kmpc_fork_call` sets up.
unfoldable pub next_level : ℕ → Level → List ℕ → Level
unfolding from_parent_level get_max_threads_at_next_level
next_level usable_cores parent shared_vars =
    let fresh = new_level (get_max_threads_at_next_level usable_cores parent) in
    record (from_parent_level fresh parent) { shared_var_offsets = shared_vars }

abbrev pub all_zero : List ℕ → Bool
all_zero [] = true
all_zero (r ∷ rs) = r == 0 && all_zero rs

-- `__kmpc_fork_call`; `execute` is what the scheduler's threads return. The result is the level's
-- and the calls that were made, and the parent level after the call.
unfoldable pub kmpc_fork_call :
    ℕ → (Level → List Call → List ℕ) → Level → List ℕ → ℕ → Result Error (Level × List Call) × Level
unfolding next_level thread_calls
kmpc_fork_call usable_cores execute parent shared_vars microtask =
    let next = next_level usable_cores parent shared_vars in
    let size = if is_non_negative next.num_threads then next.num_threads else 0 in
    let calls = thread_calls next microtask 0 size in
    if signed_less 1 next.depth
    then (err nested_unsupported, parent)
    else if all_zero (execute next calls)
    then (ok (next, calls), record parent { pushed_threads = minus_one })
    else (err threads_failed, parent)
