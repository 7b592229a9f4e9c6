-- ===== src/Examples/Teams.antt =====
-- Runs of the OpenMP calls of src/wavm/openmp.cpp.
use faasm.Prelude.{
  ℕ, ◌+◌, ◌-◌, ◌*◌, ◌^◌, ◌%◌, ◌<◌, ◌≡◌, ◌↔◌, refl, true, false, some, List, [], ◌∷◌, ok, arith,
  length, get_elem?, map,
}
use faasm.OpenMp.{
  Level, Call, new_level, next_level, thread_calls, get_local_thread_num, kmpc_fork_call, minus_one,
  get_max_threads_at_next_level, all_zero,
}
use faasm.OpenMp.TripCount.{in_loop, span_of}
use faasm.OpenMp.StaticInit.{Bounds, trip_count, for_static_init}
use faasm.OpenMp.Balanced.{first_iteration, for_static_init_balanced}
use faasm.OpenMp.Chunked.{for_static_init_chunked}
use faasm.OpenMp.Fork.{kmpc_fork_call_team}
use faasm.OpenMp.Serial.{serialise, deserialise, deserialise-serialise}

-- The loop from 0 to 9.
abbrev ten : Bounds
ten = record { last_iter = false; lower = 0; upper = 9; stride = 1 }

ten_iterations : trip_count 0 9 1 ≡ 10
unfolding trip_count
ten_iterations = refl

for_static_init_balanced_example :
    (r : Bounds) × (for_static_init 4 1 34 ten 1 1 ≡ ok r)
    × (r.lower ≡ (0 + 1 * first_iteration 4 (trip_count 0 9 1) 1) % 2 ^ 32)
    × (r.upper ≡ (0 + 1 * (first_iteration 4 (trip_count 0 9 1) (1 + 1) - 1)) % 2 ^ 32)
    × (first_iteration 4 (trip_count 0 9 1) 1 < first_iteration 4 (trip_count 0 9 1) (1 + 1))
    × (first_iteration 4 (trip_count 0 9 1) 0 ≡ 0)
    × (first_iteration 4 (trip_count 0 9 1) 4 ≡ trip_count 0 9 1)
    × ((r.last_iter ≡ true) ↔ (1 + 1 ≡ 4))
    × ((k : ℕ) → (in_loop 0 9 1 k ≡ true) ↔ (k < trip_count 0 9 1))
unfolding in_loop span_of
for_static_init_balanced_example =
    for_static_init_balanced 4 1 ten 1 1 (omega arith) (omega arith) (omega arith) (omega arith)
      (omega arith) (omega arith) (omega arith) (ground arith) refl (omega (arith, ten_iterations))

for_static_init_chunked_example :
    (r : Bounds) × (for_static_init 4 1 33 ten 1 2 ≡ ok r)
    × ((r.lower + 1 * r.stride) % 2 ^ 32 ≡ (0 + 1 * (2 * (1 * 4 + 1))) % 2 ^ 32)
    × (r.upper ≡ (r.lower + 1 * (2 - 1)) % 2 ^ 32)
for_static_init_chunked_example =
    for_static_init_chunked 4 1 1 ten 1 2 (omega arith) (omega arith) (omega arith) (omega arith)
      (omega arith)

-- The level of a host with one slot, which may start teams.
abbrev top : Level
top = new_level 1

-- All threads return 0.
abbrev succeed : Level → List Call → List ℕ
succeed l calls = map (λ c. 0) calls

five_threads : get_max_threads_at_next_level 6 top ≡ 5
unfolding get_max_threads_at_next_level
five_threads = refl

all_succeed :
    all_zero (
      succeed
        (next_level 6 top [])
        (thread_calls (next_level 6 top []) 77 0 (get_max_threads_at_next_level 6 top)))
    ≡ true
unfolding thread_calls get_max_threads_at_next_level
all_succeed = refl

kmpc_fork_call_team_example :
    (calls : List Call) × (call : Call) × (kmpc_fork_call 6 succeed top [] 77
      ≡ (ok (next_level 6 top [], calls), record top { pushed_threads = minus_one }))
    × (length calls ≡ get_max_threads_at_next_level 6 top)
    × (get_elem? calls 3 ≡ some call)
    × (get_local_thread_num (next_level 6 top []) call.app_idx ≡ ok 3)
    × (call.func_ptr ≡ 77)
kmpc_fork_call_team_example =
    kmpc_fork_call_team 6 77 3 succeed top [] refl (omega (arith, five_threads))
      (omega (arith, five_threads)) all_succeed

abbrev shared_level : Level
shared_level = record top { depth = 1; shared_var_offsets = 4096 ∷ 70000 ∷ [] }

deserialise-serialise_example : deserialise (serialise shared_level 12 34) ≡ some shared_level
deserialise-serialise_example =
    deserialise-serialise shared_level 12 34 (ground arith) (ground arith)
