-- ===== src/OpenMp/StaticInit.antt =====
-- `for_static_init` of src/wavm/openmp.cpp at 32-bit signed loop variables
-- (`__kmpc_for_static_init_4`).
use faasm.Prelude.{ℕ, ◌-◌, ◌/◌, ◌%◌, ◌^◌, Bool, true, Result, ok, err, ltb, ◌==◌, if◌then◌else◌}
use faasm.Prelude.Words.{add, sub, mul, neg, is_positive, div_signed, signed_less}
use faasm.OpenMp.{Error, unimplemented_schedule, divides_by_zero}

-- What the call writes through its pointers.
pub record Bounds : Type 0 where
  pub last_iter : Bool
  pub lower : ℕ
  pub upper : ℕ
  pub stride : ℕ

unfoldable pub trip_count : ℕ → ℕ → ℕ → ℕ
unfolding div_signed
trip_count lower upper incr =
    if incr == 1
    then add (sub upper lower) 1
    else if incr == 2 ^ 32 - 1
    then add (sub lower upper) 1
    else if is_positive incr
    then add (div_signed (sub upper lower) incr) 1
    else add (div_signed (sub lower upper) (neg incr)) 1

-- The case `sch_static_chunked`, with `count` the trip count.
unfoldable pub static_chunked : ℕ → ℕ → ℕ → ℕ → ℕ → ℕ → Bounds
static_chunked num_threads thread count lower incr chunk =
    let chunk' = if signed_less chunk 1 then 1 else chunk in
    let span = mul chunk' incr in
    let lower' = add lower (mul span thread) in
    record {
      last_iter = thread == sub count 1 / chunk' % num_threads;
      lower = lower';
      upper = sub (add lower' span) incr;
      stride = mul span num_threads;
    }

-- The case `sch_static` where there are fewer iterations than threads.
unfoldable pub static_small : ℕ → ℕ → ℕ → ℕ → ℕ → Bounds
static_small thread count lower upper incr =
    let mine = ltb thread count in
    let only = add lower (mul thread incr) in
    record {
      last_iter = thread == sub count 1;
      lower = if mine then only else add upper incr;
      upper = if mine then only else upper;
      stride = count;
    }

-- The case `sch_static` otherwise.
unfoldable pub static_balanced : ℕ → ℕ → ℕ → ℕ → ℕ → Bounds
static_balanced num_threads thread count lower incr =
    let small_chunk = count / num_threads in
    let extras = count % num_threads in
    let first = add (mul thread small_chunk) (if ltb thread extras then thread else extras) in
    let lower' = add lower (mul incr first) in
    record {
      last_iter = thread == num_threads - 1;
      lower = lower';
      upper = sub (add lower' (mul small_chunk incr)) (if ltb thread extras then 0 else incr);
      stride = count;
    }

-- The schedules are those of `sched_type`. An increment of 0 divides by 0.
unfoldable pub for_static_init : ℕ → ℕ → ℕ → Bounds → ℕ → ℕ → Result Error Bounds
unfolding trip_count static_chunked static_small static_balanced
for_static_init num_threads thread schedule b incr chunk =
    let count = trip_count b.lower b.upper incr in
    if num_threads == 1
    then ok (record b {
      last_iter = true;
      stride =
          if is_positive incr
          then add (sub b.upper b.lower) 1
          else neg (add (sub b.lower b.upper) 1);
    })
    else if incr == 0
    then err divides_by_zero
    else if schedule == 33
    then ok (static_chunked num_threads thread count b.lower incr chunk)
    else if schedule == 34
    then if ltb count num_threads
      then ok (static_small thread count b.lower b.upper incr)
      else ok (static_balanced num_threads thread count b.lower incr)
    else err unimplemented_schedule
