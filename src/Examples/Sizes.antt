-- ===== src/Examples/Sizes.antt =====
-- Runs of the linear memory, over a runtime whose memory is its number of pages.
use faasm.Prelude.{ℕ, ◌+◌, ◌-◌, ◌<◌, ◌≡◌, refl, [], ok, err, leb, if◌then◌else◌, arith, ◌⊎◌, length}
use faasm.Memory.{
  Runtime, success, out_of_max_size, Error, grow_memory, set_memory_size, get_memory_size_bytes,
}
use faasm.Memory.Sizes.{Laws}
use faasm.Memory.Grow.{grow_memory_cases}
use faasm.Memory.Break.{set_memory_size_cases}
use faasm.Memory.Stacks.{Stacks, IsLaid, ensure_thread_stacks, ensure_thread_stacks-IsLaid}

abbrev page_limit : ℕ
page_limit = 1000

abbrev pages_of : ℕ → ℕ
pages_of m = if leb m page_limit then m else page_limit

abbrev pub runtime : Runtime ℕ
runtime = record {
  num_pages = pages_of;
  max_pages = λ m. page_limit;
  grow = λ m k.
      if leb (pages_of m + k) page_limit
      then (success, pages_of m, pages_of m + k)
      else (out_of_max_size, pages_of m, pages_of m);
  shrink = λ m k. (success, pages_of m - k, pages_of m - k);
}

runtime-Laws : Laws runtime
runtime-Laws = record {
  max_bound = λ m. omega arith;
  size_bound = λ m. ground arith;
  grow_max = λ m k. refl;
  grow_pages = λ m k e. ground arith;
  grow_base = λ m k e. ground arith;
  grow_failure = λ m k ne. ground arith;
  shrink_max = λ m k. refl;
  shrink_pages = λ m k h e. (ground arith, ground arith);
  shrink_failure = λ m k ne. absurd (ne refl);
}

abbrev size_of : ℕ → ℕ
size_of m = get_memory_size_bytes runtime m

grow_memory_cases_example :
    (((grow_memory runtime 10 131072).0 ≡ ok (size_of 10))
      × (size_of (grow_memory runtime 10 131072).1 ≡ size_of 10 + 131072))
    ⊎ ((e : Error) × ((grow_memory runtime 10 131072).0 ≡ err e)
        × (size_of (grow_memory runtime 10 131072).1 ≡ size_of 10))
grow_memory_cases_example = grow_memory_cases runtime runtime-Laws 10 131072 (omega arith)

set_memory_size_cases_example :
    (((set_memory_size runtime 10 131072).0 ≡ ok tt)
      × (size_of (set_memory_size runtime 10 131072).1 ≡ 131072))
    ⊎ ((e : Error) × ((set_memory_size runtime 10 131072).0 ≡ err e)
        × (size_of (set_memory_size runtime 10 131072).1 ≡ size_of 10))
set_memory_size_cases_example = set_memory_size_cases runtime runtime-Laws 10 131072 (omega arith)

abbrev no_stacks : Stacks
no_stacks = record { thread_stacks = []; guards = [] }

ensure_thread_stacks-IsLaid_example :
    ((s' : Stacks) × (m' : ℕ) × (ensure_thread_stacks runtime 2097152 1 no_stacks 10 ≡ (ok s', m'))
      × (1 < length s'.thread_stacks)
      × IsLaid 2097152 65536 s'.thread_stacks s'.guards (size_of m'))
    ⊎ ((e : Error) × (m' : ℕ) × (ensure_thread_stacks runtime 2097152 1 no_stacks 10 ≡ (err e, m')))
ensure_thread_stacks-IsLaid_example =
    ensure_thread_stacks-IsLaid runtime runtime-Laws 2097152 (omega arith) 1 65536 no_stacks 10
      (omega arith) (omega arith)
