-- ===== src/Pthreads.antt =====
-- Pthreads of a module: the queue of calls, the await and the mutexes of src/wasm/WasmModule.cpp, and
-- the calls of src/wavm/threads.cpp that use them. The ids of the messages of a batch and the executor
-- that runs a batch are arguments; the memory is a function from an address to a word.
use faasm.Prelude.{
  ℕ, zero, suc, ◌+◌, ◌^◌, ◌%◌, Bool, true, false, Option, none, some, List, [], ◌∷◌, ◌++◌, ◌==◌,
  if◌then◌else◌,
}
use faasm.Prelude.Maps.{NumberMap, find, insert, erase}
pub mod Joins
pub mod Mutexes

pub record PthreadCall : Type 0 where
  pub pthread_ptr : ℕ
  pub entry_func : ℕ
  pub args_ptr : ℕ

-- What the await sets in a message, but for the application's id, which is the caller's; the input
-- data is the number that the string holds.
pub record Message : Type 0 where
  pub id : ℕ
  pub func_ptr : ℕ
  pub input_data : ℕ
  pub app_idx : ℕ
  pub group_idx : ℕ

abbrev pub value_or_zero : Option ℕ → ℕ
value_or_zero none = 0
value_or_zero (some v) = v

pub record Threads : Type 0 where
  pub queued_pthread_calls : List PthreadCall
  pub pthread_ptrs_to_chained_calls : NumberMap ℕ
  pub last_pthread_results : NumberMap ℕ

-- `queuePthreadCall`.
pub queue_pthread_call : PthreadCall → Threads → Threads
queue_pthread_call call s = record s { queued_pthread_calls = s.queued_pthread_calls ++ call ∷ [] }

-- `pthread_create`: the pointer in the thread's own record, and the queue.
abbrev store_word : ℕ → ℕ → (ℕ → ℕ) → ℕ → ℕ
store_word p v memory q = if q == p then v else memory q

unfoldable pub pthread_create : ℕ → ℕ → ℕ → (ℕ → ℕ) × Threads → ℕ × (ℕ → ℕ) × Threads
unfolding queue_pthread_call
pthread_create ptr entry args (memory, s) = (
  0,
  store_word ptr ptr memory,
  queue_pthread_call (record { pthread_ptr = ptr; entry_func = entry; args_ptr = args }) s,
)

-- The results, which are cleared with the last mapping.
abbrev pub keep_results : NumberMap ℕ → NumberMap ℕ → NumberMap ℕ
keep_results [] results = []
keep_results (e ∷ m) results = results

abbrev pub finish_join : Threads → ℕ → Option ℕ → Option ℕ × Threads
finish_join s ptr none = (none, s)
finish_join s ptr (some result) = (
  some result,
  record s {
    pthread_ptrs_to_chained_calls = erase ptr s.pthread_ptrs_to_chained_calls;
    last_pthread_results =
        keep_results (erase ptr s.pthread_ptrs_to_chained_calls) s.last_pthread_results;
  },
)

-- The result of one call: a pointer without a mapping gets one to 0 from the look-up.
unfoldable pub take_result : ℕ → Threads → Option ℕ × Threads
unfolding find insert erase
take_result ptr s =
    let mid = value_or_zero (find ptr s.pthread_ptrs_to_chained_calls) in
    finish_join
      (record s { pthread_ptrs_to_chained_calls = insert ptr 0 s.pthread_ptrs_to_chained_calls })
      ptr (find mid s.last_pthread_results)

module _ (new_id : ℕ → ℕ) where
  abbrev pub message : ℕ → PthreadCall → Message
  message i call = record {
    id = new_id i;
    func_ptr = call.entry_func;
    input_data = call.args_ptr;
    app_idx = i + 1;
    group_idx = i + 1;
  }

  -- The messages of the queued calls from the `i`-th.
  unfoldable pub messages : ℕ → List PthreadCall → List Message
  messages i [] = []
  messages i (call ∷ calls) = message i call ∷ messages (i + 1) calls

  -- The map after the queued calls from the `i`-th are recorded.
  unfoldable pub record_calls : ℕ → List PthreadCall → NumberMap ℕ → NumberMap ℕ
  unfolding insert
  record_calls i [] m = m
  record_calls i (call ∷ calls) m =
      record_calls (i + 1) calls (insert call.pthread_ptr (new_id i) m)

module _ (new_id : ℕ → ℕ) (execute_threads : List Message → NumberMap ℕ) where
  -- Run the queue, unless it is empty.
  abbrev run_queue : List PthreadCall → Threads → Threads
  run_queue [] s = s
  run_queue (call ∷ calls) s = record {
    queued_pthread_calls = [];
    pthread_ptrs_to_chained_calls =
        record_calls new_id 0 (call ∷ calls) s.pthread_ptrs_to_chained_calls;
    last_pthread_results = execute_threads (messages new_id 0 (call ∷ calls));
  }

  unfoldable pub execute_queued : Threads → Threads
  unfolding messages record_calls
  execute_queued s = run_queue s.queued_pthread_calls s

  -- `awaitPthreadCall`; none for the exception.
  unfoldable pub await_pthread_call : ℕ → Threads → Option ℕ × Threads
  unfolding execute_queued take_result
  await_pthread_call ptr s = take_result ptr (execute_queued s)

  -- `pthread_join`: the result is written where the caller asks; an exception writes nothing.
  abbrev write_result : ℕ → (ℕ → ℕ) → Option ℕ × Threads → Option ℕ × (ℕ → ℕ) × Threads
  write_result res memory (none, s) = (none, memory, s)
  write_result res memory (some v, s) = (some 0, store_word res v memory, s)

  unfoldable pub pthread_join : ℕ → ℕ → (ℕ → ℕ) × Threads → Option ℕ × (ℕ → ℕ) × Threads
  unfolding await_pthread_call
  pthread_join ptr res (memory, s) = write_result res memory (await_pthread_call ptr s)

-- The operations of a futex.
pub data FutexOp : Type 0 where
  futex_wait futex_wait_private futex_wake futex_wake_private futex_other : FutexOp

-- `s__futex`: waiting changes the word, so that the caller's test fails, and waking changes nothing.
pub futex : ℕ → FutexOp → ℕ → (ℕ → ℕ) → Option ℕ × (ℕ → ℕ)
futex uaddr futex_wait val memory = (some 0, store_word uaddr ((memory uaddr + 1) % 2 ^ 32) memory)
futex uaddr futex_wait_private val memory =
    (some 0, store_word uaddr ((memory uaddr + 1) % 2 ^ 32) memory)
futex uaddr futex_wake val memory = (some val, memory)
futex uaddr futex_wake_private val memory = (some val, memory)
futex uaddr futex_other val memory = (none, memory)
