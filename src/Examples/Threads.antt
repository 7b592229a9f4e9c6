-- ===== src/Examples/Threads.antt =====
-- Runs of the pthreads of src/wasm/WasmModule.cpp, and of the namespaces of
-- src/system/NetworkNamespace.cpp.
use faasm.Prelude.{
  ℕ, ◌+◌, ◌*◌, ◌<◌, ◌≡◌, refl, true, false, none, some, List, [], ◌∷◌, ok, err, if◌then◌else◌,
  arith, length, map, ◌⊎◌,
}
use faasm.Pthreads.{PthreadCall, Message}
use faasm.Pthreads.Joins.{
  member, pointers, outcome, results_of, await_all, nothing_pending, queued, await_all-outcome,
}
use faasm.Pthreads.Mutexes.{
  Mutexes, MutexCall, lock, unlock, after, held, pthread_mutex_unlock, get_or_create_pthread_mutex,
  get_pthread_mutex, set_locked, pthread_mutex_trylock, pthread_mutex_lock, pthread_mutex_held,
}
use faasm.Isolation.{Config, Pool, Faaslet, namespaces_run_out, claim_network_namespace, shutdown}
use faasm.Isolation.Claims.{
  claim, give_back, after_events, occurrences, claim_network_namespace-after_events,
}
use faasm.Isolation.Leaks.{isolate_all, shutdown-isolate_all}

-- The ids of the messages of a batch.
abbrev batch_id : ℕ → ℕ
batch_id i = 100 + i

batch_id-differ : (i j : ℕ) → batch_id i ≡ batch_id j → i ≡ j
batch_id-differ i j e = omega arith

-- A thread returns its argument twice.
abbrev doubled : Message → ℕ
doubled m = 2 * m.input_data

abbrev first_call : PthreadCall
first_call = record { pthread_ptr = 4096; entry_func = 7; args_ptr = 21 }

abbrev second_call : PthreadCall
second_call = record { pthread_ptr = 8192; entry_func = 7; args_ptr = 30 }

joined_pointers :
    (q : ℕ) → member q (8192 ∷ 4096 ∷ []) ≡ member q (pointers (first_call ∷ second_call ∷ []))
joined_pointers q = ground arith

await_all-outcome_example :
    await_all batch_id
      (results_of doubled)
      (8192 ∷ 4096 ∷ [])
      (queued (first_call ∷ second_call ∷ []) [])
    ≡ (
      map (outcome batch_id doubled 0 (first_call ∷ second_call ∷ [])) (8192 ∷ 4096 ∷ []),
      nothing_pending,
    )
await_all-outcome_example =
    await_all-outcome batch_id doubled batch_id-differ (results_of doubled) first_call
      (second_call ∷ []) (8192 ∷ 4096 ∷ []) [] (λ msgs. refl) (ground arith) joined_pointers

abbrev mutex_calls : List MutexCall
mutex_calls = unlock 6 ∷ lock 5 ∷ lock 6 ∷ []

abbrev two_mutexes : Mutexes
two_mutexes = (5, true) ∷ (6, false) ∷ []

mutexes_after : after 16 mutex_calls ≡ some two_mutexes
unfolding pthread_mutex_lock pthread_mutex_unlock get_or_create_pthread_mutex get_pthread_mutex
    set_locked
mutexes_after = refl

pthread_mutex_held_example :
    ((pthread_mutex_trylock 16 5 two_mutexes).0 ≡ (if held 5 mutex_calls then 16 else 0))
    × ((pthread_mutex_lock 5 two_mutexes).0 ≡ (if held 5 mutex_calls then none else some 0))
pthread_mutex_held_example = pthread_mutex_held 16 5 mutex_calls two_mutexes mutexes_after

abbrev three_namespaces : Config
three_namespaces = record { max_net_ns = 3; net_ns_off = false }

-- Two claims, of which the first is given back.
abbrev held_namespaces : Pool × List ℕ
held_namespaces = after_events three_namespaces (give_back 1 ∷ claim ∷ claim ∷ [])

claim_network_namespace-after_events_example :
    ((length held_namespaces.1 < 3)
      × ((ns : ℕ) × ((claim_network_namespace three_namespaces held_namespaces.0).0 ≡ ok ns)
          × (ns < 3)
          × (occurrences ns held_namespaces.1 ≡ 0)))
    ⊎ ((length held_namespaces.1 ≡ 3)
        × ((claim_network_namespace three_namespaces held_namespaces.0).0 ≡ err namespaces_run_out))
claim_network_namespace-after_events_example =
    claim_network_namespace-after_events three_namespaces (give_back 1 ∷ claim ∷ claim ∷ []) refl
      (omega arith)

abbrev new_faaslet : Faaslet
new_faaslet = record {
  pool = record { namespaces = 2 ∷ 1 ∷ 0 ∷ []; namespaces_initialised = true };
  isolated_threads = [];
  ns = none;
}

abbrev given_back : Faaslet
given_back = shutdown three_namespaces (isolate_all three_namespaces (10 ∷ 11 ∷ []) new_faaslet)

shutdown-isolate_all_example : length given_back.pool.namespaces + length {A = ℕ} (11 ∷ []) ≡ 3
shutdown-isolate_all_example =
    shutdown-isolate_all three_namespaces 10 (11 ∷ []) new_faaslet refl (ground arith) (omega arith)
