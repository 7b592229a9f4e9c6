-- ===== src/Pthreads/Joins.antt =====
-- Joining the pthreads of a module (`awaitPthreadCall` of src/wasm/WasmModule.cpp).
use faasm.Prelude.{
  ℕ, ◌+◌, ◌≤◌, ◌≡◌, refl, sym, ap, ◌∙◌, Bool, true, false, ◌||◌, Option, none, some, List, [], ◌∷◌,
  ◌==◌, if◌then◌else◌, map, arith, Bool-cases, Option-cases, inl, inr,
}
use faasm.Pthreads.{
  PthreadCall, Message, Threads, message, messages, record_calls, execute_queued, take_result,
  await_pthread_call, keep_results,
}
use faasm.Prelude.Maps.{
  NumberMap, find, insert, erase, or_else, find-insert, find-erase, nothing_found,
}

abbrev pub member : ℕ → List ℕ → Bool
member k [] = false
member k (a ∷ rest) = (a == k) || member k rest

abbrev pub is_some {ℓ} : {A : Type ℓ} → Option A → Bool
is_some none = false
is_some (some a) = true

abbrev pub AllDifferent : List ℕ → Type 0
AllDifferent [] = Unit
AllDifferent (a ∷ rest) = (member a rest ≡ false) × AllDifferent rest

-- The pointers of the calls.
abbrev pub pointers : List PthreadCall → List ℕ
pointers calls = map (λ c. c.pthread_ptr) calls

abbrev pub nothing_pending : Threads
nothing_pending = record {
  queued_pthread_calls = [];
  pthread_ptrs_to_chained_calls = [];
  last_pthread_results = [];
}

-- Calls are queued, none of them is mapped, and old results may be left.
abbrev pub queued : List PthreadCall → NumberMap ℕ → Threads
queued calls old = record {
  queued_pthread_calls = calls;
  pthread_ptrs_to_chained_calls = [];
  last_pthread_results = old;
}

module _ (new_id : ℕ → ℕ) (execute_threads : List Message → NumberMap ℕ) where
  -- The results of awaiting the pointers in turn, and the state after it.
  abbrev pub await_all : List ℕ → Threads → List (Option ℕ) × Threads
  await_all [] s = ([], s)
  await_all (ptr ∷ rest) s =
      let (result, s') = await_pthread_call new_id execute_threads ptr s in
      let (results, last) = await_all rest s' in (result ∷ results, last)

-- The results of the messages that `run` gives, in their order.
abbrev pub results_of : (Message → ℕ) → List Message → NumberMap ℕ
results_of run msgs = map (λ m. (m.id, run m)) msgs

module _ (new_id : ℕ → ℕ) (run : Message → ℕ) where
  -- What `run` gives for the first call with this pointer, among the calls from the `i`-th.
  abbrev pub outcome : ℕ → List PthreadCall → ℕ → Option ℕ
  outcome i [] ptr = none
  outcome i (call ∷ calls) ptr =
      if call.pthread_ptr == ptr
      then some (run (message new_id i call))
      else outcome (i + 1) calls ptr

  -- The id of the first call with this pointer.
  abbrev id_of : ℕ → List PthreadCall → ℕ → Option ℕ
  id_of i [] ptr = none
  id_of i (call ∷ calls) ptr =
      if call.pthread_ptr == ptr then some (new_id i) else id_of (i + 1) calls ptr

  find-record_calls :
      (ptr i : ℕ) (calls : List PthreadCall) (m : NumberMap ℕ)
      → find ptr (record_calls new_id i calls m) ≡ or_else (find ptr m) (id_of i calls ptr)
  unfolding record_calls
  find-record_calls ptr i [] m = elim (Option-cases (find ptr m)) [
    | inl e ↦ rw e refl
    | inr (v, e) ↦ rw e refl
  ]
  find-record_calls ptr i (call ∷ calls) m =
      rw
        (
          find-record_calls ptr (i + 1) calls (insert call.pthread_ptr (new_id i) m),
          find-insert ptr call.pthread_ptr (new_id i) m,
        )
        (elim (Option-cases (find ptr m)) [
          | inl e ↦ rw e (elim (Bool-cases (call.pthread_ptr == ptr)) [
            | inl t ↦ rw t refl
            | inr t ↦ rw t refl
          ])
          | inr (v, e) ↦ rw e refl
        ])

  id_of-member :
      (i ptr : ℕ) (calls : List PthreadCall)
      → is_some (id_of i calls ptr) ≡ member ptr (pointers calls)
  id_of-member i ptr [] = refl
  id_of-member i ptr (call ∷ calls) = elim (Bool-cases (call.pthread_ptr == ptr)) [
    | inl t ↦ rw t refl
    | inr t ↦ rw t (id_of-member (i + 1) ptr calls)
  ]

  id_of-index :
      (i ptr mid : ℕ) (calls : List PthreadCall)
      → id_of i calls ptr ≡ some mid
      → (j : ℕ) × (i ≤ j) × (mid ≡ new_id j)
  id_of-index i ptr mid [] h = cc
  id_of-index i ptr mid (call ∷ calls) h = elim (Bool-cases (call.pthread_ptr == ptr)) [
    | inl t ↦ (i, omega arith, ground arith)
    | inr t ↦
        let (j, b, e) = id_of-index (i + 1) ptr mid calls (ground arith) in (j, omega arith, e)
  ]

  module _ (fresh : (i j : ℕ) → new_id i ≡ new_id j → i ≡ j) where
    find-results :
        (i ptr mid : ℕ) (calls : List PthreadCall)
        → id_of i calls ptr ≡ some mid
        → (v : ℕ) × (find mid (results_of run (messages new_id i calls)) ≡ some v)
          × (outcome i calls ptr ≡ some v)
    unfolding find messages
    find-results i ptr mid [] h = cc
    find-results i ptr mid (call ∷ calls) h = elim (Bool-cases (call.pthread_ptr == ptr)) [
      | inl t ↦ (run (message new_id i call), ground arith, rw t refl)
      | inr t ↦
          let later : id_of (i + 1) calls ptr ≡ some mid = ground arith in
          let (v, e, o) = find-results (i + 1) ptr mid calls later in
          let (j, b, at) = id_of-index (i + 1) ptr mid calls later in
          let other : (new_id i == mid) ≡ false = ground (arith, fresh i j) in
          (v, rw other e, rw t o)
    ]

    module _ (execute_threads : List Message → NumberMap ℕ) where
      abbrev joining : List PthreadCall → NumberMap ℕ → Threads
      joining calls m = record {
        queued_pthread_calls = [];
        pthread_ptrs_to_chained_calls = m;
        last_pthread_results = results_of run (messages new_id 0 calls);
      }

      is_some-value : (o : Option ℕ) → is_some o ≡ true → (v : ℕ) × (o ≡ some v)
      is_some-value none e = cc
      is_some-value (some v) e = (v, refl)

      is_some-none : (o : Option ℕ) → is_some o ≡ false → o ≡ none
      is_some-none none e = refl
      is_some-none (some v) e = cc

      keep_results-found :
          (m : NumberMap ℕ) (q : ℕ) (results : NumberMap ℕ)
          → is_some (find q m) ≡ true
          → keep_results m results ≡ results
      unfolding find
      keep_results-found [] q results e = cc
      keep_results-found (x ∷ m) q results e = refl

      -- The mappings that are left are to the ids of the calls.
      abbrev MapsTo : List PthreadCall → NumberMap ℕ → Type 0
      MapsTo calls m = (ptr mid : ℕ) → find ptr m ≡ some mid → id_of 0 calls ptr ≡ some mid

      await-mapped :
          (calls : List PthreadCall) (m : NumberMap ℕ) (ptr mid : ℕ)
          → find ptr m ≡ some mid
          → id_of 0 calls ptr ≡ some mid
          → await_pthread_call new_id execute_threads ptr (joining calls m) ≡ (
            outcome 0 calls ptr,
            record (joining calls (erase ptr m)) {
              last_pthread_results =
                  keep_results (erase ptr m) (results_of run (messages new_id 0 calls));
            },
          )
      unfolding await_pthread_call execute_queued take_result insert
      await-mapped calls m ptr mid h at =
          let (v, e, o) = find-results 0 ptr mid calls at in rw h (rw (e, o) refl)

      covers-erase :
          (order : List ℕ) (m : NumberMap ℕ) (ptr : ℕ)
          → AllDifferent (ptr ∷ order)
          → ((q : ℕ) → member q (ptr ∷ order) ≡ is_some (find q m))
          → (q : ℕ) → member q order ≡ is_some (find q (erase ptr m))
      covers-erase order m ptr d c q = elim (Bool-cases (ptr == q)) [
        | inl t ↦
            let same : ptr ≡ q = ground arith in
            rw (find-erase q ptr m, t) (ap (λ x. member x order) (sym same) ∙ d.0)
        | inr t ↦
            let e : ((ptr == q) || member q order) ≡ is_some (find q m) = c q in
            rw (find-erase q ptr m, t) (ap (λ x. x || member q order) (sym t) ∙ e)
      ]

      MapsTo-erase :
          (calls : List PthreadCall) (m : NumberMap ℕ) (ptr : ℕ)
          → MapsTo calls m
          → MapsTo calls (erase ptr m)
      MapsTo-erase calls m ptr h q mid e =
          let at = sym (find-erase q ptr m) ∙ e in
          elim (Bool-cases (ptr == q)) [
            | inl t ↦
                let bad : none ≡ some mid = ap (λ x. if x then none else find q m) (sym t) ∙ at in
                cc
            | inr t ↦ h q mid (ap (λ x. if x then none else find q m) (sym t) ∙ at)
          ]

      await_all_mapped :
          (calls : List PthreadCall) (order : List ℕ) (m : NumberMap ℕ) (ptr : ℕ)
          → AllDifferent (ptr ∷ order)
          → MapsTo calls m
          → ((q : ℕ) → member q (ptr ∷ order) ≡ is_some (find q m))
          → await_all new_id execute_threads (ptr ∷ order) (joining calls m)
            ≡ (map (outcome 0 calls) (ptr ∷ order), nothing_pending)
      await_all_mapped calls [] m ptr d h c =
          let (mid, at) = is_some-value (find ptr m) (sym (c ptr) ∙ ground arith) in
          let gone =
            nothing_found (erase ptr m)
              (λ q. is_some-none (find q (erase ptr m)) (sym (covers-erase [] m ptr d c q))) in
          rw (await-mapped calls m ptr mid at (h ptr mid at)) (rw gone refl)
      await_all_mapped calls (p ∷ order) m ptr d h c =
          let (mid, at) = is_some-value (find ptr m) (sym (c ptr) ∙ ground arith) in
          let kept =
            keep_results-found (erase ptr m) p (results_of run (messages new_id 0 calls))
              (sym (covers-erase (p ∷ order) m ptr d c p) ∙ ground arith) in
          rw (await-mapped calls m ptr mid at (h ptr mid at)) (
            rw kept (
              ap (λ r. (outcome 0 calls ptr ∷ r.0, r.1))
                (await_all_mapped calls order (erase ptr m) p d.1 (MapsTo-erase calls m ptr h)
                  (covers-erase (p ∷ order) m ptr d c))))

      await-queued :
          (call : PthreadCall) (calls : List PthreadCall) (ptr : ℕ) (old : NumberMap ℕ)
          → ((msgs : List Message) → execute_threads msgs ≡ results_of run msgs)
          → await_pthread_call new_id execute_threads ptr (queued (call ∷ calls) old)
            ≡ await_pthread_call new_id execute_threads ptr
                (joining (call ∷ calls) (record_calls new_id 0 (call ∷ calls) []))
      unfolding await_pthread_call execute_queued
      await-queued call calls ptr old runs = rw (runs (messages new_id 0 (call ∷ calls))) refl

      -- With message ids that differ and an executor that gives for each message its id and what it
      -- returned, awaiting each pointer of the queued calls once, in any order, gives for every one
      -- what the first call queued with it returned, and leaves no call, no mapping and no result.
      pub await_all-outcome :
          (call : PthreadCall) (calls : List PthreadCall) (order : List ℕ) (old : NumberMap ℕ)
          → ((msgs : List Message) → execute_threads msgs ≡ results_of run msgs)
          → AllDifferent order
          → ((q : ℕ) → member q order ≡ member q (pointers (call ∷ calls)))
          → await_all new_id execute_threads order (queued (call ∷ calls) old)
            ≡ (map (outcome 0 (call ∷ calls)) order, nothing_pending)
      unfolding find
      await_all-outcome call calls [] old runs d c =
          let bad : false ≡ member call.pthread_ptr (pointers (call ∷ calls)) =
            c call.pthread_ptr in
          absurd (ground arith)
      await_all-outcome call calls (ptr ∷ order) old runs d c =
          rw (await-queued call calls ptr old runs) (
            await_all_mapped (call ∷ calls) order (record_calls new_id 0 (call ∷ calls) []) ptr d
              (λ q mid e. sym (find-record_calls q 0 (call ∷ calls) []) ∙ e)
              (λ q.
                c q
                ∙ sym (id_of-member 0 q (call ∷ calls))
                ∙ ap is_some (sym (find-record_calls q 0 (call ∷ calls) []))))
