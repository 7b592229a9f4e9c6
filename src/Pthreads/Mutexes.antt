-- ===== src/Pthreads/Mutexes.antt =====
-- The mutexes of a module: `getPthreadMutex` and `getOrCreatePthreadMutex` of
-- src/wasm/WasmModule.cpp, and the calls of src/wavm/threads.cpp on them. A mutex of the C++ library
-- is whether it is locked; `none` is a call that waits, throws, or unlocks a mutex that is not locked,
-- which the library leaves undefined. What follows such a call is not followed.
use faasm.Prelude.{
  ℕ, ◌≡◌, refl, sym, ap, ◌∙◌, Bool, true, false, Option, none, some, List, [], ◌∷◌, ◌==◌,
  if◌then◌else◌, arith, Bool-cases, Option-cases, inl, inr,
}

abbrev pub Mutexes : Type 0
Mutexes = List (ℕ × Bool)

-- `getPthreadMutex`.
unfoldable pub get_pthread_mutex : ℕ → Mutexes → Option Bool
get_pthread_mutex id [] = none
get_pthread_mutex id ((a, locked) ∷ m) = if a == id then some locked else get_pthread_mutex id m

abbrev create_new : ℕ → Mutexes → Option Bool → Bool × Mutexes
create_new id m none = (false, (id, false) ∷ m)
create_new id m (some locked) = (locked, m)

-- `getOrCreatePthreadMutex`: whether the mutex is locked, and the mutexes with it.
unfoldable pub get_or_create_pthread_mutex : ℕ → Mutexes → Bool × Mutexes
unfolding get_pthread_mutex
get_or_create_pthread_mutex id m = create_new id m (get_pthread_mutex id m)

unfoldable pub set_locked : ℕ → Bool → Mutexes → Mutexes
set_locked id locked [] = []
set_locked id locked ((a, b) ∷ m) =
    if a == id then (a, locked) ∷ m else (a, b) ∷ set_locked id locked m

-- `pthread_mutex_lock`.
abbrev lock_free : ℕ → Bool × Mutexes → Option ℕ × Mutexes
lock_free id (true, m) = (none, m)
lock_free id (false, m) = (some 0, set_locked id true m)

unfoldable pub pthread_mutex_lock : ℕ → Mutexes → Option ℕ × Mutexes
unfolding get_or_create_pthread_mutex set_locked
pthread_mutex_lock id m = lock_free id (get_or_create_pthread_mutex id m)

-- `pthread_mutex_trylock`, with the value of EBUSY.
abbrev lock_or_busy : ℕ → ℕ → Bool × Mutexes → ℕ × Mutexes
lock_or_busy ebusy id (true, m) = (ebusy, m)
lock_or_busy ebusy id (false, m) = (0, set_locked id true m)

unfoldable pub pthread_mutex_trylock : ℕ → ℕ → Mutexes → ℕ × Mutexes
unfolding get_or_create_pthread_mutex set_locked
pthread_mutex_trylock ebusy id m = lock_or_busy ebusy id (get_or_create_pthread_mutex id m)

-- `pthread_mutex_unlock`.
abbrev unlock_found : ℕ → Mutexes → Option Bool → Option ℕ × Mutexes
unlock_found id m none = (none, m)
unlock_found id m (some false) = (none, m)
unlock_found id m (some true) = (some 0, set_locked id false m)

unfoldable pub pthread_mutex_unlock : ℕ → Mutexes → Option ℕ × Mutexes
unfolding get_pthread_mutex set_locked
pthread_mutex_unlock id m = unlock_found id m (get_pthread_mutex id m)

-- The calls that were made, the last one first.
pub data MutexCall : Type 0 where
  lock trylock unlock : ℕ → MutexCall

abbrev returned : Option ℕ × Mutexes → Option Mutexes
returned (none, m) = none
returned (some value, m) = some m

module _ (ebusy : ℕ) where
  abbrev then_call : MutexCall → Option Mutexes → Option Mutexes
  then_call c none = none
  then_call (lock id) (some m) = returned (pthread_mutex_lock id m)
  then_call (trylock id) (some m) = some (pthread_mutex_trylock ebusy id m).1
  then_call (unlock id) (some m) = returned (pthread_mutex_unlock id m)

  -- The mutexes after calls that have all returned.
  abbrev pub after : List MutexCall → Option Mutexes
  after [] = some []
  after (c ∷ earlier) = then_call c (after earlier)

-- Whether a mutex is held, from the calls alone.
abbrev pub held : ℕ → List MutexCall → Bool
held id [] = false
held id (lock j ∷ earlier) = if j == id then true else held id earlier
held id (trylock j ∷ earlier) = if j == id then true else held id earlier
held id (unlock j ∷ earlier) = if j == id then false else held id earlier

abbrev is_locked : Option Bool → Bool
is_locked none = false
is_locked (some locked) = locked

get-set_locked :
    (id j : ℕ) (b locked : Bool) (m : Mutexes)
    → get_pthread_mutex j m ≡ some b
    → get_pthread_mutex id (set_locked j locked m)
      ≡ (if j == id then some locked else get_pthread_mutex id m)
unfolding get_pthread_mutex set_locked
get-set_locked id j b locked [] h = cc
get-set_locked id j b locked ((a, c) ∷ m) h = elim (Bool-cases (a == j)) [
  | inl e ↦ let same : a ≡ j = ground arith in ground arith
  | inr e ↦
      let found : get_pthread_mutex j m ≡ some b =
        sym (ap (λ x. if x then some c else get_pthread_mutex j m) e) ∙ h in
      let rest = get-set_locked id j b locked m found in ground arith
]

-- Taking a mutex that is there locks it, whether it was locked or not, and no other one.
taken :
    (id j : ℕ) (b : Bool) (m : Mutexes)
    → get_pthread_mutex j m ≡ some b
    → is_locked (get_pthread_mutex id (if b then m else set_locked j true m))
      ≡ (if j == id then true else is_locked (get_pthread_mutex id m))
taken id j true m h = elim (Bool-cases (j == id)) [
  | inl e ↦
      let same : j ≡ id = ground arith in
      rw e (ap is_locked (ap (λ x. get_pthread_mutex x m) (sym same) ∙ h))
  | inr e ↦ rw e refl
]
taken id j false m h =
    rw (get-set_locked id j false true m h)
      (elim (Bool-cases (j == id)) [ inl e ↦ rw e refl | inr e ↦ rw e refl ])

get_or_create-get :
    (id j : ℕ) (m : Mutexes)
    → (get_pthread_mutex id (get_or_create_pthread_mutex id m).1
        ≡ some (get_or_create_pthread_mutex id m).0)
      × ((get_or_create_pthread_mutex id m).0 ≡ is_locked (get_pthread_mutex id m))
      × (is_locked (get_pthread_mutex j (get_or_create_pthread_mutex id m).1)
          ≡ is_locked (get_pthread_mutex j m))
unfolding get_or_create_pthread_mutex get_pthread_mutex
get_or_create-get id j m = elim (Option-cases (get_pthread_mutex id m)) [
  | inl e ↦
      let here : (id == id) ≡ true = ground arith in
      rw e (
        rw here refl,
        refl,
        elim (Bool-cases (id == j)) [
          | inl t ↦
              let same : id ≡ j = ground arith in
              rw t (sym (ap is_locked (ap (λ x. get_pthread_mutex x m) (sym same) ∙ e)))
          | inr t ↦ rw t refl
        ],
      )
  | inr (b, e) ↦ rw e (e, refl, refl)
]

lock-taken :
    (id j : ℕ) (m : Mutexes)
    → is_locked (get_pthread_mutex id (pthread_mutex_lock j m).1)
      ≡ (if j == id then true else is_locked (get_pthread_mutex id m))
unfolding pthread_mutex_lock
lock-taken id j m =
    let (at, value, others) = get_or_create-get j id m in
    let t = taken id j (get_or_create_pthread_mutex j m).0 (get_or_create_pthread_mutex j m).1 at in
    lock_free_taken (get_or_create_pthread_mutex j m)
    ∙ t
    ∙ ap (λ x. if j == id then true else x) others
  where
    lock_free_taken :
        (r : Bool × Mutexes)
        → is_locked (get_pthread_mutex id (lock_free j r).1)
          ≡ is_locked (get_pthread_mutex id (if r.0 then r.1 else set_locked j true r.1))
    lock_free_taken (true, m) = refl
    lock_free_taken (false, m) = refl

module _ (ebusy : ℕ) where
  same_state :
      (j : ℕ) (m : Mutexes) → (pthread_mutex_trylock ebusy j m).1 ≡ (pthread_mutex_lock j m).1
  unfolding pthread_mutex_lock pthread_mutex_trylock
  same_state j m = by_result (get_or_create_pthread_mutex j m)
    where
      by_result : (r : Bool × Mutexes) → (lock_or_busy ebusy j r).1 ≡ (lock_free j r).1
      by_result (true, m) = refl
      by_result (false, m) = refl

  unlock-released :
      (id j : ℕ) (m : Mutexes)
      → is_locked (get_pthread_mutex id (pthread_mutex_unlock j m).1)
        ≡ (if j == id then false else is_locked (get_pthread_mutex id m))
  unfolding pthread_mutex_unlock
  unlock-released id j m = elim (Option-cases (get_pthread_mutex j m)) [
    | inl e ↦ rw e (elim (Bool-cases (j == id)) [
      | inl t ↦
          let same : j ≡ id = ground arith in
          rw t (ap is_locked (ap (λ x. get_pthread_mutex x m) (sym same) ∙ e))
      | inr t ↦ rw t refl
    ])
    | inr (false, e) ↦ rw e (elim (Bool-cases (j == id)) [
      | inl t ↦
          let same : j ≡ id = ground arith in
          rw t (ap is_locked (ap (λ x. get_pthread_mutex x m) (sym same) ∙ e))
      | inr t ↦ rw t refl
    ])
    | inr (true, e) ↦ rw e (
        rw (get-set_locked id j true false m e)
          (elim (Bool-cases (j == id)) [ inl t ↦ rw t refl | inr t ↦ rw t refl ]))
  ]

  returned-state : (r : Option ℕ × Mutexes) (m : Mutexes) → returned r ≡ some m → r.1 ≡ m
  returned-state (none, m') m h = cc
  returned-state (some value, m') m h = cc

  abbrev next : MutexCall → Mutexes → Mutexes
  next (lock j) m = (pthread_mutex_lock j m).1
  next (trylock j) m = (pthread_mutex_lock j m).1
  next (unlock j) m = (pthread_mutex_unlock j m).1

  next_called :
      (c : MutexCall) (m m' : Mutexes) → then_call ebusy c (some m) ≡ some m' → next c m ≡ m'
  next_called (lock j) m m' h = returned-state (pthread_mutex_lock j m) m' h
  next_called (trylock j) m m' h =
      let made : (pthread_mutex_trylock ebusy j m).1 ≡ m' = cc in sym (same_state j m) ∙ made
  next_called (unlock j) m m' h = returned-state (pthread_mutex_unlock j m) m' h

  next-held :
      (id : ℕ) (c : MutexCall) (calls : List MutexCall) (m : Mutexes)
      → is_locked (get_pthread_mutex id m) ≡ held id calls
      → is_locked (get_pthread_mutex id (next c m)) ≡ held id (c ∷ calls)
  next-held id (lock j) calls m h = rw (lock-taken id j m, h) refl
  next-held id (trylock j) calls m h = rw (lock-taken id j m, h) refl
  next-held id (unlock j) calls m h = rw (unlock-released id j m, h) refl

  locked_held :
      (id : ℕ) (calls : List MutexCall) (m : Mutexes)
      → after ebusy calls ≡ some m
      → is_locked (get_pthread_mutex id m) ≡ held id calls
  unfolding get_pthread_mutex
  locked_held id [] m h =
      let same : [] ≡ m = cc in sym (ap (λ x. is_locked (get_pthread_mutex id x)) same)
  locked_held id (c ∷ calls) m h = elim (Option-cases (after ebusy calls)) [
    | inl n ↦ let bad : none ≡ some m = sym (ap (then_call ebusy c) n) ∙ h in cc
    | inr (m0, n) ↦
        let made : then_call ebusy c (some m0) ≡ some m = sym (ap (then_call ebusy c) n) ∙ h in
        sym (ap (λ x. is_locked (get_pthread_mutex id x)) (next_called c m0 m made))
        ∙ next-held id c calls m0 (locked_held id calls m0 n)
  ]

  -- After calls on the mutexes of a module that have all returned, `pthread_mutex_trylock` gives EBUSY
  -- and `pthread_mutex_lock` waits exactly when a call named the mutex and the last one that did was
  -- not an unlock; else both give 0. No call waits at that time, and each unlock was of a mutex that
  -- was locked.
  pub pthread_mutex_held :
      (id : ℕ) (calls : List MutexCall) (m : Mutexes)
      → after ebusy calls ≡ some m
      → ((pthread_mutex_trylock ebusy id m).0 ≡ (if held id calls then ebusy else 0))
        × ((pthread_mutex_lock id m).0 ≡ (if held id calls then none else some 0))
  unfolding pthread_mutex_lock pthread_mutex_trylock
  pthread_mutex_held id calls m h =
      let at = (get_or_create-get id id m).1 ∙ locked_held id calls m h in
      (
        busy (get_or_create_pthread_mutex id m) ∙ ap (λ b. if b then ebusy else 0) at,
        waits (get_or_create_pthread_mutex id m) ∙ ap (λ b. if b then none else some 0) at,
      )
    where
      busy : (r : Bool × Mutexes) → (lock_or_busy ebusy id r).0 ≡ (if r.0 then ebusy else 0)
      busy (true, m) = refl
      busy (false, m) = refl

      waits : (r : Bool × Mutexes) → (lock_free id r).0 ≡ (if r.0 then none else some 0)
      waits (true, m) = refl
      waits (false, m) = refl
