-- ===== src/Isolation/Leaks.antt =====
-- What a Faaslet gives back (src/faaslet/Faaslet.cpp).
use faasm.Prelude.{
  ℕ, suc, ◌+◌, ◌≤◌, ◌<◌, ◌≡◌, refl, ap, true, false, some, ok, List, [], ◌∷◌, length, arith,
}
use faasm.Isolation.{
  Config, Pool, Faaslet, member, isolate_thread, shutdown, claim_network_namespace,
  return_network_namespace,
}

module _ (c : Config) where
  -- The threads of a Faaslet that run a task, one after the other; each can join its namespace.
  abbrev pub isolate_all : List ℕ → Faaslet → Faaslet
  isolate_all [] f = f
  isolate_all (thread ∷ threads) f = isolate_all threads (isolate_thread c (λ ns. true) thread f).1

  abbrev AllDifferent : List ℕ → List ℕ → Type 0
  AllDifferent seen [] = Unit
  AllDifferent seen (t ∷ ts) = (member t seen ≡ false) × AllDifferent (t ∷ seen) ts

  claim-listed :
      (p : Pool) (ns : ℕ) (rest xs : List ℕ)
      → c.net_ns_off ≡ false
      → p.namespaces ≡ ns ∷ rest
      → claim_network_namespace c p ≡ (ok ns, record p { namespaces = rest })
  unfolding claim_network_namespace
  claim-listed p ns rest xs on e = rw e (rw on refl)

  isolate_thread-new :
      (thread ns : ℕ) (rest : List ℕ) (f : Faaslet)
      → c.net_ns_off ≡ false
      → member thread f.isolated_threads ≡ false
      → f.pool.namespaces ≡ ns ∷ rest
      → (isolate_thread c (λ ns. true) thread f).1 ≡ record {
        pool = record f.pool { namespaces = rest };
        isolated_threads = thread ∷ f.isolated_threads;
        ns = some ns;
      }
  unfolding isolate_thread
  isolate_thread-new thread ns rest f on new e =
      rw (new, claim-listed f.pool ns rest f.pool.namespaces on e) (rw on refl)

  abbrev next : ℕ → ℕ → List ℕ → Faaslet → Faaslet
  next thread ns rest f = record {
    pool = record f.pool { namespaces = rest };
    isolated_threads = thread ∷ f.isolated_threads;
    ns = some ns;
  }

  isolate_all-next :
      (thread ns : ℕ) (threads rest : List ℕ) (f : Faaslet)
      → c.net_ns_off ≡ false
      → member thread f.isolated_threads ≡ false
      → f.pool.namespaces ≡ ns ∷ rest
      → isolate_all (thread ∷ threads) f ≡ isolate_all threads (next thread ns rest f)
  isolate_all-next thread ns threads rest f on new e =
      ap (isolate_all threads) (isolate_thread-new thread ns rest f on new e)

  nonempty : (xs : List ℕ) → 0 < length xs → (x : ℕ) × (rest : List ℕ) × (xs ≡ x ∷ rest)
  nonempty [] h = absurd (omega arith)
  nonempty (x ∷ rest) h = (x, rest, refl)

  isolate_all_pool :
      (threads : List ℕ) (f : Faaslet) (last : ℕ)
      → c.net_ns_off ≡ false
      → f.ns ≡ some last
      → AllDifferent f.isolated_threads threads
      → length threads ≤ length f.pool.namespaces
      → (ns : ℕ) × ((isolate_all threads f).ns ≡ some ns)
        × (length (isolate_all threads f).pool.namespaces + length threads
            ≡ length f.pool.namespaces)
  isolate_all_pool [] f last on at d h = (last, at, omega arith)
  isolate_all_pool (thread ∷ threads) f last on at d h =
      let (ns, rest, e) = nonempty f.pool.namespaces (omega arith) in
      let size : length f.pool.namespaces ≡ suc (length rest) = ap length e in
      let (kept, at', out) =
        isolate_all_pool threads (next thread ns rest f) ns on refl d.1 (omega arith) in
      rw (isolate_all-next thread ns threads rest f on d.0 e) (kept, at', omega arith)

  length-shutdown :
      (f : Faaslet) (ns : ℕ)
      → c.net_ns_off ≡ false
      → f.ns ≡ some ns
      → length (shutdown c f).pool.namespaces ≡ suc (length f.pool.namespaces)
  unfolding shutdown return_network_namespace
  length-shutdown f ns on e = rw e (rw on refl)

  -- When different threads that are not isolated yet run tasks of one Faaslet, and the pool has a
  -- namespace for each of them, shutting the Faaslet down gives back only one: the pool is smaller
  -- by the number of the other threads.
  pub shutdown-isolate_all :
      (thread : ℕ) (threads : List ℕ) (f : Faaslet)
      → c.net_ns_off ≡ false
      → AllDifferent f.isolated_threads (thread ∷ threads)
      → length (thread ∷ threads) ≤ length f.pool.namespaces
      → length (shutdown c (isolate_all (thread ∷ threads) f)).pool.namespaces + length threads
        ≡ length f.pool.namespaces
  shutdown-isolate_all thread threads f on d h =
      let (ns, rest, e) = nonempty f.pool.namespaces (omega arith) in
      let size : length f.pool.namespaces ≡ suc (length rest) = ap length e in
      let (kept, at, out) =
        isolate_all_pool threads (next thread ns rest f) ns on refl d.1 (omega arith) in
      rw (isolate_all-next thread ns threads rest f on d.0 e)
        (omega (arith, length-shutdown (isolate_all threads (next thread ns rest f)) kept on at))
