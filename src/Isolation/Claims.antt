-- ===== src/Isolation/Claims.antt =====
-- Claims and returns of network namespaces (src/system/NetworkNamespace.cpp).
use faasm.Prelude.{
  ℕ, zero, suc, ◌+◌, ◌<◌, ◌≡◌, refl, ap, subst, ◌∙◌, ◌⊎◌, Bool, not, ◌&&◌, true, false, List, [],
  ◌∷◌, ◌==◌, ltb, Result, ok, err, if◌then◌else◌, length, arith, inl, inr,
}
use faasm.Isolation.{
  namespaces_run_out, Config, Pool, names, return_network_namespace, claim_network_namespace, Error,
  take_back, initialise, is_empty,
}

-- A claim, and the return of the `i`-th namespace that is held, if there is one.
pub data Event : Type 0 where
  claim : Event
  give_back : ℕ → Event

abbrev pub fresh_pool : Pool
fresh_pool = record { namespaces = []; namespaces_initialised = false }

module _ (c : Config) where
  abbrev hold : List ℕ → Result Error ℕ × Pool → Pool × List ℕ
  hold held (err e, p) = (p, held)
  hold held (ok ns, p) = (p, ns ∷ held)

  abbrev return_nth : ℕ → Pool → List ℕ → Pool × List ℕ
  return_nth i p [] = (p, [])
  return_nth zero p (ns ∷ held) = (return_network_namespace c ns p, held)
  return_nth (suc i) p (ns ∷ held) = let (p', held') = return_nth i p held in (p', ns ∷ held')

  -- The pool and the namespaces that are held after the events, the last one first.
  abbrev pub after_events : List Event → Pool × List ℕ
  after_events [] = (fresh_pool, [])
  after_events (claim ∷ earlier) =
      let (p, held) = after_events earlier in hold held (claim_network_namespace c p)
  after_events (give_back i ∷ earlier) = let (p, held) = after_events earlier in return_nth i p held

abbrev pub occurrences : ℕ → List ℕ → ℕ
occurrences k [] = 0
occurrences k (a ∷ rest) = (if a == k then 1 else 0) + occurrences k rest

abbrev named : ℕ → ℕ → ℕ
named max k = if ltb k max then 1 else 0

occurrences-names : (k n : ℕ) → occurrences k (names n) ≡ named n k
unfolding names
occurrences-names k zero = ground arith
occurrences-names k (suc n) = ground (arith, occurrences-names k n)

length-names : (n : ℕ) → length (names n) ≡ n
unfolding names
length-names zero = refl
length-names (suc n) = omega (arith, length-names n)

module _ (max : ℕ) where
  -- Nothing is made and nothing is held, or each namespace is pooled or held, and once.
  data Accounted (p : Pool) (held : List ℕ) : Type 0 where
    not_made : p ≡ fresh_pool → held ≡ [] → Accounted p held
    made :
        p.namespaces_initialised ≡ true
        → ((k : ℕ) → occurrences k p.namespaces + occurrences k held ≡ named max k)
        → length p.namespaces + length held ≡ max
        → Accounted p held

  -- A claim gives a namespace of the configuration that is not held, or all of them are.
  abbrev Claimed : Result Error ℕ × Pool → List ℕ → Type 0
  Claimed r held =
      ((ns : ℕ) × (r.0 ≡ ok ns)
        × (ns < max)
        × (occurrences ns held ≡ 0)
        × (length held < max)
        × Accounted r.1 (ns ∷ held))
      ⊎ ((r.0 ≡ err namespaces_run_out) × (length held ≡ max) × Accounted r.1 held)

  take_back-Claimed :
      (p : Pool) (xs held : List ℕ)
      → p.namespaces ≡ xs
      → p.namespaces_initialised ≡ true
      → ((k : ℕ) → occurrences k xs + occurrences k held ≡ named max k)
      → length xs + length held ≡ max
      → Claimed (take_back false p xs) held
  take_back-Claimed p [] held e b o l = inr (
    refl,
    omega arith,
    made b (λ k. ap (λ t. occurrences k t + occurrences k held) e ∙ o k)
        (ap (λ t. length t + length held) e ∙ l),
  )
  take_back-Claimed p (ns ∷ xs) held e b o l =
      let here : (ns == ns) ≡ true = ground arith in
      let once = o ns in
      inl (
        ns,
        refl,
        ground arith,
        ground arith,
        ground arith,
        made b (λ k. omega (arith, o k)) (omega arith),
      )

module _ (c : Config) where
  return_nth-occurrences :
      (i : ℕ) (p : Pool) (held : List ℕ) (k : ℕ)
      → c.net_ns_off ≡ false
      → occurrences k (return_nth c i p held).0.namespaces + occurrences k (return_nth c i p held).1
        ≡ occurrences k p.namespaces + occurrences k held
  unfolding return_network_namespace
  return_nth-occurrences i p [] k on = refl
  return_nth-occurrences zero p (ns ∷ held) k on = rw on (omega arith)
  return_nth-occurrences (suc i) p (ns ∷ held) k on =
      omega (arith, return_nth-occurrences i p held k on)

  return_nth-length :
      (i : ℕ) (p : Pool) (held : List ℕ)
      → c.net_ns_off ≡ false
      → (length (return_nth c i p held).0.namespaces + length (return_nth c i p held).1
          ≡ length p.namespaces + length held)
        × ((return_nth c i p held).0.namespaces_initialised ≡ p.namespaces_initialised)
  unfolding return_network_namespace
  return_nth-length i p [] on = (refl, refl)
  return_nth-length zero p (ns ∷ held) on = rw on (omega arith, refl)
  return_nth-length (suc i) p (ns ∷ held) on =
      let (e, b) = return_nth-length i p held on in (omega arith, b)

  return_nth-Accounted :
      (i : ℕ) (p : Pool) (held : List ℕ)
      → c.net_ns_off ≡ false
      → Accounted c.max_net_ns p held
      → Accounted c.max_net_ns (return_nth c i p held).0 (return_nth c i p held).1
  return_nth-Accounted i p held on (not_made e h) = rw (e, h) (not_made refl refl)
  return_nth-Accounted i p held on (made b o l) =
      let (e, b') = return_nth-length i p held on in
      made (b' ∙ b) (λ k. return_nth-occurrences i p held k on ∙ o k) (e ∙ l)

  claim-Claimed :
      (p : Pool) (held : List ℕ)
      → c.net_ns_off ≡ false
      → 0 < c.max_net_ns
      → Accounted c.max_net_ns p held
      → Claimed c.max_net_ns (claim_network_namespace c p) held
  unfolding claim_network_namespace
  claim-Claimed p held on some_max (made b o l) =
      rw (on, initialised) (take_back-Claimed c.max_net_ns p p.namespaces held refl b o l)
    where
      by_flag :
          (xs : List ℕ) (flag : Bool)
          → flag ≡ true
          → initialise c p (is_empty xs && not flag) ≡ ok p
      by_flag [] true e = refl
      by_flag [] false e = cc
      by_flag (x ∷ xs) flag e = refl

      initialised : initialise c p (is_empty p.namespaces && not p.namespaces_initialised) ≡ ok p
      initialised = by_flag p.namespaces p.namespaces_initialised b
  claim-Claimed p held on some_max (not_made e h) =
      let some_names : (c.max_net_ns == 0) ≡ false = ground arith in
      rw (e, h)
        (rw (some_names, on)
          (take_back-Claimed c.max_net_ns
            (record { namespaces = names c.max_net_ns; namespaces_initialised = true })
            (names c.max_net_ns) [] refl refl (λ k. omega (arith, occurrences-names k c.max_net_ns))
            (omega (arith, length-names c.max_net_ns))))

  hold-Accounted :
      (held : List ℕ) (r : Result Error ℕ × Pool)
      → Claimed c.max_net_ns r held
      → Accounted c.max_net_ns (hold c held r).0 (hold c held r).1
  hold-Accounted held (err e, p) (inl (ns, bad, x, y, z, a)) = cc
  hold-Accounted held (err e, p) (inr (same, all, a)) = a
  hold-Accounted held (ok n, p) (inl (ns, same, below, new, room, a)) =
      let e : ns ≡ n = cc in subst (λ t. Accounted c.max_net_ns p (t ∷ held)) e a
  hold-Accounted held (ok n, p) (inr (bad, all, a)) = cc

  after-Accounted :
      (events : List Event)
      → c.net_ns_off ≡ false
      → 0 < c.max_net_ns
      → Accounted c.max_net_ns (after_events c events).0 (after_events c events).1
  after-Accounted [] on h = not_made refl refl
  after-Accounted (claim ∷ events) on h =
      hold-Accounted (after_events c events).1 (claim_network_namespace c (after_events c events).0)
        (claim-Claimed (after_events c events).0 (after_events c events).1 on h
          (after-Accounted events on h))
  after-Accounted (give_back i ∷ events) on h =
      return_nth-Accounted i (after_events c events).0 (after_events c events).1 on
        (after-Accounted events on h)

  -- Whatever was claimed and given back before, with namespaces on and a positive maximum, a claim
  -- gives a namespace below the maximum that nobody holds as long as fewer than the maximum are
  -- held, and it throws, since they have run out, when all of them are.
  pub claim_network_namespace-after_events :
      (events : List Event)
      → c.net_ns_off ≡ false
      → 0 < c.max_net_ns
      → ((length (after_events c events).1 < c.max_net_ns)
          × ((ns : ℕ) × ((claim_network_namespace c (after_events c events).0).0 ≡ ok ns)
              × (ns < c.max_net_ns)
              × (occurrences ns (after_events c events).1 ≡ 0)))
        ⊎ ((length (after_events c events).1 ≡ c.max_net_ns)
            × ((claim_network_namespace c (after_events c events).0).0 ≡ err namespaces_run_out))
  claim_network_namespace-after_events events on h =
      elim (claim-Claimed (after_events c events).0 (after_events c events).1 on h
        (after-Accounted events on h)) [
          | inl (ns, e, below, new, room, a) ↦ inl (room, (ns, e, below, new))
          | inr (e, all, a) ↦ inr (all, e)
        ]
