-- ===== src/Ndp/Slots.antt =====
-- The execution slots behind `onFirstReceivable` of src/wasm/ndp_endpoint.cpp.
use faasm.Prelude.{
  ◌-◌, ◌≤◌, ◌≡◌, refl, false, List, [], ◌∷◌, Bool-cases, inl, inr, length, All, arith,
}
use faasm.Ceph.Session.{ndp_process_locally}
use faasm.Ndp.{Endpoint, Request, is_below, has_capacity, should_offload, on_first_receivable}

unfoldable pub run_requests : List Request → Endpoint → Endpoint
unfolding on_first_receivable
run_requests [] e = e
run_requests (r ∷ rs) e = run_requests rs (on_first_receivable r e).2

-- A host that is too busy for the request.
abbrev pub IsBusy : Request → Type 0
IsBusy r = is_below r.utilisation ≡ false

not_offloaded : (r : Request) (e : Endpoint) → IsBusy r → should_offload r e ≡ false
not_offloaded r e h = elim (Bool-cases (has_capacity e)) [ inl t ↦ rw t h | inr t ↦ rw t refl ]

busy_step :
    (r : Request) (e : Endpoint)
    → IsBusy r
    → (on_first_receivable r e).2.execution_slots ≡ e.execution_slots - 1
unfolding on_first_receivable
busy_step r e h =
    rw (not_offloaded r e h)
      (elim (Bool-cases (has_capacity e)) [ inl t ↦ rw t refl | inr t ↦ rw t (ground (arith, t)) ])

busy_run :
    (rs : List Request) (e : Endpoint)
    → All IsBusy rs
    → (run_requests rs e).execution_slots ≡ e.execution_slots - length rs
unfolding run_requests
busy_run [] e h = omega arith
busy_run (r ∷ rs) e h =
    let step = busy_step r e h.0 in
    let rest = busy_run rs (on_first_receivable r e).2 h.1 in omega (arith, step, rest)

-- Each request that comes while the host is above a threshold takes a slot and keeps it. After as many
-- of them as there were slots, no request is offloaded, however idle the host is then.
pub run_requests_exhausted :
    (rs : List Request) (r : Request) (e : Endpoint)
    → All IsBusy rs
    → e.execution_slots ≤ length rs
    → ((run_requests rs e).execution_slots ≡ 0)
      × ((on_first_receivable r (run_requests rs e)).0 ≡ ndp_process_locally)
unfolding on_first_receivable
run_requests_exhausted rs r e h few =
    let left = busy_run rs e h in
    let none_left : (run_requests rs e).execution_slots ≡ 0 = omega (arith, left, few) in
    let full : has_capacity (run_requests rs e) ≡ false = rw none_left refl in
    (none_left, rw full refl)
