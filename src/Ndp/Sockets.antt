-- ===== src/Ndp/Sockets.antt =====
-- The map of sockets behind `onFirstReceivable` and the destructor of a connection
-- (src/wasm/ndp_endpoint.cpp).
use faasm.Prelude.{
  ℕ, ◌≡◌, refl, ◌∙◌, true, false, none, some, [], ◌∷◌, ◌==◌, if◌then◌else◌, Bool-cases, inl, inr,
  arith,
}
use faasm.Prelude.Maps.{NumberMap, find, put, erase, find-put, find-erase}
use faasm.Ceph.Session.{ndp_ok, ndp_error, ndp_process_locally}
use faasm.Ndp.{
  Endpoint, Request, has_capacity, should_offload, on_first_receivable, is_held, end_connection,
  get_ndp_socket_from_call,
}

itself : (k : ℕ) → (k == k) ≡ true
itself k = ground arith

is_held-put : (c k : ℕ) (m : NumberMap ℕ) → is_held c (put k c m) ≡ true
unfolding is_held put
is_held-put c k [] = rw (itself c) refl
is_held-put c k ((a, b) ∷ m) = elim (Bool-cases (a == k)) [
  | inl t ↦ rw t (rw (itself c) refl)
  | inr t ↦
      rw t (elim (Bool-cases (b == c)) [ inl u ↦ rw u refl | inr u ↦ rw u (is_held-put c k m) ])
]

-- A call that is offloaded under a new number and scheduled is answered with ok, and its socket stays
-- in the map after the connection has ended.
pub end_connection-offloaded :
    (r : Request) (e : Endpoint)
    → should_offload r e ≡ true
    → find r.call_id e.ndp_socket_map ≡ none
    → r.scheduled ≡ true
    → ((on_first_receivable r e).0 ≡ ndp_ok)
      × (get_ndp_socket_from_call r.call_id
            (end_connection r.connection r.call_id (on_first_receivable r e).2)
          ≡ some r.connection)
unfolding on_first_receivable end_connection
end_connection-offloaded r e o n s = (
  rw (o, n, s) refl,
  rw (o, n)
      (rw (is_held-put r.connection r.call_id e.ndp_socket_map)
        (find-put r.call_id r.call_id r.connection e.ndp_socket_map ∙ rw (itself r.call_id) refl)),
)

-- A request under the number of a call that is running is refused or declined, and when the connection
-- that brought it, which is not in the map, has ended, the running call has no socket any more.
pub end_connection-duplicate :
    (r : Request) (e : Endpoint) (running : ℕ)
    → find r.call_id e.ndp_socket_map ≡ some running
    → is_held r.connection e.ndp_socket_map ≡ false
    → ((on_first_receivable r e).0
        ≡ (if should_offload r e then ndp_error else ndp_process_locally))
      × (get_ndp_socket_from_call r.call_id
            (end_connection r.connection r.call_id (on_first_receivable r e).2)
          ≡ none)
unfolding on_first_receivable end_connection
end_connection-duplicate r e running f h =
    let gone : find r.call_id (erase r.call_id e.ndp_socket_map) ≡ none =
      find-erase r.call_id r.call_id e.ndp_socket_map ∙ rw (itself r.call_id) refl in
    elim (Bool-cases (should_offload r e)) [
      | inl t ↦ rw (f, t) (refl, rw h gone)
      | inr t ↦ elim (Bool-cases (has_capacity e)) [
        | inl u ↦ rw (f, t, u) (refl, rw h gone)
        | inr u ↦ rw (f, t, u) (refl, rw h gone)
      ]
    ]
