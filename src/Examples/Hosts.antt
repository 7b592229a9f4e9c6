-- ===== src/Examples/Hosts.antt =====
-- Runs of the endpoint of src/wasm/ndp_endpoint.cpp, and of the environment of src/wavm/env.cpp.
use faasm.Prelude.{ℕ, ◌≡◌, refl, true, false, none, some, [], ◌∷◌, if◌then◌else◌, inl, inr, arith}
use faasm.Prelude.Maps.{find}
use faasm.Ceph.Session.{ndp_error, ndp_process_locally}
use faasm.Ndp.{
  Endpoint, Request, Utilisation, should_offload, on_first_receivable, end_connection, is_held,
  get_ndp_socket_from_call,
}
use faasm.Ndp.Slots.{run_requests, run_requests_exhausted}
use faasm.Ndp.Sockets.{end_connection-duplicate}
use faasm.Environment.{Vars, get_vars, get_env_buffer_size, sum_of_vars, environ_get}
use faasm.Environment.Arrays.{Placed, environ_get-Placed}

abbrev busy : Utilisation
busy = record { cpu_below = false; ram_below = true; load_below = true }

abbrev idle : Utilisation
idle = record { cpu_below = true; ram_below = true; load_below = true }

abbrev request : ℕ → Utilisation → Request
request c u = record { connection = c; call_id = 40; utilisation = u; scheduled = true }

abbrev two_slots : Endpoint
two_slots = record { execution_slots = 2; ndp_socket_map = [] }

run_requests_exhausted_example :
    ((run_requests (request 1 busy ∷ request 2 busy ∷ []) two_slots).execution_slots ≡ 0)
    × ((on_first_receivable
          (request 3 idle)
          (run_requests (request 1 busy ∷ request 2 busy ∷ []) two_slots)).0
        ≡ ndp_process_locally)
run_requests_exhausted_example =
    run_requests_exhausted (request 1 busy ∷ request 2 busy ∷ []) (request 3 idle) two_slots
      (refl, (refl, tt)) (omega arith)

abbrev one_call : Endpoint
one_call = record { execution_slots = 2; ndp_socket_map = (40, 7) ∷ [] }

running_seven : find 40 one_call.ndp_socket_map ≡ some 7
unfolding find
running_seven = refl

eight_is_free : is_held 8 one_call.ndp_socket_map ≡ false
unfolding is_held
eight_is_free = refl

end_connection-duplicate_example :
    ((on_first_receivable (request 8 idle) one_call).0
      ≡ (if should_offload (request 8 idle) one_call then ndp_error else ndp_process_locally))
    × (get_ndp_socket_from_call 40
          (end_connection 8 40 (on_first_receivable (request 8 idle) one_call).2)
        ≡ none)
end_connection-duplicate_example =
    end_connection-duplicate (request 8 idle) one_call 7 running_seven eight_is_free

-- The variable "A=B".
abbrev one_variable : Vars
one_variable = (65 ∷ [], 66 ∷ []) ∷ []

size_of_one : sum_of_vars one_variable ≡ 4
unfolding sum_of_vars
size_of_one = refl

reported_size : get_env_buffer_size one_variable ≡ 4
unfolding get_env_buffer_size sum_of_vars
reported_size = refl

environ_get-Placed_example :
    Placed (get_vars one_variable) 16 64 (λ a. 7) (environ_get one_variable 16 64 (λ a. 7))
    × (environ_get one_variable 16 64 (λ a. 7) 100 ≡ 7)
environ_get-Placed_example =
    environ_get-Placed one_variable 16 64 100 (λ a. 7) (omega arith) (omega (arith, size_of_one))
      (omega arith) (omega (arith, reported_size)) (inl (omega arith)) (inr (omega arith))
      (inr (omega (arith, reported_size)))
