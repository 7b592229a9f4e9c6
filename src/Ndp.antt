-- ===== src/Ndp.antt =====
-- The endpoint that takes near-data calls from a storage host (src/wasm/ndp_endpoint.cpp). A connection
-- is a number, its request the number of the call. What comes of scheduling a function is an argument, and
-- so are the comparisons of the host's utilisation with the thresholds. Receiving a well-formed request
-- and answering it succeed.
use faasm.Prelude.{
  ℕ, ◌-◌, Bool, true, false, not, ◌&&◌, ◌||◌, Option, none, some, List, [], ◌∷◌, ◌==◌, ltb,
  if◌then◌else◌, Result, ok, err,
}
use faasm.Prelude.Maps.{NumberMap, find, put, erase}
use faasm.Ceph.Session.{NdpResult, ndp_ok, ndp_error, ndp_process_locally}
pub mod Slots
pub mod Sockets

-- `executionSlotsSemaphore` of the scheduler, by the slots that are free, and `ndpSocketMap`.
pub record Endpoint : Type 0 where
  pub execution_slots : ℕ
  pub ndp_socket_map : NumberMap ℕ

-- Whether the CPU, the memory and the load are below their thresholds.
pub record Utilisation : Type 0 where
  pub cpu_below : Bool
  pub ram_below : Bool
  pub load_below : Bool

abbrev pub is_below : Utilisation → Bool
is_below u = u.cpu_below && u.ram_below && u.load_below

pub record Request : Type 0 where
  pub connection : ℕ
  pub call_id : ℕ
  pub utilisation : Utilisation
  -- Whether `callFunction` takes the function.
  pub scheduled : Bool

-- `try_acquire` of a semaphore.
abbrev pub has_capacity : Endpoint → Bool
has_capacity e = ltb 0 e.execution_slots

abbrev pub should_offload : Request → Endpoint → Bool
should_offload r e = has_capacity e && is_below r.utilisation

-- `tryEmplace`, then `callFunction`; an exception of either is answered, and what was emplaced stays.
abbrev emplaced : Request → Endpoint → Option ℕ → NdpResult × Endpoint
emplaced r e (some other) = (ndp_error, e)
emplaced r e none = (
  if r.scheduled then ndp_ok else ndp_error,
  record e { ndp_socket_map = put r.call_id r.connection e.ndp_socket_map },
)

-- `onFirstReceivable`: the answer, whether the connection goes on to receive messages, and the endpoint.
-- The slot that was acquired is released where the call is offloaded.
unfoldable pub on_first_receivable : Request → Endpoint → NdpResult × Bool × Endpoint
unfolding find put
on_first_receivable r e =
    let acquired : Endpoint = record e { execution_slots = e.execution_slots - 1 } in
    let (result, after) = emplaced r e (find r.call_id e.ndp_socket_map) in
    if should_offload r e
    then (result, true, after)
    else (ndp_process_locally, has_capacity e, if has_capacity e then acquired else e)

-- Whether the map holds the connection, which then is not destroyed.
unfoldable pub is_held : ℕ → NumberMap ℕ → Bool
is_held c [] = false
is_held c ((k, d) ∷ m) = (d == c) || is_held c m

-- The end of the last handler of a connection: what the destructor does, which runs unless the map
-- holds the connection.
unfoldable pub end_connection : ℕ → ℕ → Endpoint → Endpoint
unfolding is_held erase
end_connection connection call_id e =
    if is_held connection e.ndp_socket_map
    then e
    else record e { ndp_socket_map = erase call_id e.ndp_socket_map }

-- `getNdpSocketFromCall`; none is the exception.
abbrev pub get_ndp_socket_from_call : ℕ → Endpoint → Option ℕ
get_ndp_socket_from_call id e = find id e.ndp_socket_map

-- The last message of a connection, with its flag: `onReceivable` stores over one that is still there,
-- and `awaitNdpResponse` takes it; `none` while it waits.
abbrev pub on_receivable : List ℕ → Option (List ℕ) → Option (List ℕ)
on_receivable message last = some message

abbrev pub await_ndp_response : Option (List ℕ) → Option (List ℕ) × Option (List ℕ)
await_ndp_response none = (none, none)
await_ndp_response (some message) = (some message, none)
