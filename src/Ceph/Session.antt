-- ===== src/Ceph/Session.antt =====
-- `maybe_exec_wasm` of src/cephclass/cephclass.cpp. The object of the storage daemon and its reads and
-- writes, `cls_cxx_read` and `cls_cxx_write`, are arguments; none is a negative code. What comes from
-- the runtime is a list, with whether each answer to it can be sent; when the list ends, the call is
-- waiting for the next message.
use faasm.Prelude.{
  ℕ, Bool, true, false, ◌||◌, Option, none, some, List, [], ◌∷◌, ◌==◌, if◌then◌else◌,
}

pub data Body : Type 0 where
  ndp_end other_type : Body
  ndp_read : ℕ → ℕ → Body
  ndp_write : ℕ → List ℕ → Body

-- A poll that times out, a message that cannot be received or verified, or one with its call id, its
-- body, and whether an answer to it can be sent.
pub data Input : Type 0 where
  times_out invalid : Input
  message : ℕ → Body → Bool → Input

pub data Reply : Type 0 where
  data_reply : List ℕ → Reply
  error_reply : Reply

pub data NdpResult : Type 0 where
  ndp_ok ndp_process_locally ndp_error : NdpResult

-- The first exchange: no connection, a request that cannot be sent, no answer in time, one that
-- cannot be received or verified, and one with its call id and whether its result is NdpResult_Ok.
pub data First : Type 0 where
  cannot_connect cannot_send first_times_out first_invalid : First
  first_response : ℕ → Bool → First

-- What the call leaves to its caller: -EINVAL, -ETIMEDOUT, the first response, a response of its own,
-- or nothing yet.
pub data Outcome : Type 0 where
  invalid_arguments timed_out forwarded running : Outcome
  responded : ℕ → NdpResult → Outcome

-- One round of the loop: it ends with replies, an object and a result, or goes on after a reply.
pub data Round (O : Type 0) : Type 0 where
  ends : List Reply → O → NdpResult → Round O
  goes_on : Reply → O → Round O

module _ {O : Type 0} where
  abbrev fails : Bool → O → Round O
  fails sends o = ends (if sends then error_reply ∷ [] else []) o ndp_error

  abbrev answers : Bool → Reply → O → Round O
  answers sends reply o = if sends then goes_on reply o else ends [] o ndp_error

  abbrev pub read_round : Bool → O → Option (List ℕ) → Round O
  read_round sends o none = fails sends o
  read_round sends o (some bytes) = answers sends (data_reply bytes) o

  -- The answer to a write is the two letters "ok".
  abbrev pub write_round : Bool → O → Option O → Round O
  write_round sends o none = fails sends o
  write_round sends o (some o') = answers sends (data_reply (111 ∷ 107 ∷ [])) o'

  -- What the rest of the loop adds to a round.
  abbrev pub then_loop :
      (O → List Reply × O × Option NdpResult) → Round O → List Reply × O × Option NdpResult
  then_loop rest (ends replies o result) = (replies, o, some result)
  then_loop rest (goes_on reply o) =
      let (replies, last, result) = rest o in (reply ∷ replies, last, result)

  abbrev pub respond : ℕ → List Reply × O × Option NdpResult → Outcome × List Reply × O
  respond call_id (replies, o, none) = (running, replies, o)
  respond call_id (replies, o, some result) = (responded call_id result, replies, o)

module _ {O : Type 0} (cls_cxx_read : O → ℕ → ℕ → Option (List ℕ))
    (cls_cxx_write : O → ℕ → List ℕ → Option O) where
  abbrev pub body_round : O → Bool → Body → Round O
  body_round o sends ndp_end = ends [] o ndp_ok
  body_round o sends (ndp_read offset upto) = read_round sends o (cls_cxx_read o offset upto)
  body_round o sends (ndp_write offset bytes) = write_round sends o (cls_cxx_write o offset bytes)
  body_round o sends other_type = fails sends o

  abbrev pub round : ℕ → O → Input → Round O
  round call_id o times_out = ends [] o ndp_error
  round call_id o invalid = ends [] o ndp_error
  round call_id o (message id body sends) =
      if id == call_id then body_round o sends body else ends [] o ndp_error

  -- The replies, the object and the result of the loop.
  unfoldable pub serve : ℕ → List Input → O → List Reply × O × Option NdpResult
  serve call_id [] o = ([], o, none)
  serve call_id (input ∷ inputs) o = then_loop (serve call_id inputs) (round call_id o input)

  abbrev pub start : ℕ → First → O → List Input → Outcome × List Reply × O
  start call_id cannot_connect o inputs = (responded call_id ndp_error, [], o)
  start call_id cannot_send o inputs = (responded call_id ndp_error, [], o)
  start call_id first_times_out o inputs = (timed_out, [], o)
  start call_id first_invalid o inputs = (responded call_id ndp_error, [], o)
  start call_id (first_response id ok) o inputs =
      if id == call_id
      then (if ok then respond call_id (serve call_id inputs o) else (forwarded, [], o))
      else (responded call_id ndp_error, [], o)

  -- The request is its call id, or none when it cannot be verified.
  abbrev pub with_request : Option ℕ → First → O → List Input → Outcome × List Reply × O
  with_request none first o inputs = (responded 0 ndp_error, [], o)
  with_request (some call_id) first o inputs = start call_id first o inputs

  unfoldable pub maybe_exec_wasm :
      Bool → Bool → Option ℕ → First → O → List Input → Outcome × List Reply × O
  unfolding serve
  maybe_exec_wasm read_allowed write_allowed request first o inputs =
      if read_allowed || write_allowed
      then with_request request first o inputs
      else (invalid_arguments, [], o)

  unfoldable pub maybe_exec_wasm_ro : Option ℕ → First → O → List Input → Outcome × List Reply × O
  unfolding maybe_exec_wasm
  maybe_exec_wasm_ro = maybe_exec_wasm true false

  unfoldable pub maybe_exec_wasm_rw : Option ℕ → First → O → List Input → Outcome × List Reply × O
  unfolding maybe_exec_wasm
  maybe_exec_wasm_rw = maybe_exec_wasm true true

  unfoldable pub maybe_exec_wasm_wo : Option ℕ → First → O → List Input → Outcome × List Reply × O
  unfolding maybe_exec_wasm
  maybe_exec_wasm_wo = maybe_exec_wasm false true
