-- ===== src/Examples/Messages.antt =====
-- Runs of the messages of include/cephclass/cephcomm.h and of the object class of
-- src/cephclass/cephclass.cpp.
use faasm.Prelude.{ℕ, ◌≡◌, ◌↔◌, refl, true, false, ◌++◌, Option, some, List, [], ◌∷◌, arith}
use faasm.Ceph.Socket.{Answer, moved, interrupted, done, send_message, recv_message_vector}
use faasm.Ceph.Framing.{recv_message_vector-send_message}
use faasm.Ceph.Session.{
  Input, message, ndp_end, ndp_read, ndp_write, Reply, data_reply, first_response, responded,
  ndp_ok, maybe_exec_wasm,
}
use faasm.Ceph.Serving.{Serves, maybe_exec_wasm-Serves}

-- Thirteen calls that move bytes, and one that is interrupted.
abbrev pieces : List Answer
pieces =
    moved 3
    ∷ moved 1
    ∷ interrupted
    ∷ moved 2
    ∷ moved 8
    ∷ moved 1
    ∷ moved 1
    ∷ moved 1
    ∷ moved 1
    ∷ moved 1
    ∷ moved 1
    ∷ moved 1
    ∷ moved 1
    ∷ moved 1
    ∷ []

recv_message_vector-send_message_example :
    (frame : List ℕ) × (sent received : List Answer) × (send_message [] (1 ∷ 2 ∷ 3 ∷ []) pieces
      ≡ done frame sent)
    × (recv_message_vector (frame ++ 9 ∷ []) pieces ≡ done (1 ∷ 2 ∷ 3 ∷ [], 9 ∷ []) received)
recv_message_vector-send_message_example =
    recv_message_vector-send_message (1 ∷ 2 ∷ 3 ∷ []) (9 ∷ []) pieces pieces (omega arith) tt
      (omega arith) tt (omega arith)

-- An object that is read and written as a whole.
abbrev read_whole : List ℕ → ℕ → ℕ → Option (List ℕ)
read_whole o offset upto = some o

abbrev write_whole : List ℕ → ℕ → List ℕ → Option (List ℕ)
write_whole o offset bytes = some bytes

abbrev inputs : List Input
inputs =
    message 5 (ndp_write 0 (7 ∷ [])) true
    ∷ message 5 (ndp_read 0 1) true
    ∷ message 5 ndp_end true
    ∷ []

abbrev replies : List Reply
replies = data_reply (111 ∷ 107 ∷ []) ∷ data_reply (7 ∷ []) ∷ []

maybe_exec_wasm-Serves_example :
    (maybe_exec_wasm read_whole write_whole true false (some 5) (first_response 5 true) [] inputs
      ≡ (responded 5 ndp_ok, replies, 7 ∷ []))
    ↔ ((first_response 5 true ≡ first_response 5 true)
        × Serves read_whole write_whole 5 [] inputs replies (7 ∷ []))
maybe_exec_wasm-Serves_example =
    maybe_exec_wasm-Serves read_whole write_whole true false 5 (first_response 5 true) [] inputs
      refl replies (7 ∷ [])
