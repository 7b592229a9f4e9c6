-- ===== src/Ceph/Socket.antt =====
-- `CephFaasmSocket` of include/cephclass/cephcomm.h, after it is connected. What a call of `send` or
-- `recv` answers is an argument: a list that each call takes one answer from. A call that finds no
-- answer left has not returned. The bytes on the way are a list.
use faasm.Prelude.{
  ℕ, zero, suc, ◌+◌, ◌-◌, ◌*◌, ◌/◌, ◌%◌, ◌^◌, Bool, not, ◌&&◌, ◌||◌, ltb, leb, List, [], ◌∷◌, ◌++◌,
  ◌==◌, if◌then◌else◌, length,
}
use Prim.Native.Nat.{min}

-- How many bytes were moved at most, or errno: EINTR, EAGAIN, another.
pub data Answer : Type 0 where
  moved : ℕ → Answer
  interrupted try_again other_error : Answer

unfoldable pub take : ℕ → List ℕ → List ℕ
take zero xs = []
take (suc n) [] = []
take (suc n) (x ∷ xs) = x ∷ take n xs

unfoldable pub drop : ℕ → List ℕ → List ℕ
drop zero xs = xs
drop (suc n) [] = []
drop (suc n) (x ∷ xs) = drop n xs

-- What a call leaves when it returned with `value`, threw, or did not return.
pub data Io {ℓ} (A : Type ℓ) : Type ℓ where
  done : A → List Answer → Io A
  threw : List Answer → Io A
  waiting : Io A

-- The end of the loops of `rawSendBytes` and `rawRecvBytes`: what remains is a signed number of 64
-- bits, which is not above 0 from 2^63 bytes on.
abbrev pub loop_ends : ℕ → Bool
loop_ends remaining = not (ltb 0 remaining && ltb remaining (2 ^ 63))

-- `rawSendBytes`: the bytes on the wire after the data has been put behind `wire`.
unfoldable pub raw_send_bytes : List ℕ → List ℕ → List Answer → Io (List ℕ)
unfolding take drop
raw_send_bytes wire data_left [] = waiting
raw_send_bytes wire data_left (other_error ∷ answers) = threw answers
raw_send_bytes wire data_left (try_again ∷ answers) = threw answers
raw_send_bytes wire data_left (interrupted ∷ answers) =
    let again = raw_send_bytes wire data_left answers in
    if loop_ends (length data_left) then done wire answers else again
raw_send_bytes wire data_left (moved k ∷ answers) =
    let n = min k (length data_left) in
    let again = raw_send_bytes (wire ++ take n data_left) (drop n data_left) answers in
    if loop_ends (length (drop n data_left)) then done (wire ++ take n data_left) answers else again

-- `rawRecvBytes`: `size` bytes from the front of the wire, behind those that were read, and the wire.
unfoldable pub raw_recv_bytes : List ℕ → ℕ → List ℕ → List Answer → Io (List ℕ × List ℕ)
unfolding take drop
raw_recv_bytes got size wire [] = waiting
raw_recv_bytes got size wire (other_error ∷ answers) = threw answers
raw_recv_bytes got size wire (try_again ∷ answers) =
    let again = raw_recv_bytes got size wire answers in
    if loop_ends size then done (got, wire) answers else again
raw_recv_bytes got size wire (interrupted ∷ answers) =
    let again = raw_recv_bytes got size wire answers in
    if loop_ends size then done (got, wire) answers else again
raw_recv_bytes got size wire (moved k ∷ answers) =
    let n = min k (min size (length wire)) in
    let again = raw_recv_bytes (got ++ take n wire) (size - n) (drop n wire) answers in
    if loop_ends (size - n) then done (got ++ take n wire, drop n wire) answers else again

-- The bytes of a size in the order of `htole64`, and the size that `le64toh` reads.
unfoldable pub le_bytes : ℕ → ℕ → List ℕ
le_bytes zero v = []
le_bytes (suc n) v = v % 256 ∷ le_bytes n (v / 256)

unfoldable pub from_le : List ℕ → ℕ
from_le [] = 0
from_le (b ∷ bytes) = b + 256 * from_le bytes

abbrev pub send_data : List ℕ → Io (List ℕ) → Io (List ℕ)
send_data msg (done wire answers) = raw_send_bytes wire msg answers
send_data msg (threw answers) = threw answers
send_data msg waiting = waiting

-- `sendMessage`.
unfoldable pub send_message : List ℕ → List ℕ → List Answer → Io (List ℕ)
unfolding raw_send_bytes le_bytes
send_message wire msg answers =
    send_data msg (raw_send_bytes wire (le_bytes 8 (length msg)) answers)

abbrev pub uint64_max : ℕ
uint64_max = 2 ^ 64 - 1

-- `sendError`.
unfoldable pub send_error : List ℕ → List Answer → Io (List ℕ)
unfolding raw_send_bytes le_bytes
send_error wire answers = raw_send_bytes wire (le_bytes 8 uint64_max) answers

-- `recvMessageVector`: the size, and the data unless the size marks an error or is more than a
-- vector can have.
abbrev pub recv_data : Io (List ℕ × List ℕ) → Io (List ℕ × List ℕ)
recv_data (done (size, wire) answers) =
    let received = raw_recv_bytes [] (from_le size) wire answers in
    if from_le size == uint64_max || leb (2 ^ 63) (from_le size) then threw answers else received
recv_data (threw answers) = threw answers
recv_data waiting = waiting

unfoldable pub recv_message_vector : List ℕ → List Answer → Io (List ℕ × List ℕ)
unfolding raw_recv_bytes from_le
recv_message_vector wire answers = recv_data (raw_recv_bytes [] 8 wire answers)
