-- ===== src/Ceph/Framing.antt =====
-- Messages through `CephFaasmSocket` (include/cephclass/cephcomm.h).
use faasm.Prelude.{
  ℕ, zero, suc, ◌+◌, ◌-◌, ◌/◌, ◌^◌, ◌≤◌, ◌<◌, ◌≡◌, refl, sym, ap, ◌∙◌, false, List, [], ◌∷◌, ◌++◌,
  ◌==◌, length, length-append, leb, ◌||◌, arith, Bool-cases, inl, inr,
}
use Prim.Native.Nat.{min}
use faasm.Ceph.Socket.{
  Answer, moved, interrupted, try_again, other_error, take, drop, Io, done, threw, raw_recv_bytes,
  le_bytes, from_le, send_message, send_error, uint64_max, recv_data, recv_message_vector,
  send_data, loop_ends,
}
use faasm.Ceph.Sending.{
  moves, NoFailure, take-drop, length-drop, append_assoc, append_nil, moves-moved,
  raw_send_bytes-Sent, loop_ends-none, loop_ends-some, length-nil,
}

take-append : (n : ℕ) (xs ys : List ℕ) → n ≤ length xs → take n (xs ++ ys) ≡ take n xs
unfolding take
take-append zero xs ys h = refl
take-append (suc n) [] ys h = absurd (omega arith)
take-append (suc n) (x ∷ xs) ys h = ap (λ t. x ∷ t) (take-append n xs ys (omega arith))

drop-append : (n : ℕ) (xs ys : List ℕ) → n ≤ length xs → drop n (xs ++ ys) ≡ drop n xs ++ ys
unfolding drop
drop-append zero xs ys h = refl
drop-append (suc n) [] ys h = absurd (omega arith)
drop-append (suc n) (x ∷ xs) ys h = drop-append n xs ys (omega arith)

-- What has been read when a read of `size` bytes has returned, and the answers that are left.
abbrev Received : List ℕ → List ℕ → ℕ → List Answer → Io (List ℕ × List ℕ) → Type 0
Received got wire cost answers r =
    (left : List Answer) × (r ≡ done (got, wire) left)
    × NoFailure left
    × (moves answers ≤ moves left + cost)

raw_recv_bytes-Received :
    (got msg wire : List ℕ) (size : ℕ) (answers : List Answer)
    → size ≡ length msg
    → NoFailure answers
    → length msg < 2 ^ 63
    → length msg ≤ moves answers
    → 0 < moves answers
    → Received
        (got ++ msg)
        wire
        (suc (length msg))
        answers
        (raw_recv_bytes got size (msg ++ wire) answers)
unfolding raw_recv_bytes
raw_recv_bytes-Received got msg wire size [] s ok b h p = absurd (omega arith)
raw_recv_bytes-Received got msg wire size (moved k ∷ answers) s ok b h p =
    let n = min k (min size (length (msg ++ wire))) in
    let all = length-append msg wire in
    let fits : n ≤ length msg = omega arith in
    let m = moves-moved k answers in
    let rest = length-drop n msg in
    let taken = take-append n msg wire fits in
    let dropped = drop-append n msg wire fits in
    elim (Bool-cases (loop_ends (size - n))) [
      | inl e ↦
          let over = loop_ends-none (size - n) (omega arith) e in
          let none_left = length-nil (drop n msg) (omega arith) in
          let whole : take n msg ≡ msg =
            sym (append_nil (take n msg))
            ∙ ap (λ t. take n msg ++ t) (sym none_left)
            ∙ take-drop n msg in
          rw (e, taken, dropped)
            (
              answers,
              ap (λ t. done (got ++ t, drop n msg ++ wire) answers) whole
                  ∙ ap (λ t. done (got ++ msg, t ++ wire) answers) none_left,
              ok,
              grind arith,
            )
      | inr e ↦
          let more = loop_ends-some (size - n) e in
          let (left, r, ok', cost) =
            raw_recv_bytes-Received (got ++ take n msg) (drop n msg) wire (size - n) answers
              (omega arith) ok (omega arith) (grind arith) (grind arith) in
          let whole : (got ++ take n msg) ++ drop n msg ≡ got ++ msg =
            append_assoc got (take n msg) (drop n msg) ∙ ap (λ t. got ++ t) (take-drop n msg) in
          rw (e, taken, dropped) (left, r ∙ ap (λ t. done (t, wire) left) whole, ok', grind arith)
    ]
raw_recv_bytes-Received got msg wire size (interrupted ∷ answers) s ok b h p =
    let (left, r, ok', cost) = raw_recv_bytes-Received got msg wire size answers s ok b h p in
    elim (Bool-cases (loop_ends size)) [
      | inl e ↦
          let over = loop_ends-none size (omega arith) e in
          let nothing = length-nil msg (omega arith) in
          rw (e, nothing)
            (answers, ap (λ t. done (t, wire) answers) (sym (append_nil got)), ok, omega arith)
      | inr e ↦ rw e (left, r, ok', cost)
    ]
raw_recv_bytes-Received got msg wire size (try_again ∷ answers) s ok b h p = elim ok [ ]
raw_recv_bytes-Received got msg wire size (other_error ∷ answers) s ok b h p = elim ok [ ]

pub length-le_bytes : (n v : ℕ) → length (le_bytes n v) ≡ n
unfolding le_bytes
length-le_bytes zero v = refl
length-le_bytes (suc n) v = omega (arith, length-le_bytes n (v / 256))

abbrev shifted : ℕ → ℕ → ℕ
shifted zero v = v
shifted (suc n) v = shifted n (v / 256)

from_le-le_bytes : (n v : ℕ) → shifted n v ≡ 0 → from_le (le_bytes n v) ≡ v
unfolding from_le le_bytes
from_le-le_bytes zero v h = sym h
from_le-le_bytes (suc n) v h = omega (arith, from_le-le_bytes n (v / 256) h)

shifted-word : (v : ℕ) → v < 2 ^ 64 → shifted 8 v ≡ 0
shifted-word v h = omega arith

recv-sized :
    (v : ℕ) (wire : List ℕ) (answers : List Answer)
    → v < 2 ^ 64
    → NoFailure answers
    → 8 ≤ moves answers
    → (left : List Answer) × (recv_message_vector (le_bytes 8 v ++ wire) answers
        ≡ recv_data (done (le_bytes 8 v, wire) left))
      × NoFailure left
      × (moves answers ≤ moves left + 9)
      × (from_le (le_bytes 8 v) ≡ v)
unfolding recv_message_vector
recv-sized v wire answers h ok m =
    let e = length-le_bytes 8 v in
    let (left, r, ok', cost) =
      raw_recv_bytes-Received [] (le_bytes 8 v) wire 8 answers (sym e) ok (omega arith)
        (omega arith) (omega arith) in
    (left, ap recv_data r, ok', omega arith, from_le-le_bytes 8 v (shifted-word v h))

send_message-frame :
    (msg : List ℕ) (answers : List Answer)
    → length msg < 2 ^ 63
    → NoFailure answers
    → length msg + 10 ≤ moves answers
    → (left : List Answer) × (send_message [] msg answers
        ≡ done (le_bytes 8 (length msg) ++ msg) left)
unfolding send_message
send_message-frame msg answers b ok m =
    let e = length-le_bytes 8 (length msg) in
    let (left, r, ok', cost) =
      raw_send_bytes-Sent [] (le_bytes 8 (length msg)) answers ok (omega arith) (omega arith)
        (omega arith) in
    let (left', r', ok'', cost') =
      raw_send_bytes-Sent (le_bytes 8 (length msg)) msg left ok' b (omega arith) (omega arith) in
    (left', ap (send_data msg) r ∙ r')

-- A message shorter than 2^63 bytes that is sent in pieces of any sizes comes out of the other
-- end whole, received in pieces of any sizes, and what is behind it on the wire stays there, when no
-- call fails and ten more calls than the message has bytes move at least one byte on each side.
pub recv_message_vector-send_message :
    (msg behind : List ℕ) (sending receiving : List Answer)
    → length msg < 2 ^ 63
    → NoFailure sending
    → length msg + 10 ≤ moves sending
    → NoFailure receiving
    → length msg + 10 ≤ moves receiving
    → (frame : List ℕ) × (sent received : List Answer) × (send_message [] msg sending
        ≡ done frame sent)
      × (recv_message_vector (frame ++ behind) receiving ≡ done (msg, behind) received)
unfolding from_le le_bytes
recv_message_vector-send_message msg behind sending receiving h ok m ok' m' =
    let size = le_bytes 8 (length msg) in
    let (sent, r) = send_message-frame msg sending h ok m in
    let (left, q, ok'', cost, back) =
      recv-sized (length msg) (msg ++ behind) receiving (omega arith) ok' (omega arith) in
    let (received, q', ok3, cost') =
      raw_recv_bytes-Received [] msg behind (length msg) left refl ok'' h (omega arith)
        (omega arith) in
    let small : (length msg == uint64_max || leb (2 ^ 63) (length msg)) ≡ false = ground arith in
    (
      size ++ msg,
      sent,
      received,
      r,
      ap (λ t. recv_message_vector t receiving) (append_assoc size msg behind)
          ∙ q
          ∙ rw (back, small) q',
    )

-- The marker that `sendError` sends is received as an exception.
pub recv_message_vector-send_error :
    (behind : List ℕ) (sending receiving : List Answer)
    → NoFailure sending
    → 9 ≤ moves sending
    → NoFailure receiving
    → 9 ≤ moves receiving
    → (frame : List ℕ) × (sent received : List Answer) × (send_error [] sending ≡ done frame sent)
      × (recv_message_vector (frame ++ behind) receiving ≡ threw received)
unfolding send_error
recv_message_vector-send_error behind sending receiving ok m ok' m' =
    let e = length-le_bytes 8 uint64_max in
    let (sent, r, ok'', cost) =
      raw_send_bytes-Sent [] (le_bytes 8 uint64_max) sending ok (omega arith) (omega arith)
        (omega arith) in
    let (left, q, ok3, cost', back) =
      recv-sized uint64_max behind receiving (omega arith) ok' (omega arith) in
    (le_bytes 8 uint64_max, sent, left, r, q ∙ rw back refl)
