-- ===== src/Ceph/Sending.antt =====
-- Bytes through `send` (`rawSendBytes` of include/cephclass/cephcomm.h).
use faasm.Prelude.{
  ℕ, zero, suc, ◌+◌, ◌-◌, ◌≤◌, ◌<◌, ◌≡◌, refl, sym, ap, ◌∙◌, true, false, List, [], ◌∷◌, ◌++◌,
  length, ◌^◌, arith, Bool-cases, inl, inr, ◌⊎◌,
}
use Prim.Native.Nat.{min}
use faasm.Ceph.Socket.{
  Answer, moved, interrupted, try_again, other_error, take, drop, Io, done, loop_ends,
  raw_send_bytes,
}

-- How many answers move at least one byte.
abbrev pub moves : List Answer → ℕ
moves [] = 0
moves (moved zero ∷ answers) = moves answers
moves (moved (suc k) ∷ answers) = suc (moves answers)
moves (_ ∷ answers) = moves answers

-- No call fails; a call is at most interrupted.
abbrev pub NoFailure : List Answer → Type 0
NoFailure [] = Unit
NoFailure (moved k ∷ answers) = NoFailure answers
NoFailure (interrupted ∷ answers) = NoFailure answers
NoFailure (try_again ∷ answers) = ⊥
NoFailure (other_error ∷ answers) = ⊥

pub take-drop : (n : ℕ) (xs : List ℕ) → take n xs ++ drop n xs ≡ xs
unfolding take drop
take-drop zero xs = refl
take-drop (suc n) [] = refl
take-drop (suc n) (x ∷ xs) = ap (λ t. x ∷ t) (take-drop n xs)

pub length-drop : (n : ℕ) (xs : List ℕ) → length (drop n xs) ≡ length xs - n
unfolding drop
length-drop zero xs = omega arith
length-drop (suc n) [] = omega arith
length-drop (suc n) (x ∷ xs) = omega (arith, length-drop n xs)

pub append_assoc : (xs ys zs : List ℕ) → (xs ++ ys) ++ zs ≡ xs ++ (ys ++ zs)
append_assoc [] ys zs = refl
append_assoc (x ∷ xs) ys zs = ap (λ t. x ∷ t) (append_assoc xs ys zs)

pub append_nil : (xs : List ℕ) → xs ++ [] ≡ xs
append_nil [] = refl
append_nil (x ∷ xs) = ap (λ t. x ∷ t) (append_nil xs)

-- What is on the wire when the data has been sent from `answers`, and what is left of them.
abbrev pub Sent : List ℕ → ℕ → List Answer → Io (List ℕ) → Type 0
Sent wire cost answers r =
    (left : List Answer) × (r ≡ done wire left)
    × NoFailure left
    × (moves answers ≤ moves left + cost)

pub loop_ends-none : (n : ℕ) → n < 2 ^ 63 → loop_ends n ≡ true → n ≡ 0
loop_ends-none n h e = ground arith

pub loop_ends-some : (n : ℕ) → loop_ends n ≡ false → 0 < n
loop_ends-some n e = ground arith

pub length-nil : (xs : List ℕ) → length xs ≡ 0 → xs ≡ []
length-nil [] e = refl
length-nil (x ∷ xs) e = absurd (omega arith)

pub moves-moved :
    (k : ℕ) (answers : List Answer)
    → ((k ≡ 0) × (moves (moved k ∷ answers) ≡ moves answers))
      ⊎ ((0 < k) × (moves (moved k ∷ answers) ≡ suc (moves answers)))
moves-moved zero answers = inl (refl, refl)
moves-moved (suc k) answers = inr (omega arith, refl)

pub raw_send_bytes-Sent :
    (wire msg : List ℕ) (answers : List Answer)
    → NoFailure answers
    → length msg < 2 ^ 63
    → length msg ≤ moves answers
    → 0 < moves answers
    → Sent (wire ++ msg) (suc (length msg)) answers (raw_send_bytes wire msg answers)
unfolding raw_send_bytes
raw_send_bytes-Sent wire msg [] ok s h p = absurd (omega arith)
raw_send_bytes-Sent wire msg (moved k ∷ answers) ok s h p =
    let n = min k (length msg) in
    let m = moves-moved k answers in
    let size = length-drop n msg in
    elim (Bool-cases (loop_ends (length (drop n msg)))) [
      | inl e ↦
          let none_left =
            length-nil (drop n msg) (loop_ends-none (length (drop n msg)) (omega arith) e) in
          let whole : take n msg ≡ msg =
            sym (append_nil (take n msg))
            ∙ ap (λ t. take n msg ++ t) (sym none_left)
            ∙ take-drop n msg in
          rw e (answers, ap (λ t. done (wire ++ t) answers) whole, ok, grind arith)
      | inr e ↦
          let left = loop_ends-some (length (drop n msg)) e in
          let (rest, r, ok', cost) =
            raw_send_bytes-Sent (wire ++ take n msg) (drop n msg) answers ok (omega arith)
              (grind arith) (grind arith) in
          let whole : (wire ++ take n msg) ++ drop n msg ≡ wire ++ msg =
            append_assoc wire (take n msg) (drop n msg) ∙ ap (λ t. wire ++ t) (take-drop n msg) in
          rw e (rest, r ∙ ap (λ t. done t rest) whole, ok', grind arith)
    ]
raw_send_bytes-Sent wire msg (interrupted ∷ answers) ok s h p =
    let (rest, r, ok', cost) = raw_send_bytes-Sent wire msg answers ok s h p in
    elim (Bool-cases (loop_ends (length msg))) [
      | inl e ↦ rw e (
        answers,
        ap (λ t. done t answers)
            (sym (append_nil wire)
              ∙ ap (λ t. wire ++ t) (sym (length-nil msg (loop_ends-none (length msg) s e)))),
        ok,
        omega arith,
      )
      | inr e ↦ rw e (rest, r, ok', cost)
    ]
raw_send_bytes-Sent wire msg (try_again ∷ answers) ok s h p = elim ok [ ]
raw_send_bytes-Sent wire msg (other_error ∷ answers) ok s h p = elim ok [ ]
