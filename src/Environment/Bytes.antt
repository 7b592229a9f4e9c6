-- ===== src/Environment/Bytes.antt =====
-- Bytes that are written to the memory of a program, and read back (src/wavm/WAVMWasmModule.cpp).
use faasm.Prelude.{
  ℕ, zero, suc, ◌+◌, ◌≤◌, ◌<◌, ◌≡◌, refl, ap, ◌∙◌, true, false, List, [], ◌∷◌, ◌==◌, ◌⊎◌,
  if◌then◌else◌, length, inl, inr, arith,
}
use faasm.Environment.{Memory, write_bytes}

abbrev pub read_bytes : ℕ → ℕ → Memory → List ℕ
read_bytes zero addr mem = []
read_bytes (suc n) addr mem = mem addr ∷ read_bytes n (addr + 1) mem

-- The address is not among the `n` from `addr` on.
abbrev pub Outside : ℕ → ℕ → ℕ → Type 0
Outside addr n a = (a < addr) ⊎ (addr + n ≤ a)

pub write_bytes-Outside :
    (addr : ℕ) (bs : List ℕ) (mem : Memory) (a : ℕ)
    → Outside addr (length bs) a
    → write_bytes addr bs mem a ≡ mem a
unfolding write_bytes
write_bytes-Outside addr [] mem a h = refl
write_bytes-Outside addr (b ∷ bs) mem a h =
    let differ : (a == addr) ≡ false = elim h [
      | inl l ↦ ground (arith, l)
      | inr l ↦ ground (arith, l)
    ] in
    let further : Outside (addr + 1) (length bs) a = elim h [
      | inl l ↦ inl (omega (arith, l))
      | inr l ↦ inr (omega (arith, l))
    ] in
    rw differ (write_bytes-Outside (addr + 1) bs mem a further)

pub read_bytes_same :
    (n addr : ℕ) (mem mem' : Memory)
    → ((a : ℕ) → addr ≤ a → a < addr + n → mem a ≡ mem' a)
    → read_bytes n addr mem ≡ read_bytes n addr mem'
read_bytes_same zero addr mem mem' h = refl
read_bytes_same (suc n) addr mem mem' h =
    let first = h addr (omega arith) (omega arith) in
    let rest =
      read_bytes_same n (addr + 1) mem mem' (λ a l u. h a (omega (arith, l)) (omega (arith, u))) in
    rw (first, rest) refl

pub read_bytes-write_bytes :
    (addr : ℕ) (bs : List ℕ) (mem : Memory)
    → read_bytes (length bs) addr (write_bytes addr bs mem) ≡ bs
unfolding write_bytes
read_bytes-write_bytes addr [] mem = refl
read_bytes-write_bytes addr (b ∷ bs) mem =
    let here : (addr == addr) ≡ true = ground arith in
    let same =
      read_bytes_same (length bs) (addr + 1)
        (λ a. if a == addr then b else write_bytes (addr + 1) bs mem a)
        (write_bytes (addr + 1) bs mem)
        (λ a l u. let differ : (a == addr) ≡ false = ground (arith, l) in rw differ refl) in
    rw here (ap (λ l. b ∷ l) (same ∙ read_bytes-write_bytes (addr + 1) bs mem))
