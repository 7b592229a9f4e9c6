-- ===== src/Environment/Arrays.antt =====
-- `writeStringArrayToMemory` of src/wavm/WAVMWasmModule.cpp with the sizes that a program asks for before
-- (src/wasm/WasmEnvironment.cpp, src/wasm/WasmModule.cpp).
use faasm.Prelude.{
  ℕ, ◌+◌, ◌*◌, ◌^◌, ◌≤◌, ◌<◌, ◌≡◌, refl, sym, ap, ◌∙◌, subst, List, [], ◌∷◌, ◌⊎◌, inl, inr, length,
  length-append, arith,
}
use faasm.Prelude.Words.{add}
use faasm.Ceph.Socket.{le_bytes}
use faasm.Ceph.Framing.{length-le_bytes}
use faasm.Environment.{
  Memory, Vars, write_bytes, write_word, write_string_array_to_memory, buffer_size, get_vars,
  get_env_count, get_env_buffer_size, sum_of_vars, environ_get,
}
use faasm.Environment.Bytes.{
  read_bytes, Outside, write_bytes-Outside, read_bytes_same, read_bytes-write_bytes,
}

-- Every text stands in the buffer behind the one before it, its pointer in the array, and the byte
-- behind each text is the one that was there before.
abbrev pub Placed : List (List ℕ) → ℕ → ℕ → Memory → Memory → Type 0
Placed [] p b old mem = Unit
Placed (s ∷ ss) p b old mem =
    (read_bytes (length s) b mem ≡ s)
    × (read_bytes 4 p mem ≡ le_bytes 4 b)
    × (mem (b + length s) ≡ old (b + length s))
    × Placed ss (p + 4) (b + (length s + 1)) old mem

-- The array of pointers and the buffer have no byte in common.
abbrev pub Disjoint : ℕ → ℕ → ℕ → ℕ → Type 0
Disjoint p n b size = (p + n ≤ b) ⊎ (b + size ≤ p)

write_word-Outside :
    (addr n a : ℕ) (mem : Memory) → Outside addr 4 a → write_word addr n mem a ≡ mem a
write_word-Outside addr n a mem h =
    write_bytes-Outside addr (le_bytes 4 n) mem a
      (subst (λ k. Outside addr k a) (sym (length-le_bytes 4 n)) h)

read_bytes-write_word :
    (addr n : ℕ) (mem : Memory) → read_bytes 4 addr (write_word addr n mem) ≡ le_bytes 4 n
read_bytes-write_word addr n mem =
    subst (λ k. read_bytes k addr (write_word addr n mem) ≡ le_bytes 4 n) (length-le_bytes 4 n)
      (read_bytes-write_bytes addr (le_bytes 4 n) mem)

-- One round of the loop.
abbrev write_one : List ℕ → ℕ → ℕ → Memory → Memory
write_one s p b mem = write_word p b (write_bytes b s mem)

unfold_one :
    (s : List ℕ) (ss : List (List ℕ)) (p b : ℕ) (mem : Memory)
    → p + 4 < 2 ^ 32
    → b + (length s + 1) < 2 ^ 32
    → write_string_array_to_memory (s ∷ ss) p b mem
      ≡ write_string_array_to_memory ss (p + 4) (b + (length s + 1)) (write_one s p b mem)
unfolding write_string_array_to_memory
unfold_one s ss p b mem hp hb =
    let e : add p 4 ≡ p + 4 = omega (arith, hp) in
    let f : add b (length s + 1) ≡ b + (length s + 1) = omega (arith, hb) in rw (e, f) refl

pub write_string_array_to_memory-Outside :
    (ss : List (List ℕ)) (p b : ℕ) (mem : Memory) (a : ℕ)
    → p + 4 * length ss < 2 ^ 32
    → b + buffer_size ss < 2 ^ 32
    → Outside p (4 * length ss) a
    → Outside b (buffer_size ss) a
    → write_string_array_to_memory ss p b mem a ≡ mem a
unfolding write_string_array_to_memory buffer_size
write_string_array_to_memory-Outside [] p b mem a hp hb op ob = refl
write_string_array_to_memory-Outside (s ∷ ss) p b mem a hp hb op ob =
    let step = ap (λ f. f a) (unfold_one s ss p b mem (omega (arith, hp)) (omega (arith, hb))) in
    let rest =
      write_string_array_to_memory-Outside ss (p + 4) (b + (length s + 1)) (write_one s p b mem) a
        (omega (arith, hp)) (omega (arith, hb))
        (elim op [ inl l ↦ inl (omega (arith, l)) | inr l ↦ inr (omega (arith, l)) ])
        (elim ob [ inl l ↦ inl (omega (arith, l)) | inr l ↦ inr (omega (arith, l)) ]) in
    let word =
      write_word-Outside p b a (write_bytes b s mem)
        (elim op [ inl l ↦ inl l | inr l ↦ inr (omega (arith, l)) ]) in
    let text =
      write_bytes-Outside b s mem a (elim ob [ inl l ↦ inl l | inr l ↦ inr (omega (arith, l)) ]) in
    step ∙ (rest ∙ (word ∙ text))

Placed-before :
    (ss : List (List ℕ)) (p b : ℕ) (old old' mem : Memory)
    → ((a : ℕ) → b ≤ a → a < b + buffer_size ss → old a ≡ old' a)
    → Placed ss p b old mem
    → Placed ss p b old' mem
unfolding buffer_size
Placed-before [] p b old old' mem h g = tt
Placed-before (s ∷ ss) p b old old' mem h (text, word, end, rest) = (
  text,
  word,
  end ∙ h (b + length s) (omega arith) (omega arith),
  Placed-before ss (p + 4) (b + (length s + 1)) old old' mem
      (λ a l u. h a (omega (arith, l)) (omega (arith, u))) rest,
)

module _ (s : List ℕ) (ss : List (List ℕ)) (p b : ℕ) (old : Memory) where
  abbrev final : Memory
  final = write_string_array_to_memory ss (p + 4) (b + (length s + 1)) (write_one s p b old)

  -- A byte outside what the later rounds write is as the first round left it.
  kept :
      (a : ℕ)
      → p + 4 * length (s ∷ ss) < 2 ^ 32
      → b + (length s + 1 + buffer_size ss) < 2 ^ 32
      → Outside (p + 4) (4 * length ss) a
      → Outside (b + (length s + 1)) (buffer_size ss) a
      → final a ≡ write_one s p b old a
  kept a hp hb op ob =
      write_string_array_to_memory-Outside ss (p + 4) (b + (length s + 1)) (write_one s p b old) a
        (omega (arith, hp)) (omega (arith, hb)) op ob

  first_placed :
      p + 4 * length (s ∷ ss) < 2 ^ 32
      → b + (length s + 1 + buffer_size ss) < 2 ^ 32
      → Disjoint p (4 * length (s ∷ ss)) b (length s + 1 + buffer_size ss)
      → (read_bytes (length s) b final ≡ s)
        × (read_bytes 4 p final ≡ le_bytes 4 b)
        × (final (b + length s) ≡ old (b + length s))
  first_placed hp hb d =
      let texts = write_bytes b s old in
      let below : (a : ℕ) → b ≤ a → a < b + (length s + 1) → final a ≡ texts a = λ a l u.
        kept a hp hb
          (elim d [ inl e ↦ inr (omega (arith, e, l)) | inr e ↦ inl (omega (arith, e, u)) ])
          (inl (omega (arith, u)))
        ∙ write_word-Outside p b a texts
            (elim d [ inl e ↦ inr (omega (arith, e, l)) | inr e ↦ inl (omega (arith, e, u)) ]) in
      let words : (a : ℕ) → p ≤ a → a < p + 4 → final a ≡ write_one s p b old a = λ a l u.
        kept a hp hb (inl (omega (arith, u)))
          (elim d [ inl e ↦ inl (omega (arith, e, u)) | inr e ↦ inr (omega (arith, e, l)) ]) in
      (
        read_bytes_same (length s) b final texts (λ a l u. below a l (omega (arith, u)))
            ∙ read_bytes-write_bytes b s old,
        read_bytes_same 4 p final (write_one s p b old) words ∙ read_bytes-write_word p b texts,
        below (b + length s) (omega arith) (omega arith)
            ∙ write_bytes-Outside b s old (b + length s) (inr (omega arith)),
      )

placed :
    (ss : List (List ℕ)) (p b : ℕ) (old : Memory)
    → p + 4 * length ss < 2 ^ 32
    → b + buffer_size ss < 2 ^ 32
    → Disjoint p (4 * length ss) b (buffer_size ss)
    → Placed ss p b old (write_string_array_to_memory ss p b old)
unfolding buffer_size
placed [] p b old hp hb d = tt
placed (s ∷ ss) p b old hp hb d =
    let step = unfold_one s ss p b old (omega (arith, hp)) (omega (arith, hb)) in
    let (text, word, end) = first_placed s ss p b old hp hb d in
    let later =
      placed ss (p + 4) (b + (length s + 1)) (write_one s p b old) (omega (arith, hp))
        (omega (arith, hb))
        (elim d [ inl e ↦ inl (omega (arith, e)) | inr e ↦ inr (omega (arith, e)) ]) in
    let before : (a : ℕ)
        → b + (length s + 1) ≤ a
        → a < b + (length s + 1) + buffer_size ss
        → write_one s p b old a ≡ old a =
      λ a l u.
        write_word-Outside p b a (write_bytes b s old)
          (elim d [ inl e ↦ inr (omega (arith, e, l)) | inr e ↦ inl (omega (arith, e, u)) ])
        ∙ write_bytes-Outside b s old a (inr (omega (arith, l))) in
    subst (λ m. Placed (s ∷ ss) p b old m) (sym step)
      (
        text,
        word,
        end,
        Placed-before ss (p + 4) (b + (length s + 1)) (write_one s p b old) old (final s ss p b old)
            before later,
      )

length-get_vars : (vars : Vars) → length (get_vars vars) ≡ length vars
unfolding get_vars
length-get_vars [] = refl
length-get_vars ((k, v) ∷ vars) = omega (arith, length-get_vars vars)

buffer_size-get_vars : (vars : Vars) → buffer_size (get_vars vars) ≡ sum_of_vars vars
unfolding buffer_size get_vars sum_of_vars
buffer_size-get_vars [] = refl
buffer_size-get_vars ((k, v) ∷ vars) =
    omega (arith, length-append k (61 ∷ v), buffer_size-get_vars vars)

-- A program that makes room for as many pointers and bytes as `environ_sizes_get` reports, in two places
-- without a common byte that end below 2^32, gets by `environ_get` every variable as `name=value`, one
-- behind the other, each with its pointer; the byte behind each is as it was before, and so is every
-- byte outside the two places. The number of variables and their size in bytes are below 2^32.
pub environ_get-Placed :
    (vars : Vars) (p b a : ℕ) (mem : Memory)
    → length vars < 2 ^ 32
    → sum_of_vars vars < 2 ^ 32
    → p + 4 * get_env_count vars < 2 ^ 32
    → b + get_env_buffer_size vars < 2 ^ 32
    → Disjoint p (4 * get_env_count vars) b (get_env_buffer_size vars)
    → Outside p (4 * get_env_count vars) a
    → Outside b (get_env_buffer_size vars) a
    → Placed (get_vars vars) p b mem (environ_get vars p b mem)
      × (environ_get vars p b mem a ≡ mem a)
unfolding environ_get get_env_buffer_size
environ_get-Placed vars p b a mem few small hp hb d op ob =
    let n = length-get_vars vars in
    let m = buffer_size-get_vars vars in
    let count : get_env_count vars ≡ length (get_vars vars) = omega (arith, few, n) in
    let size : get_env_buffer_size vars ≡ buffer_size (get_vars vars) = omega (arith, small, m) in
    let d' : Disjoint p (4 * length (get_vars vars)) b (buffer_size (get_vars vars)) =
      subst (λ x. Disjoint p (4 * length (get_vars vars)) b x) size
        (subst (λ x. Disjoint p (4 * x) b (get_env_buffer_size vars)) count d) in
    let hp' : p + 4 * length (get_vars vars) < 2 ^ 32 = subst (λ x. p + 4 * x < 2 ^ 32) count hp in
    let hb' : b + buffer_size (get_vars vars) < 2 ^ 32 = subst (λ x. b + x < 2 ^ 32) size hb in
    (
      placed (get_vars vars) p b mem hp' hb' d',
      write_string_array_to_memory-Outside (get_vars vars) p b mem a hp' hb'
          (subst (λ x. Outside p (4 * x) a) count op) (subst (λ x. Outside b x a) size ob),
    )
