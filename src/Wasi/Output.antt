-- ===== src/Wasi/Output.antt =====
-- The captured output (`captureStdout`, `getCapturedStdout`, `clearCapturedStdout` and the end of
-- `executeTask` of src/wasm/WasmModule.cpp). Writing to a memory file and reading it succeed, and a
-- write takes all the bytes.
use faasm.Prelude.{
  ℕ, zero, suc, ◌+◌, ◌≤◌, ◌≡◌, refl, ap, Bool, true, false, not, ◌&&◌, List, [], ◌∷◌, ◌++◌, ◌==◌,
  if◌then◌else◌, length, length-append, arith, Bool-cases, inl, inr,
}
use faasm.Wasi.{Stdout, no_stdout}

abbrev pub take : ℕ → List ℕ → List ℕ
take zero bytes = []
take (suc n) [] = []
take (suc n) (b ∷ bytes) = b ∷ take n bytes

abbrev pub drop : ℕ → List ℕ → List ℕ
drop zero bytes = bytes
drop (suc n) [] = []
drop (suc n) (b ∷ bytes) = drop n bytes

-- `write` to a memory file: at its offset, over what is there.
abbrev pub write_file : List ℕ → Stdout → Stdout
write_file bytes out = record out {
  content = take out.offset out.content ++ (bytes ++ drop (out.offset + length bytes) out.content);
  offset = out.offset + length bytes;
}

abbrev pub concat : List (List ℕ) → List ℕ
concat [] = []
concat (b ∷ buffers) = b ++ concat buffers

-- `captureStdout` of buffers, and of a text, to which it adds a line break.
unfoldable pub capture_buffers : List (List ℕ) → Stdout → Stdout
capture_buffers buffers out =
    let out' = write_file (concat buffers) out in
    record out' { stdout_size = out.stdout_size + length (concat buffers) }

unfoldable pub capture_text : List ℕ → Stdout → Stdout
unfolding capture_buffers
capture_text text out = capture_buffers (text ∷ (10 ∷ []) ∷ []) out

-- `getCapturedStdout`: as many bytes as were captured, from the start; the offset is then behind them.
unfoldable pub get_captured_stdout : Stdout → List ℕ × Stdout
get_captured_stdout out =
    if out.stdout_size == 0
    then ([], out)
    else let read = take out.stdout_size out.content in (read, record out { offset = length read })

unfoldable pub clear_captured_stdout : Stdout → Stdout
clear_captured_stdout out = no_stdout

abbrev pub is_nil : List ℕ → Bool
is_nil [] = true
is_nil (b ∷ bytes) = false

-- The end of `executeTask`: the output of a call that returned this value. `failure` is the text that
-- reports the value.
abbrev pub add_stdout : List ℕ → List ℕ × Stdout → List ℕ × Stdout
add_stdout output (module_stdout, out) =
    if is_nil module_stdout
    then (output, out)
    else (module_stdout ++ (10 ∷ output), clear_captured_stdout out)

unfoldable pub finish_task : (ℕ → List ℕ) → Bool → Bool → ℕ → List ℕ → Stdout → List ℕ × Stdout
unfolding get_captured_stdout clear_captured_stdout
finish_task failure capture_on is_storage return_value output out =
    let output' =
      if not (return_value == 0) && not is_storage then failure return_value else output in
    if capture_on && not is_storage
    then add_stdout output' (get_captured_stdout out)
    else (output', out)

-- All that was captured is in the file, and the next write goes behind it.
abbrev pub IsWhole : Stdout → Type 0
IsWhole out = (out.offset ≡ length out.content) × (out.stdout_size ≡ length out.content)

take_all : (l : List ℕ) (n : ℕ) → length l ≤ n → take n l ≡ l
take_all [] zero h = refl
take_all [] (suc n) h = refl
take_all (b ∷ l) zero h = absurd (omega arith)
take_all (b ∷ l) (suc n) h = ap (λ x. b ∷ x) (take_all l n (omega arith))

drop_all : (l : List ℕ) (n : ℕ) → length l ≤ n → drop n l ≡ []
drop_all [] zero h = refl
drop_all [] (suc n) h = refl
drop_all (b ∷ l) zero h = absurd (omega arith)
drop_all (b ∷ l) (suc n) h = drop_all l n (omega arith)

append_nothing : (l : List ℕ) → l ++ [] ≡ l
append_nothing [] = refl
append_nothing (b ∷ l) = ap (λ x. b ∷ x) (append_nothing l)

-- A write to a whole file appends, and leaves it whole.
pub capture_buffers-IsWhole :
    (buffers : List (List ℕ)) (out : Stdout)
    → IsWhole out
    → ((capture_buffers buffers out).content ≡ out.content ++ concat buffers)
      × IsWhole (capture_buffers buffers out)
unfolding capture_buffers
capture_buffers-IsWhole buffers out (at, size) =
    let bytes = concat buffers in
    let kept = take_all out.content out.offset (omega (arith, at)) in
    let over = drop_all out.content (out.offset + length bytes) (omega (arith, at)) in
    let e : take out.offset out.content ++ (bytes ++ drop (out.offset + length bytes) out.content)
        ≡ out.content ++ bytes =
      rw (kept, over) (ap (λ x. out.content ++ x) (append_nothing bytes)) in
    let l = ap (λ x. length x) e in
    let l' = length-append out.content bytes in
    (e, (omega (arith, at, l, l'), omega (arith, size, l, l')))

-- A whole file is read whole, and stays so.
pub get_captured_stdout-IsWhole :
    (out : Stdout)
    → IsWhole out
    → ((get_captured_stdout out).0 ≡ out.content) × IsWhole (get_captured_stdout out).1
unfolding get_captured_stdout
get_captured_stdout-IsWhole out (at, size) =
    let all = take_all out.content out.stdout_size (omega (arith, size)) in
    elim (Bool-cases (out.stdout_size == 0)) [
      | inr t ↦ rw t (all, (ap (λ x. length x) all, size))
      | inl t ↦ rw t (no_bytes out.content (ground (arith, size, t)), (at, size))
    ]
  where
    no_bytes : (l : List ℕ) → length l ≡ 0 → [] ≡ l
    no_bytes [] h = refl
    no_bytes (b ∷ l) h = absurd (omega (arith, h))
