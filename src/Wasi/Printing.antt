-- ===== src/Wasi/Printing.antt =====
-- What a program writes to its standard descriptors, through `fd_write` of src/wavm/io.cpp, in the
-- output of its task (src/wasm/WasmModule.cpp).
use faasm.Prelude.{
  ℕ, ◌≡◌, refl, sym, ap, ◌∙◌, true, false, Option, none, some, List, [], ◌∷◌, ◌++◌, leb,
  if◌then◌else◌, Bool-cases, Option-cases, inl, inr, length,
}
use faasm.Files.Shared.{World}
use faasm.Files.Operations.{Reply, answers, fails, raises, System, Paths, write}
use faasm.Wasi.{Stdout, no_stdout, Program}
use faasm.Wasi.Output.{
  concat, capture_buffers-IsWhole, get_captured_stdout, get_captured_stdout-IsWhole, finish_task,
  clear_captured_stdout, IsWhole, add_stdout,
}
use faasm.Wasi.Errors.{IsCount, write-IsCount}
use faasm.Wasi.Calls.{Call, descriptor, write_result, fd_write}

abbrev append_assoc : (a b c : List ℕ) → a ++ (b ++ c) ≡ (a ++ b) ++ c
append_assoc [] b c = refl
append_assoc (x ∷ a) b c = ap (λ l. x ∷ l) (append_assoc a b c)

-- A call of `fd_write`: the descriptor, the buffers and where the count goes.
pub record Write : Type 0 where
  pub fd : ℕ
  pub iovecs : List (List ℕ)
  pub res_ptr : ℕ

-- What such a call prints: its bytes, for a standard descriptor, unless it throws.
abbrev pub printed_by : Write → Option ℕ → List ℕ
printed_by c none = []
printed_by c (some n) = if leb c.fd 2 then concat c.iovecs else []

module _ (p : Paths) (sys : System) where
  abbrev pub write_call : Write → Program → Call
  write_call c m = fd_write p sys true c.fd c.iovecs c.res_ptr m

  unfoldable pub run_writes : List Write → Program → Program
  unfolding fd_write
  run_writes [] m = m
  run_writes (c ∷ cs) m = run_writes cs (write_call c m).1

  -- The bytes that a run prints, in the order of the calls.
  unfoldable pub printed : List Write → Program → List ℕ
  unfolding fd_write
  printed [] m = []
  printed (c ∷ cs) m = printed_by c (write_call c m).0 ++ printed cs (write_call c m).1

  -- A program with whole output, the text of which is this.
  abbrev Prints : List ℕ → Program → Type 0
  Prints text m = (m.stdout.content ≡ text) × IsWhole m.stdout

  append_nothing : (l : List ℕ) → l ≡ l ++ []
  append_nothing [] = refl
  append_nothing (x ∷ l) = ap (λ k. x ∷ k) (append_nothing l)

  write_result-Prints :
      (c : Write) (text : List ℕ) (m : Program) (r : Reply ℕ × World)
      → IsCount p sys r.0
      → Prints text m
      → Prints
          (text ++ printed_by c (write_result p sys true c.fd c.iovecs c.res_ptr m r).0)
          (write_result p sys true c.fd c.iovecs c.res_ptr m r).1
  write_result-Prints c text m (raises, w) ok_reply (e, h) = (e ∙ append_nothing text, h)
  write_result-Prints c text m (fails x, w) ok_reply (e, h) = absurd ok_reply
  write_result-Prints c text m (answers n, w) ok_reply (e, h) = elim (Bool-cases (leb c.fd 2)) [
    | inl u ↦ rw u (
        let (f, whole) = capture_buffers-IsWhole c.iovecs m.stdout h in
        (f ∙ ap (λ x. x ++ concat c.iovecs) e, whole))
    | inr u ↦ rw u (e ∙ append_nothing text, h)
  ]

  write_call-Prints :
      (c : Write) (text : List ℕ) (m : Program)
      → Prints text m
      → Prints (text ++ printed_by c (write_call c m).0) (write_call c m).1
  unfolding fd_write
  write_call-Prints c text m h = elim (Option-cases (descriptor m c.fd)) [
    | inl n ↦ rw n (h.0 ∙ append_nothing text, h.1)
    | inr (d, n) ↦ rw n (
        write_result-Prints c text m (write p sys d c.iovecs m.world)
          (write-IsCount p sys d c.iovecs m.world) h)
  ]

  run_writes-Prints :
      (cs : List Write) (text : List ℕ) (m : Program)
      → Prints text m
      → Prints (text ++ printed cs m) (run_writes cs m)
  unfolding run_writes printed
  run_writes-Prints [] text m h = (h.0 ∙ append_nothing text, h.1)
  run_writes-Prints (c ∷ cs) text m h =
      let (e, whole) =
        run_writes-Prints cs (text ++ printed_by c (write_call c m).0) (write_call c m).1
          (write_call-Prints c text m h) in
      (
        e
            ∙ sym (
                append_assoc text (printed_by c (write_call c m).0)
                  (printed cs (write_call c m).1)),
        whole,
      )

  finish_whole :
      (failure : ℕ → List ℕ) (b : ℕ) (output text : List ℕ) (out : Stdout)
      → out.content ≡ b ∷ text
      → IsWhole out
      → finish_task failure true false 0 output out ≡ ((b ∷ text) ++ (10 ∷ output), no_stdout)
  unfolding finish_task clear_captured_stdout
  finish_whole failure b output text out e h =
      let (f, whole) = get_captured_stdout-IsWhole out h in
      added (get_captured_stdout out).0 (get_captured_stdout out).1 (f ∙ e)
    where
      added :
          (module_stdout : List ℕ) (out' : Stdout)
          → module_stdout ≡ b ∷ text
          → add_stdout output (module_stdout, out') ≡ ((b ∷ text) ++ (10 ∷ output), no_stdout)
      added [] out' h' = cc
      added (x ∷ l) out' h' = ap (λ k. (k ++ (10 ∷ output), no_stdout)) h'

  -- A task whose program starts with no output, makes calls of `fd_write` while output is captured and
  -- then returns 0, not on a storage host: when the calls print something, the output of the task is
  -- what they printed to the standard descriptors, in the order of the calls, a line break, and the
  -- output that was there; and nothing stays captured. What a call prints is all that it was given, if
  -- it returns, also where the system wrote less or failed.
  pub finish_task-run_writes :
      (failure : ℕ → List ℕ) (cs : List Write) (b : ℕ) (text output : List ℕ) (m : Program)
      → m.stdout ≡ no_stdout
      → printed cs m ≡ b ∷ text
      → finish_task failure true false 0 output (run_writes cs m).stdout
        ≡ (printed cs m ++ (10 ∷ output), no_stdout)
  finish_task-run_writes failure cs b text output m h e =
      let start : Prints [] m = (
        ap (λ o. o.content) h,
        (
          ap (λ o. o.offset) h ∙ sym (ap (λ o. length o.content) h),
          ap (λ o. o.stdout_size) h ∙ sym (ap (λ o. length o.content) h),
        ),
      ) in
      let (f, whole) = run_writes-Prints cs [] m start in
      rw e (finish_whole failure b output text (run_writes cs m).stdout (f ∙ e) whole)
