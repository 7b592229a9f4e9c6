-- ===== src/OpenMp/Serial.antt =====
-- `Level::serialise` and `Level::deserialise` of src/threads/ThreadState.cpp, as lists of bytes. The
-- object is the seven words, the number of shared offsets and a pointer of 8 bytes, whose value is an
-- argument; the words of the shared offsets follow. Reading past the end, which is undefined, is
-- `none`.
use faasm.Prelude.{
  ℕ, zero, suc, ◌+◌, ◌*◌, ◌/◌, ◌%◌, ◌^◌, ◌<◌, ◌≡◌, refl, ap, subst, ◌∙◌, Option, none, some, List,
  [], ◌∷◌, ◌++◌, All, length, arith,
}
use faasm.OpenMp.{Level}

unfoldable word_bytes : ℕ → List ℕ
word_bytes w = w % 256 ∷ w / 256 % 256 ∷ w / 65536 % 256 ∷ w / 16777216 % 256 ∷ []

unfoldable words_bytes : List ℕ → List ℕ
words_bytes [] = []
words_bytes (w ∷ ws) = word_bytes w ++ words_bytes ws

-- `n` words from the front, and the bytes that are left.
unfoldable read_words : ℕ → List ℕ → Option (List ℕ × List ℕ)
read_words zero bytes = some ([], bytes)
read_words (suc n) (a ∷ b ∷ c ∷ d ∷ bytes) = elim (read_words n bytes) [
  | none ↦ none
  | some (ws, rest) ↦ some ((a + 256 * b + 65536 * c + 16777216 * d) ∷ ws, rest)
]
read_words (suc n) _ = none

-- The words of the object; the pointer has two.
abbrev header : Level → ℕ → ℕ → List ℕ
header l ptr_low ptr_high =
    l.depth
    ∷ l.active_levels
    ∷ l.max_active_levels
    ∷ l.num_threads
    ∷ l.wanted_threads
    ∷ l.pushed_threads
    ∷ l.global_tid_offset
    ∷ length l.shared_var_offsets
    ∷ ptr_low
    ∷ ptr_high
    ∷ []

pub serialise : Level → ℕ → ℕ → List ℕ
unfolding words_bytes
serialise l ptr_low ptr_high =
    words_bytes (header l ptr_low ptr_high) ++ words_bytes l.shared_var_offsets

abbrev level_from : List ℕ → List ℕ → Option Level
level_from (d ∷ a ∷ m ∷ n ∷ w ∷ p ∷ g ∷ k ∷ _) offsets = some (record {
  depth = d;
  active_levels = a;
  max_active_levels = m;
  num_threads = n;
  wanted_threads = w;
  pushed_threads = p;
  global_tid_offset = g;
  shared_var_offsets = offsets;
})
level_from _ offsets = none

abbrev offset_count : List ℕ → ℕ
offset_count (d ∷ a ∷ m ∷ n ∷ w ∷ p ∷ g ∷ k ∷ _) = k
offset_count _ = 0

abbrev with_offsets : List ℕ → Option (List ℕ × List ℕ) → Option Level
with_offsets ws none = none
with_offsets ws (some (offsets, _)) = level_from ws offsets

abbrev from_header : Option (List ℕ × List ℕ) → Option Level
from_header none = none
from_header (some (ws, rest)) = with_offsets ws (read_words (offset_count ws) rest)

pub deserialise : List ℕ → Option Level
unfolding read_words
deserialise bytes = from_header (read_words 10 bytes)

abbrev pub IsWord : ℕ → Type 0
IsWord w = w < 2 ^ 32

word_round_trip :
    (w : ℕ)
    → IsWord w
    → w % 256 + 256 * (w / 256 % 256) + 65536 * (w / 65536 % 256) + 16777216 * (w / 16777216 % 256)
      ≡ w
word_round_trip w h = omega arith

read_words-words_bytes :
    (ws rest : List ℕ)
    → All IsWord ws
    → read_words (length ws) (words_bytes ws ++ rest) ≡ some (ws, rest)
unfolding read_words words_bytes word_bytes
read_words-words_bytes [] rest h = refl
read_words-words_bytes (w ∷ ws) rest h =
    rw (read_words-words_bytes ws rest h.1, word_round_trip w h.0) refl

append-nil : (l : List ℕ) → l ++ [] ≡ l
append-nil [] = refl
append-nil (x ∷ l) = ap (λ t. x ∷ t) (append-nil l)

-- A level comes back from its bytes, whatever the pointer in them was, if its fields and the number
-- of its shared offsets are words.
pub deserialise-serialise :
    (l : Level) (ptr_low ptr_high : ℕ)
    → All IsWord (header l ptr_low ptr_high)
    → All IsWord l.shared_var_offsets
    → deserialise (serialise l ptr_low ptr_high) ≡ some l
unfolding deserialise serialise
deserialise-serialise l ptr_low ptr_high hh ho =
    ap from_header
      (read_words-words_bytes (header l ptr_low ptr_high) (words_bytes l.shared_var_offsets) hh)
    ∙ subst
        (λ bytes.
          with_offsets (header l ptr_low ptr_high) (read_words (length l.shared_var_offsets) bytes)
          ≡ some l)
        (append-nil (words_bytes l.shared_var_offsets))
        (ap (with_offsets (header l ptr_low ptr_high))
          (read_words-words_bytes l.shared_var_offsets [] ho))
