-- ===== src/Uffd/Arena.antt =====
-- The ranges of src/wasm/UffdMemoryArenaManager.cpp: their mapping, and the set that the manager
-- keeps, as a list. What `mmap` returns is an argument. Addresses do not wrap, and
-- `x & ~(2 ^ k - 1)` is written `x / 2 ^ k * 2 ^ k`.
use native.Mathlib.Nat.{one-le-pow}
use faasm.Prelude.{
  ℕ, ◌+◌, ◌-◌, ◌*◌, ◌/◌, ◌%◌, ◌^◌, ◌≤◌, ◌<◌, ◌≡◌, ◌||◌, Option, none, some, List, [], ◌∷◌, Result,
  ok, err, ◌>>=◌, ltb, leb, ◌==◌, if◌then◌else◌, arith,
}
use faasm.Uffd.{Range, reset_permissions, pointer_in_range}

pub data Error : Type 0 where
  system_error out_of_range invalid_pointer : Error

-- What the constructor leaves behind: the range, and the head and the tail that it unmaps, each an
-- address and a size.
pub record Mapping : Type 0 where
  pub range : Range
  pub head : ℕ × ℕ
  pub tail : ℕ × ℕ

abbrev align_up : ℕ → ℕ → ℕ
align_up address alignment = (address + alignment - 1) / alignment * alignment

-- `UffdMemoryRange(pages, alignmentLog2)`, when `mmap` returned `base`.
unfoldable pub new_range : Option ℕ → ℕ → ℕ → Result Error Mapping
new_range none pages alignment_log2 = err system_error
new_range (some address) pages alignment_log2 =
    let num_bytes = pages * 4096 in
    let alignment_bytes = 2 ^ alignment_log2 in
    let aligned = align_up address alignment_bytes in
    let r : Range = record {
      map_start = aligned;
      map_bytes = num_bytes;
      max_used_bytes = 0;
      permissions = [];
      init_source_size = 0;
    } in
    ok (record {
      range = reset_permissions r;
      head = (address, aligned - address);
      tail = (aligned + num_bytes, alignment_bytes - (aligned - address));
    })

-- `discardContent`: the span that is given to `madvise`, if any.
unfoldable pub discard_content : Range → ℕ → ℕ → Result Error (Option (ℕ × ℕ))
discard_content r begin_a end_a =
    if begin_a == end_a
    then ok none
    else if ltb end_a begin_a || leb begin_a r.map_start || ltb (r.map_start + r.map_bytes) end_a
    then err out_of_range
    else ok (some (begin_a, end_a - begin_a))

-- `discardAll`: the span that is given to `madvise`, and the range after it.
abbrev pub discard_all : Range → (ℕ × ℕ) × Range
discard_all r = ((r.map_start, r.max_used_bytes), record r { max_used_bytes = 0 })

abbrev pub Ranges : Type 0
Ranges = List Range

-- `ranges->find(ptr)`: a range compares equal to the pointers into it.
unfoldable pub find_range : ℕ → Ranges → Option Range
find_range addr [] = none
find_range addr (r ∷ rs) = if pointer_in_range r addr then some r else find_range addr rs

-- `insert`, which does nothing where there is a range with this start; the set is sorted by starts.
unfoldable pub insert_range : Range → Ranges → Ranges
insert_range r [] = r ∷ []
insert_range r (s ∷ rs) =
    if r.map_start == s.map_start
    then s ∷ rs
    else if ltb r.map_start s.map_start
    then r ∷ s ∷ rs
    else s ∷ insert_range r rs

unfoldable pub erase_range : ℕ → Ranges → Ranges
erase_range addr [] = []
erase_range addr (r ∷ rs) = if pointer_in_range r addr then rs else r ∷ erase_range addr rs

-- The change of a range that the set shares.
unfoldable pub update_range : ℕ → (Range → Range) → Ranges → Ranges
update_range addr action [] = []
update_range addr action (r ∷ rs) =
    if pointer_in_range r addr then action r ∷ rs else r ∷ update_range addr action rs

unfoldable pub allocate_range : Option ℕ → ℕ → ℕ → Ranges → Result Error (ℕ × Ranges)
allocate_range base pages alignment_log2 ranges = do
  m ← new_range base pages alignment_log2
  ok (m.range.map_start, insert_range m.range ranges)

unfoldable pub modify_range : ℕ → (Range → Range) → Ranges → Result Error Ranges
modify_range start action ranges = elim (find_range start ranges) [
  | none ↦ err invalid_pointer
  | some range ↦
      if pointer_in_range range start
      then ok (update_range start action ranges)
      else err invalid_pointer
]

-- The permissions of the range are reset, for those that still hold it, before it is removed.
unfoldable pub free_range : ℕ → Ranges → Result Error Ranges
free_range start ranges = elim (find_range start ranges) [
  | none ↦ err invalid_pointer
  | some range ↦ ok (erase_range start (update_range start reset_permissions ranges))
]

-- Any pointer of one range lies in no other: the addresses ascend.
abbrev pub IsDisjoint : ℕ → Ranges → Type 0
IsDisjoint low [] = Unit
IsDisjoint low (r ∷ rs) = (low ≤ r.map_start) × IsDisjoint (r.map_start + r.map_bytes) rs

align_up_bounds :
    (a n : ℕ) → 0 < n → (a ≤ align_up a n) × (align_up a n < a + n) × (align_up a n % n ≡ 0)
align_up_bounds a n h = (grind arith, grind arith, grind arith)

-- The mapping that `mmap` made is the head, the range and the tail, end to end; the range begins
-- at a multiple of the alignment.
pub new_range_layout :
    (address pages alignment_log2 : ℕ) {m : Mapping}
    → new_range (some address) pages alignment_log2 ≡ ok m
    → (m.range.map_start % 2 ^ alignment_log2 ≡ 0)
      × (m.head.0 ≡ address)
      × (m.head.0 + m.head.1 ≡ m.range.map_start)
      × (m.range.map_start + m.range.map_bytes ≡ m.tail.0)
      × (m.tail.0 + m.tail.1 ≡ address + pages * 4096 + 2 ^ alignment_log2)
      × (m.range.map_bytes ≡ pages * 4096)
unfolding new_range
new_range_layout address pages alignment_log2 {m} h = ground (
  arith,
  align_up_bounds address (2 ^ alignment_log2) (one-le-pow alignment_log2 2 (omega arith)),
)
