-- ===== src/Uffd/Ranges.antt =====
-- The manager's set of ranges as a function from pointers (`allocateRange`, `modifyRange`,
-- `freeRange` of src/wasm/UffdMemoryArenaManager.cpp).
use faasm.Prelude.{
  ℕ, ◌+◌, ◌≤◌, ◌<◌, ◌≡◌, true, false, some, [], ◌∷◌, ok, if◌then◌else◌, arith, Bool-cases, inl, inr,
}
use faasm.Uffd.{Range, pointer_in_range}
use faasm.Uffd.Arena.{Ranges, find_range, update_range, modify_range, IsDisjoint}

-- A pointer that is found lies in the range that is found.
pub find-in_range :
    (a : ℕ) (rs : Ranges) (r : Range) → find_range a rs ≡ some r → pointer_in_range r a ≡ true
unfolding find_range
find-in_range a [] r e = cc
find-in_range a (s ∷ rs) r e = ground (arith, find-in_range a rs r)

abbrev pub KeepsBounds : (Range → Range) → Type 0
KeepsBounds action =
    (r : Range) → ((action r).map_start ≡ r.map_start) × ((action r).map_bytes ≡ r.map_bytes)

-- The range that is found stands where the set allows it.
find-above :
    (low start : ℕ) (rs : Ranges) (r : Range)
    → IsDisjoint low rs
    → find_range start rs ≡ some r
    → low ≤ r.map_start
unfolding find_range
find-above low start [] r d e = cc
find-above low start (s ∷ rs) r d e =
    ground (arith, find-above (s.map_start + s.map_bytes) start rs r d.1)

not_in_range-below : (r : Range) (a : ℕ) → a < r.map_start → pointer_in_range r a ≡ false
unfolding pointer_in_range
not_in_range-below r a h = ground arith

in_range-end : (r : Range) (a : ℕ) → pointer_in_range r a ≡ true → a < r.map_start + r.map_bytes
unfolding pointer_in_range
in_range-end r a h = ground arith

in_range-same :
    (r s : Range) (a : ℕ)
    → r.map_start ≡ s.map_start
    → r.map_bytes ≡ s.map_bytes
    → pointer_in_range r a ≡ pointer_in_range s a
unfolding pointer_in_range
in_range-same r s a p q = rw (p, q)

-- A pointer into the first range of a disjoint set is not in a later one.
in_range-first :
    (s r : Range) (a start : ℕ) (rs : Ranges)
    → IsDisjoint (s.map_start + s.map_bytes) rs
    → find_range start rs ≡ some r
    → pointer_in_range s a ≡ true
    → pointer_in_range r a ≡ false
in_range-first s r a start rs d e h =
    not_in_range-below r a
      (omega (arith, find-above (s.map_start + s.map_bytes) start rs r d e, in_range-end s a h))

-- Ranges that stand apart share no pointer.
pub in_range-apart :
    (r s : Range) (a : ℕ)
    → s.map_start + s.map_bytes ≤ r.map_start
    → pointer_in_range s a ≡ true
    → pointer_in_range r a ≡ false
in_range-apart r s a h e = not_in_range-below r a (omega (arith, in_range-end s a e))

-- Every pointer into the range that is found finds it too.
pub find-same :
    (start a low : ℕ) (r : Range) (rs : Ranges)
    → IsDisjoint low rs
    → find_range start rs ≡ some r
    → pointer_in_range r a ≡ true
    → find_range a rs ≡ some r
unfolding find_range
find-same start a low r [] d e h = cc
find-same start a low r (s ∷ rs) d e h = ground (
  arith,
  find-same start a (s.map_start + s.map_bytes) r rs d.1,
  in_range-first s r a start rs d.1,
)

module _ (start a : ℕ) (r : Range) where
  find-update :
      (low : ℕ) (action : Range → Range) (rs : Ranges)
      → KeepsBounds action
      → IsDisjoint low rs
      → find_range start rs ≡ some r
      → find_range a (update_range start action rs)
        ≡ (if pointer_in_range r a then some (action r) else find_range a rs)
  unfolding find_range update_range
  find-update low action [] keeps d e = cc
  find-update low action (s ∷ rs) keeps d e =
      let same = in_range-same (action s) s a (keeps s).0 (keeps s).1 in
      ground (
        arith,
        same,
        find-update (s.map_start + s.map_bytes) action rs keeps d.1,
        in_range-first s r a start rs d.1,
      )

update-IsDisjoint :
    (start low : ℕ) (action : Range → Range) (rs : Ranges)
    → KeepsBounds action
    → IsDisjoint low rs
    → IsDisjoint low (update_range start action rs)
unfolding update_range
update-IsDisjoint start low action [] keeps d = tt
update-IsDisjoint start low action (r ∷ rs) keeps d =
    let (b, n) = keeps r in
    elim (Bool-cases (pointer_in_range r start)) [
      | inl e ↦ rw (e, b, n) d
      | inr e ↦ rw e (d.0, update-IsDisjoint start (r.map_start + r.map_bytes) action rs keeps d.1)
    ]

-- Where a range holds the pointer, `modifyRange` succeeds: the pointers into that range find it
-- changed, all others find what they found, and the ranges stay disjoint, if the change keeps the
-- bounds of a range.
pub modify_range_pointwise :
    (start low : ℕ) (r : Range) (action : Range → Range) (rs : Ranges)
    → KeepsBounds action
    → IsDisjoint low rs
    → find_range start rs ≡ some r
    → (rs' : Ranges) × (modify_range start action rs ≡ ok rs')
      × IsDisjoint low rs'
      × ((a : ℕ)
          → find_range a rs' ≡ (if pointer_in_range r a then some (action r) else find_range a rs))
unfolding modify_range
modify_range_pointwise start low r action rs keeps d e = (
  update_range start action rs,
  rw (e, modify_range) (rw (find-in_range start rs r e)),
  update-IsDisjoint start low action rs keeps d,
  λ a. find-update start a r low action rs keeps d e,
)
