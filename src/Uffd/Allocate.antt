-- ===== src/Uffd/Allocate.antt =====
-- Adding a range to the set (`allocateRange` of src/wasm/UffdMemoryArenaManager.cpp).
use faasm.Prelude.{◌+◌, ◌≤◌, ◌<◌, [], ◌∷◌, ◌⊎◌}
use faasm.Uffd.{Range}
use faasm.Uffd.Arena.{Ranges}

-- The new range meets none of the set: each stands wholly before it or wholly after it.
abbrev pub Fits : Range → Ranges → Type 0
Fits r [] = Unit
Fits r (s ∷ rs) =
    (0 < s.map_bytes)
    × ((r.map_start + r.map_bytes ≤ s.map_start) ⊎ (s.map_start + s.map_bytes ≤ r.map_start))
    × Fits r rs
