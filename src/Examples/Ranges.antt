-- ===== src/Examples/Ranges.antt =====
-- Runs of the memory ranges of src/wasm/UffdMemoryArenaManager.cpp.
use faasm.Prelude.{◌≡◌, refl, false, none, some, [], ◌∷◌, arith, inr}
use faasm.Uffd.{
  Perms, Range, uintptr_max, set_permissions, pointer_permissions, permission_walk,
  pointer_in_range,
}
use faasm.Uffd.Permissions.{has_key, IsSharpAt}
use faasm.Uffd.Update.{IsPermissionMap, set_permissions_pointwise}
use faasm.Uffd.Shape.{set_permissions-IsPermissionMap}
use faasm.Uffd.Arena.{Mapping, Ranges, find_range}
use faasm.Uffd.Faults.{lookup_range}

abbrev closed : Perms
closed = (0, 0) ∷ (uintptr_max, 0) ∷ []

abbrev first_range : Range
first_range = record {
  map_start = 65536;
  map_bytes = 262144;
  max_used_bytes = 0;
  permissions = closed;
  init_source_size = 0;
}

abbrev opened : Perms
opened = (0, 0) ∷ (65536, 1) ∷ (131072, 0) ∷ (uintptr_max, 0) ∷ []

-- A range whose first part, from below it, may be read and written.
abbrev used_range : Range
used_range = record {
  map_start = 65536;
  map_bytes = 262144;
  max_used_bytes = 65536;
  permissions = opened;
  init_source_size = 0;
}

closed-IsPermissionMap : IsPermissionMap closed
closed-IsPermissionMap = (refl, (omega arith, omega arith, refl))

closed-IsSharpAt : IsSharpAt 131072 none closed
closed-IsSharpAt = (λ e. absurd (omega arith), (λ e. absurd (omega arith), tt))

closed_at_start : pointer_permissions closed 65536 ≡ 0
unfolding permission_walk
closed_at_start = refl

set_permissions_pointwise_example :
    pointer_permissions (set_permissions first_range 65536 131072 1).permissions 70000 ≡ 1
set_permissions_pointwise_example =
    set_permissions_pointwise first_range 65536 131072 1 70000 (omega arith) (omega arith)
      closed-IsPermissionMap closed-IsSharpAt (inr closed_at_start)

set_permissions-IsPermissionMap_example :
    IsPermissionMap (set_permissions first_range 65536 131072 1).permissions
set_permissions-IsPermissionMap_example =
    set_permissions-IsPermissionMap first_range 65536 131072 1 (omega arith) (omega arith)
      closed-IsPermissionMap

opened-IsPermissionMap : IsPermissionMap opened
opened-IsPermissionMap =
    (refl, (omega arith, omega arith, (omega arith, omega arith, (omega arith, omega arith, refl))))

no_key_inside : has_key 70000 100000 opened ≡ false
unfolding has_key
no_key_inside = refl

abbrev second_range : Range
second_range = record {
  map_start = 1048576;
  map_bytes = 8192;
  max_used_bytes = 0;
  permissions = closed;
  init_source_size = 0;
}

abbrev second_mapping : Mapping
second_mapping = record { range = second_range; head = (1048000, 576); tail = (1056768, 64960) }

abbrev one_range : Ranges
one_range = first_range ∷ []

abbrev used_ranges : Ranges
used_ranges = used_range ∷ []

found_used : lookup_range none used_ranges 70000 ≡ some used_range
unfolding lookup_range find_range pointer_in_range
found_used = refl
