-- ===== src/Uffd.antt =====
-- include/wasm/UffdMemoryArenaManager.h and src/wasm/UffdMemoryArenaManager.cpp: memory ranges that
-- are populated on page faults. Addresses are numbers. The permission list is a sorted list of
-- (start, permissions) pairs, as the `flat_map` keeps it; -1, which is no permission, is `none`.
pub mod Build
pub mod Permissions
pub mod Update
pub mod Shape
pub mod Arena
pub mod Ranges
pub mod Allocate
pub mod Hooks
pub mod Faults
use faasm.Prelude.{
  ℕ, ◌+◌, ◌-◌, ◌*◌, ◌/◌, ◌%◌, ◌^◌, Bool, true, false, not, ◌&&◌, ◌||◌, Option, none, some, List, [],
  ◌∷◌, ltb, leb, ◌==◌, if◌then◌else◌, Result, ok, err,
}

abbrev pub uintptr_max : ℕ
uintptr_max = 2 ^ 64 - 1

abbrev pub Perms : Type 0
Perms = List (ℕ × ℕ)

-- `emplace` keeps the order, and the entry of a key that is there already.
unfoldable pub emplace : ℕ → ℕ → Perms → Perms
emplace a p [] = (a, p) ∷ []
emplace a p ((k, q) ∷ l) =
    if a == k then (k, q) ∷ l else if ltb a k then (a, p) ∷ (k, q) ∷ l else (k, q) ∷ emplace a p l

abbrev pub same_perm : Option ℕ → ℕ → Bool
same_perm none p = false
same_perm (some q) p = q == p

-- The variables of the loop in `setPermissions`.
pub record Scan : Type 0 where
  pub permissions : Perms
  pub last_perm : Option ℕ
  pub end_perm : ℕ
  pub needs_end : Bool
  pub begin_done : Bool

module _ (begin_a end_a perms : ℕ) where
  begin_step : Scan → ℕ → Scan
  begin_step s addr =
      if not s.begin_done && leb begin_a addr
      then record s {
        begin_done = true;
        permissions =
            if same_perm s.last_perm perms
            then s.permissions
            else emplace begin_a perms s.permissions;
      }
      else s

  keep_step : Scan → ℕ → ℕ → Scan
  keep_step s addr perm =
      if ltb addr begin_a || leb end_a addr
      then record s {
        permissions =
            if not (same_perm s.last_perm perm) || addr == uintptr_max
            then emplace addr perm s.permissions
            else s.permissions;
        needs_end = if addr == end_a then false else s.needs_end;
      }
      else record s { end_perm = perm }

  pub entry_step : Scan → ℕ × ℕ → Scan
  unfolding begin_step keep_step
  entry_step s (addr, perm) =
      let s' = keep_step (begin_step s addr) addr perm in record s' { last_perm = some perm }

  pub scan_loop : Scan → Perms → Scan
  scan_loop s [] = s
  scan_loop s (entry ∷ l) = scan_loop (entry_step s entry) l

abbrev pub first_perm : Perms → ℕ
first_perm [] = 0
first_perm ((k, q) ∷ l) = q

abbrev pub scan_start : Perms → Scan
scan_start old = record {
  permissions = [];
  last_perm = none;
  end_perm = first_perm old;
  needs_end = true;
  begin_done = false;
}

pub finish : ℕ → Scan → Perms
finish end_a s = if s.needs_end then emplace end_a s.end_perm s.permissions else s.permissions

-- The new permission list of `setPermissions`.
pub updated_permissions : ℕ → ℕ → ℕ → Perms → Perms
unfolding scan_loop entry_step finish emplace
updated_permissions begin_a end_a perms old =
    finish end_a (scan_loop begin_a end_a perms (scan_start old) old)

-- The walk to the first entry above `addr`; `prev` is the permission of the entry before.
unfoldable pub permission_walk : ℕ → Perms → ℕ → ℕ
permission_walk prev [] addr = 0
permission_walk prev ((k, q) ∷ l) addr =
    let rest = permission_walk q l addr in if ltb addr k then prev else rest

-- `upper_bound`, and one step back; 0 if there is no entry above, or none below.
abbrev pub pointer_permissions : Perms → ℕ → ℕ
pointer_permissions = permission_walk 0

pub record Range : Type 0 where
  pub map_start : ℕ
  pub map_bytes : ℕ
  pub max_used_bytes : ℕ
  pub permissions : Perms
  pub init_source_size : ℕ

abbrev pub reset_permissions : Range → Range
reset_permissions r = record r { permissions = (0, 0) ∷ (uintptr_max, 0) ∷ [] }

-- `end - mapStart` as a `uintptr_t`.
unfoldable pub set_permissions : Range → ℕ → ℕ → ℕ → Range
unfolding updated_permissions
set_permissions r begin_a end_a perms =
    let last_touched = (end_a + 2 ^ 64 - r.map_start) % 2 ^ 64 in
    record r {
      max_used_bytes = if ltb r.max_used_bytes last_touched then last_touched else r.max_used_bytes;
      permissions = updated_permissions begin_a end_a perms r.permissions;
    }

unfoldable pub touch : Range → ℕ → Range
touch r offset = if ltb r.max_used_bytes offset then record r { max_used_bytes = offset } else r

unfoldable pub pointer_in_range : Range → ℕ → Bool
pointer_in_range r addr = leb r.map_start addr && ltb addr (r.map_start + r.map_bytes)
