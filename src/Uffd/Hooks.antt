-- ===== src/Uffd/Hooks.antt =====
-- The memory hooks of WAVM (struct WavmUffdHooks, src/wavm/WAVMWasmModule.cpp) over the manager.
-- An exception leaves the changes that were made before it, so the ranges come back beside it.
-- `mprotect` is an argument: whether the call succeeds.
use Prim.Native.Nat.{bit_or}
use faasm.Prelude.{
  ℕ, ◌+◌, ◌*◌, ◌≤◌, ◌<◌, ◌≡◌, refl, Bool, true, false, Option, none, some, Result, ok, err, ltb,
  leb, ◌&&◌, if◌then◌else◌, arith, Bool-cases, inl, inr, ◌⊎◌,
}
use faasm.Uffd.{
  Range, uintptr_max, pointer_in_range, set_permissions, pointer_permissions, first_perm,
}
use faasm.Uffd.Arena.{
  Error, Ranges, find_range, allocate_range, modify_range, free_range, discard_content, IsDisjoint,
}
use faasm.Uffd.Permissions.{has_key, IsSharpAt}
use faasm.Uffd.Update.{IsPermissionMap, set_permissions_pointwise}
use faasm.Uffd.Ranges.{KeepsBounds, modify_range_pointwise, find-in_range, find-same}

pub data MemoryAccess : Type 0 where
  no_access read_only read_write read_execute read_write_execute : MemoryAccess

-- `int(access != MemoryAccess::none)`
abbrev commit_perms : MemoryAccess → ℕ
commit_perms no_access = 0
commit_perms _ = 1

abbrev page_bytes : ℕ
page_bytes = 4096

pub allocate_virtual_pages : Option ℕ → ℕ → Ranges → Result Error (ℕ × Ranges)
allocate_virtual_pages base num_pages = allocate_range base num_pages 0

pub commit_virtual_pages : ℕ → ℕ → MemoryAccess → Ranges → Result Error Ranges
commit_virtual_pages begin_a num_pages access =
    modify_range begin_a
      (λ r. set_permissions r begin_a (begin_a + num_pages * page_bytes) (commit_perms access))

-- The bits of PROT_READ, PROT_WRITE and PROT_EXEC.
pub record ProtFlags : Type 0 where
  pub prot_read : ℕ
  pub prot_write : ℕ
  pub prot_exec : ℕ

abbrev access_flags : ProtFlags → MemoryAccess → ℕ
access_flags f no_access = 0
access_flags f read_only = f.prot_read
access_flags f read_write = bit_or f.prot_read f.prot_write
access_flags f read_execute = bit_or f.prot_read f.prot_exec
access_flags f read_write_execute = bit_or (bit_or f.prot_read f.prot_write) f.prot_exec

pub data HookError : Type 0 where
  arena : Error → HookError
  mprotect_failed : HookError

pub set_virtual_page_access :
    ProtFlags → Bool → ℕ → ℕ → MemoryAccess → Ranges → Result HookError (Unit {0}) × Ranges
set_virtual_page_access f mprotect_ok begin_a num_pages access rs =
    elim (modify_range begin_a
      (λ r. set_permissions r begin_a (begin_a + num_pages * page_bytes) (access_flags f access))
      rs) [
        | ok rs' ↦ (if mprotect_ok then ok tt else err mprotect_failed, rs')
        | err e ↦ (err (arena e), rs)
      ]

-- The permissions go first; then the content, which may throw.
pub decommit_virtual_pages : ℕ → ℕ → Ranges → Result Error (Option (ℕ × ℕ)) × Ranges
decommit_virtual_pages begin_a num_pages rs =
    let end_a = begin_a + num_pages * page_bytes in
    elim (find_range begin_a rs) [
      | none ↦ (err Error.invalid_pointer, rs)
      | some r ↦ elim (modify_range begin_a (λ s. set_permissions s begin_a end_a 0) rs) [
        | err e ↦ (err e, rs)
        | ok rs' ↦ (discard_content (set_permissions r begin_a end_a 0) begin_a end_a, rs')
      ]
    ]

abbrev pub free_virtual_pages : ℕ → Ranges → Result Error Ranges
free_virtual_pages = free_range

-- The permissions of a pointer, in whatever range it lies.
abbrev permissions_in : Option Range → ℕ → ℕ
permissions_in none a = 0
permissions_in (some r) a = pointer_permissions r.permissions a

unfoldable pub access_at : Ranges → ℕ → ℕ
access_at rs a = permissions_in (find_range a rs) a

set_permissions-KeepsBounds : (b e p : ℕ) → KeepsBounds (λ r. set_permissions r b e p)
unfolding set_permissions
set_permissions-KeepsBounds b e p r = (refl, refl)

in_range-between :
    (r : Range) (b e a : ℕ)
    → pointer_in_range r b ≡ true
    → e ≤ r.map_start + r.map_bytes
    → pointer_in_range r a ≡ false
    → (leb b a && ltb a e) ≡ false
unfolding pointer_in_range
in_range-between r b e a h he out = ground arith

module _ (begin_a num_pages low p : ℕ) (r : Range) (rs : Ranges) where
  abbrev end_address : ℕ
  end_address = begin_a + num_pages * page_bytes

  -- Setting the permissions of pages of a range changes those of their addresses alone.
  modify-set_permissions :
      0 < num_pages
      → end_address ≤ r.map_start + r.map_bytes
      → end_address ≤ uintptr_max
      → IsDisjoint low rs
      → find_range begin_a rs ≡ some r
      → IsPermissionMap r.permissions
      → IsSharpAt end_address none r.permissions
      → (has_key begin_a end_address r.permissions ≡ true)
        ⊎ (pointer_permissions r.permissions begin_a ≡ first_perm r.permissions)
      → (rs' : Ranges) × (modify_range begin_a (λ s. set_permissions s begin_a end_address p) rs
          ≡ ok rs')
        × ((a : ℕ)
            → access_at rs' a ≡ (if leb begin_a a && ltb a end_address then p else access_at rs a))
  unfolding access_at
  modify-set_permissions hn hr hm d e m sharp known =
      let (rs', eq, _, f) =
        modify_range_pointwise begin_a low r (λ s. set_permissions s begin_a end_address p) rs
          (set_permissions-KeepsBounds begin_a end_address p) d e in
      (
        rs',
        eq,
        λ a. elim (Bool-cases (pointer_in_range r a)) [
          | inl h ↦
              rw (f a, h, find-same begin_a a low r rs d e h)
                (set_permissions_pointwise r begin_a end_address p a (omega arith) hm m sharp known)
          | inr h ↦
              rw
                (
                  f a,
                  h,
                  in_range-between r begin_a end_address a (find-in_range begin_a rs r e) hr h,
                )
                refl
        ],
      )

-- Committing pages of one range opens exactly those pages: their addresses get the access bit, all
-- other pointers keep their permissions. The ranges are disjoint, and the conditions on the
-- range's list are those under which `setPermissions` is exact.
pub commit_virtual_pages_pointwise :
    (begin_a num_pages low : ℕ) (access : MemoryAccess) (r : Range) (rs : Ranges)
    → 0 < num_pages
    → begin_a + num_pages * page_bytes ≤ r.map_start + r.map_bytes
    → begin_a + num_pages * page_bytes ≤ uintptr_max
    → IsDisjoint low rs
    → find_range begin_a rs ≡ some r
    → IsPermissionMap r.permissions
    → IsSharpAt (begin_a + num_pages * page_bytes) none r.permissions
    → (has_key begin_a (begin_a + num_pages * page_bytes) r.permissions ≡ true)
      ⊎ (pointer_permissions r.permissions begin_a ≡ first_perm r.permissions)
    → (rs' : Ranges) × (commit_virtual_pages begin_a num_pages access rs ≡ ok rs')
      × ((a : ℕ)
          → access_at rs' a ≡ (
              if leb begin_a a && ltb a (begin_a + num_pages * page_bytes)
              then commit_perms access
              else access_at rs a))
unfolding commit_virtual_pages access_at
commit_virtual_pages_pointwise begin_a num_pages low acc r rs =
    modify-set_permissions begin_a num_pages low (commit_perms acc) r rs
