-- ===== src/Uffd/Update.antt =====
-- `setPermissions` of include/wasm/UffdMemoryArenaManager.h as an update of a function from
-- addresses to permissions.
use faasm.Prelude.{
  ℕ, ◌+◌, ◌≤◌, ◌<◌, ◌≡◌, refl, subst, ◌⊎◌, inl, inr, true, ◌&&◌, none, some, [], ◌∷◌, ltb, leb,
  if◌then◌else◌, arith, Bool-cases,
}
use faasm.Uffd.{
  Perms, Range, first_perm, set_permissions, permission_walk, pointer_permissions, uintptr_max,
}
use faasm.Uffd.Build.{IsSorted, mid_out, head_out, updated_permissions-head_out}
use faasm.Uffd.Permissions.{
  has_key, IsSharpAt, walk-before, walk-set, walk-rest, walk-inside, walk-after,
}

-- The entries ascend from address 0 to `uintptr_max`.
abbrev pub IsPermissionMap : Perms → Type 0
IsPermissionMap [] = ⊥
IsPermissionMap ((k, q) ∷ l) = (k ≡ 0) × IsSorted 1 l

pub IsPermissionMap-IsSorted : (l : Perms) → IsPermissionMap l → IsSorted 0 l
IsPermissionMap-IsSorted ((k, q) ∷ l) m =
    let sorted : IsSorted (k + 1) l = subst (λ a. IsSorted a l) (omega arith) m.1 in
    (omega arith, omega arith, sorted)
IsPermissionMap-IsSorted [] m = absurd m

module _ (b e p x : ℕ) (hb : b < e) (he : e ≤ uintptr_max) where
  -- The first entry apart, which the loop always keeps unless the range starts there.
  updated-below :
      (l : Perms)
      → IsPermissionMap l
      → x < e
      → pointer_permissions (head_out b e p none (first_perm l) l) x
        ≡ (if ltb x b then pointer_permissions l x else p)
  unfolding permission_walk head_out mid_out
  updated-below [] m h = absurd m
  updated-below ((k, q) ∷ l) m h = elim (Bool-cases (ltb k b)) [
    | inl below ↦ elim (Bool-cases (ltb x b)) [
      | inl outside ↦
          rw (below, outside)
            (ground (arith, walk-before b e p x hb he q q 1 l (ground arith) (ground arith) m.1))
      | inr inside ↦
          rw (below, inside)
            (ground (arith, walk-set b e p x hb he q q 1 l (ground arith) h (ground arith) m.1))
    ]
    | inr start ↦ rw start (ground (arith, walk-inside p e q 1 x (some q) l m.1 (omega arith) he h))
  ]

  updated-rest :
      (l : Perms)
      → IsPermissionMap l
      → e ≤ x
      → IsSharpAt e none l
      → (has_key b e l ≡ true) ⊎ (pointer_permissions l b ≡ first_perm l)
      → pointer_permissions (head_out b e p none (first_perm l) l) x ≡ pointer_permissions l x
  unfolding permission_walk head_out mid_out has_key
  updated-rest [] m h sharp known = absurd m
  updated-rest ((k, q) ∷ l) m h sharp known = elim (Bool-cases (ltb k b)) [
    | inl below ↦ rw below (
        ground (arith, walk-rest b e p x hb he q q 1 l h (ground arith) m.1 sharp.1 (ground arith)))
    | inr start ↦ rw start (
        ground (
          arith,
          walk-after b q e q 1 x l m.1 (ground arith) (omega arith) he h sharp.1 (inr refl) p,
        ))
  ]

-- Without a condition on the entries near the range, `setPermissions` is exact below its end: the
-- addresses of the range get the new permissions and those below it keep theirs, in a list sorted
-- from address 0 to the last address.
pub set_permissions_range :
    (r : Range) (b e p x : ℕ)
    → b < e
    → e ≤ uintptr_max
    → IsPermissionMap r.permissions
    → x < e
    → pointer_permissions (set_permissions r b e p).permissions x
      ≡ (if ltb x b then pointer_permissions r.permissions x else p)
unfolding set_permissions
set_permissions_range r b e p x hb he m h =
    rw (updated_permissions-head_out b e p r.permissions hb he (IsPermissionMap-IsSorted _ m))
      (updated-below b e p x hb he r.permissions m h)

-- `setPermissions` on a range that is not empty changes exactly that range: its addresses get the
-- new permissions, all others keep theirs. The list is sorted from address 0 to the last address;
-- it has an entry inside or at the end of the range, or else the permissions where the range
-- begins are those of address 0; and no entry at the end of the range repeats the permissions
-- before it.
pub set_permissions_pointwise :
    (r : Range) (b e p x : ℕ)
    → b < e
    → e ≤ uintptr_max
    → IsPermissionMap r.permissions
    → IsSharpAt e none r.permissions
    → (has_key b e r.permissions ≡ true)
      ⊎ (pointer_permissions r.permissions b ≡ first_perm r.permissions)
    → pointer_permissions (set_permissions r b e p).permissions x
      ≡ (if leb b x && ltb x e then p else pointer_permissions r.permissions x)
set_permissions_pointwise r b e p x hb he m sharp known = elim (Bool-cases (ltb x e)) [
  | inl inside ↦ ground (arith, set_permissions_range r b e p x hb he m (ground arith))
  | inr past ↦ ground (arith, rest (ground arith))
]
  where
    rest :
        e ≤ x
        → pointer_permissions (set_permissions r b e p).permissions x
          ≡ pointer_permissions r.permissions x
    rest h =
        unfold set_permissions in
        rw (updated_permissions-head_out b e p r.permissions hb he (IsPermissionMap-IsSorted _ m))
          (updated-rest b e p x hb he r.permissions m h sharp known)
