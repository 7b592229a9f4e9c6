-- ===== src/Uffd/Shape.antt =====
-- `setPermissions` keeps the permission list well formed; and where it goes wrong.
use faasm.Prelude.{
  ℕ, ◌+◌, ◌≤◌, ◌<◌, ◌≡◌, false, Option, none, some, [], ◌∷◌, ltb, ◌==◌, arith, Bool-cases, inl, inr,
}
use faasm.Uffd.{
  Perms, Range, same_perm, first_perm, set_permissions, permission_walk, pointer_permissions,
  uintptr_max,
}
use faasm.Uffd.Build.{IsSorted, kept, tail_out, mid_out, head_out, updated_permissions-head_out}
use faasm.Uffd.Permissions.{has_key, walk-below-tail_out}
use faasm.Uffd.Update.{IsPermissionMap, IsPermissionMap-IsSorted}

IsSorted-mono :
    (low' low : ℕ) (l : Perms) → low' ≤ low → low ≤ uintptr_max → IsSorted low l → IsSorted low' l
IsSorted-mono low' low [] h hl s = absurd (omega arith)
IsSorted-mono low' low ((k, q) ∷ l) h hl s = (omega arith, s.1, s.2)

tail_out-IsSorted :
    (last : Option ℕ) (low : ℕ) (l : Perms) → IsSorted low l → IsSorted low (tail_out last l)
unfolding tail_out
tail_out-IsSorted last low [] s = s
tail_out-IsSorted last low ((k, q) ∷ l) s = elim (Bool-cases (kept last k q)) [
  | inl keep ↦ rw keep (s.0, s.1, tail_out-IsSorted (some q) (k + 1) l s.2)
  | inr drop ↦ rw drop (
      IsSorted-mono low (k + 1) (tail_out (some q) l) (omega arith) (ground arith)
        (tail_out-IsSorted (some q) (k + 1) l s.2))
]

mid_out-IsSorted :
    (e : ℕ) (last : Option ℕ) (ep low : ℕ) (l : Perms)
    → e ≤ uintptr_max
    → low ≤ uintptr_max
    → IsSorted low l
    → IsSorted e (mid_out e last ep l)
unfolding mid_out
mid_out-IsSorted e last ep low [] he hl s = absurd (omega arith)
mid_out-IsSorted e last ep low ((k, q) ∷ l) he hl s = elim (Bool-cases (ltb k e)) [
  | inl inside ↦ rw inside (mid_out-IsSorted e (some q) q (k + 1) l he (ground arith) s.2)
  | inr outside ↦ elim (Bool-cases (k == e)) [
    | inl at ↦
        rw (outside, at)
          (IsSorted-mono e k (tail_out last ((k, q) ∷ l)) (ground arith) s.1
            (tail_out-IsSorted last k ((k, q) ∷ l) (omega arith, s.1, s.2)))
    | inr after ↦
        rw (outside, after)
          (
            omega arith,
            he,
            IsSorted-mono (e + 1) k (tail_out last ((k, q) ∷ l)) (ground arith) s.1
                (tail_out-IsSorted last k ((k, q) ∷ l) (omega arith, s.1, s.2)),
          )
  ]
]

module _ (b e p : ℕ) (hb : b < e) (he : e ≤ uintptr_max) where
  head_out-IsSorted :
      (last : Option ℕ) (ep low : ℕ) (l : Perms)
      → low ≤ b
      → IsSorted low l
      → IsSorted low (head_out b e p last ep l)
  unfolding head_out
  head_out-IsSorted last ep low [] hl s = absurd (omega arith)
  head_out-IsSorted last ep low ((k, q) ∷ l) hl s =
      let mid = mid_out-IsSorted e last ep k ((k, q) ∷ l) he s.1 (omega arith, s.1, s.2) in
      elim (Bool-cases (ltb k b)) [
        | inl below ↦
            let rest = head_out-IsSorted (some q) ep (k + 1) l (ground arith) s.2 in
            elim (Bool-cases (same_perm last q)) [
              | inl drop ↦
                  rw (below, drop)
                    (IsSorted-mono low (k + 1) (head_out b e p (some q) ep l) (omega arith)
                      (ground arith) rest)
              | inr keep ↦ rw (below, keep) (s.0, s.1, rest)
            ]
        | inr reached ↦ elim (Bool-cases (same_perm last p)) [
          | inl same ↦
              rw (reached, same)
                (IsSorted-mono low e (mid_out e last ep ((k, q) ∷ l)) (omega arith) he mid)
          | inr other ↦
              rw (reached, other)
                (
                  hl,
                  omega arith,
                  IsSorted-mono (b + 1) e (mid_out e last ep ((k, q) ∷ l)) (omega arith) he mid,
                )
        ]
      ]

  head_out-IsPermissionMap :
      (ep : ℕ) (l : Perms) → IsPermissionMap l → IsPermissionMap (head_out b e p none ep l)
  unfolding head_out
  head_out-IsPermissionMap ep [] m = absurd m
  head_out-IsPermissionMap ep ((k, q) ∷ l) m = elim (Bool-cases (ltb k b)) [
    | inl below ↦ rw below (m.0, head_out-IsSorted (some q) ep 1 l (ground arith) m.1)
    | inr start ↦ rw start (
      ground arith,
      IsSorted-mono 1 e (mid_out e none ep ((k, q) ∷ l)) (omega arith) he (
          mid_out-IsSorted e none ep 0 ((k, q) ∷ l) he (omega arith)
            (IsPermissionMap-IsSorted ((k, q) ∷ l) m)),
    )
  ]

-- The list stays sorted, from address 0 to `uintptr_max`, after an update of a non-empty range.
pub set_permissions-IsPermissionMap :
    (r : Range) (b e p : ℕ)
    → b < e
    → e ≤ uintptr_max
    → IsPermissionMap r.permissions
    → IsPermissionMap (set_permissions r b e p).permissions
unfolding set_permissions
set_permissions-IsPermissionMap r b e p hb he m =
    rw (updated_permissions-head_out b e p r.permissions hb he (IsPermissionMap-IsSorted _ m))
      (head_out-IsPermissionMap b e p hb he (first_perm r.permissions) r.permissions m)

module _ (b e p x : ℕ) (hb : b < e) (hx : e ≤ x) (hm : x < uintptr_max) where
  walk-lost :
      (prev r ep low : ℕ) (l : Perms)
      → low ≤ b
      → IsSorted low l
      → has_key b x l ≡ false
      → permission_walk prev (head_out b e p (some r) ep l) x ≡ ep
  unfolding permission_walk head_out mid_out has_key
  walk-lost prev r ep low [] hl s h = absurd (omega arith)
  walk-lost prev r ep low ((k, q) ∷ l) hl s h = elim (Bool-cases (ltb k b)) [
    | inl below ↦ rw below (
        ground (
          arith,
          walk-lost prev q ep (k + 1) l (ground arith) s.2 (ground arith),
          walk-lost q q ep (k + 1) l (ground arith) s.2 (ground arith),
        ))
    | inr reached ↦ rw reached (
        ground
          (arith, walk-below-tail_out ep (some r) k x ((k, q) ∷ l) (omega arith, s.1, s.2) s.1))
  ]

  updated-lost :
      (l : Perms)
      → 0 < b
      → IsPermissionMap l
      → has_key b x l ≡ false
      → pointer_permissions (head_out b e p none (first_perm l) l) x ≡ first_perm l
  unfolding permission_walk head_out has_key
  updated-lost [] h0 m h = absurd m
  updated-lost ((k, q) ∷ l) h0 m h = ground (arith, walk-lost q q q 1 l h0 m.1 (ground arith))

-- A range strictly inside one entry: the addresses between its end and the next entry get the
-- permissions of address 0, whatever the entry gave them.
pub set_permissions_tail_reset :
    (r : Range) (b e p x : ℕ)
    → 0 < b
    → b < e
    → e ≤ x
    → x < uintptr_max
    → IsPermissionMap r.permissions
    → has_key b x r.permissions ≡ false
    → pointer_permissions (set_permissions r b e p).permissions x ≡ first_perm r.permissions
unfolding set_permissions
set_permissions_tail_reset r b e p x h0 hb hx hm m none_inside =
    rw
      (updated_permissions-head_out b e p r.permissions hb (omega arith)
        (IsPermissionMap-IsSorted _ m))
      (updated-lost b e p x hb hx hm r.permissions h0 m none_inside)
