-- ===== src/Uffd/Permissions.antt =====
-- What `setPermissions` does to the permissions of each address.
use faasm.Prelude.{
  ℕ, ◌+◌, ◌≤◌, ◌<◌, ◌≡◌, refl, ap, ◌∙◌, ◌≢◌, ◌⊎◌, inl, inr, Bool, true, false, ◌&&◌, ◌||◌, Option,
  some, [], ◌∷◌, ltb, leb, ◌==◌, arith, Bool-cases,
}
use faasm.Uffd.{Perms, permission_walk, uintptr_max}
use faasm.Uffd.Build.{IsSorted, kept, tail_out, mid_out, head_out}

-- Below the first key the walk answers with the permission before it.
walk-below :
    (prev low x : ℕ) (l : Perms)
    → IsSorted low l
    → low ≤ uintptr_max
    → x < low
    → permission_walk prev l x ≡ prev
unfolding permission_walk
walk-below prev low x [] s hl h = absurd (omega arith)
walk-below prev low x ((k, q) ∷ l) s hl h = ground arith

pub walk-below-tail_out :
    (prev : ℕ) (last : Option ℕ) (low x : ℕ) (l : Perms)
    → IsSorted low l
    → low ≤ uintptr_max
    → x < low
    → permission_walk prev (tail_out last l) x ≡ prev
unfolding permission_walk tail_out
walk-below-tail_out prev last low x [] s hl h = absurd (omega arith)
walk-below-tail_out prev last low x ((k, q) ∷ l) s hl h = elim (Bool-cases (kept last k q)) [
  | inl keep ↦ rw keep (ground arith)
  | inr drop ↦
      rw drop (walk-below-tail_out prev (some q) (k + 1) x l s.2 (ground arith) (omega arith))
]

-- Dropping entries that repeat the permission before changes nothing.
walk-tail_out :
    (r low x : ℕ) (l : Perms)
    → IsSorted low l
    → permission_walk r (tail_out (some r) l) x ≡ permission_walk r l x
unfolding permission_walk tail_out
walk-tail_out r low x [] s = refl
walk-tail_out r low x ((k, q) ∷ l) s = elim (Bool-cases (kept (some r) k q)) [
  | inl keep ↦ rw keep (ground (arith, walk-tail_out q (k + 1) x l s.2))
  | inr drop ↦ rw drop (
      ground
        (arith, walk-tail_out q (k + 1) x l s.2, walk-below-tail_out r (some q) (k + 1) x l s.2))
]

pub walk-inside :
    (prev e ep low x : ℕ) (last : Option ℕ) (l : Perms)
    → IsSorted low l
    → low ≤ uintptr_max
    → e ≤ uintptr_max
    → x < e
    → permission_walk prev (mid_out e last ep l) x ≡ prev
unfolding permission_walk mid_out
walk-inside prev e ep low x last [] s hl he h = absurd (omega arith)
walk-inside prev e ep low x last ((k, q) ∷ l) s hl he h = elim (Bool-cases (ltb k e)) [
  | inl inside ↦ rw inside (walk-inside prev e q (k + 1) x (some q) l s.2 (ground arith) he h)
  | inr outside ↦ elim (Bool-cases (k == e)) [
    | inl at ↦
        rw (outside, at)
          (walk-below-tail_out prev last k x ((k, q) ∷ l) (omega arith, s.1, s.2) s.1
            (ground arith))
    | inr after ↦ rw (outside, after) (ground arith)
  ]
]

-- Whether an entry stands in `lo`..`hi`, both included.
unfoldable pub has_key : ℕ → ℕ → Perms → Bool
has_key lo hi [] = false
has_key lo hi ((k, q) ∷ l) = (leb lo k && leb k hi) || has_key lo hi l

-- An entry at `e` changes the permission of the entry before it.
abbrev pub IsSharpAt : ℕ → Option ℕ → Perms → Type 0
IsSharpAt e last [] = Unit
IsSharpAt e last ((k, q) ∷ l) = (k ≡ e → last ≢ some q) × IsSharpAt e (some q) l

pub has_key-above : (b e low : ℕ) (l : Perms) → IsSorted low l → e < low → has_key b e l ≡ false
unfolding has_key
has_key-above b e low [] s h = refl
has_key-above b e low ((k, q) ∷ l) s h = ground (arith, has_key-above b e (k + 1) l s.2)

walk-at :
    (prev r k q x : ℕ) (l : Perms)
    → r ≢ q
    → k ≤ x
    → IsSorted (k + 1) l
    → permission_walk prev (tail_out (some r) ((k, q) ∷ l)) x ≡ permission_walk q l x
unfolding permission_walk tail_out
walk-at prev r k q x l ne h s = ground (arith, walk-tail_out q (k + 1) x l s)

pub walk-after :
    (b r e ep low x : ℕ) (l : Perms)
    → IsSorted low l
    → b ≤ low
    → low ≤ uintptr_max
    → e ≤ uintptr_max
    → e ≤ x
    → IsSharpAt e (some r) l
    → (has_key b e l ≡ true) ⊎ (r ≡ ep)
    → (prev : ℕ) → permission_walk prev (mid_out e (some r) ep l) x ≡ permission_walk r l x
unfolding permission_walk mid_out has_key
walk-after b r e ep low x [] s hb hl he h sharp known prev = absurd (omega arith)
walk-after b r e ep low x ((k, q) ∷ l) s hb hl he h sharp known prev = elim (Bool-cases (ltb k e)) [
  | inl inside ↦ rw inside (
      walk-after b q e q (k + 1) x l s.2 (omega arith) (ground arith) he h sharp.1 (inr refl) prev
      ∙ ground arith)
  | inr outside ↦ elim (Bool-cases (k == e)) [
    | inl at ↦
        rw (outside, at)
          (walk-at prev r k q x l (λ same. sharp.0 (ground arith) (ap some same)) (ground arith) s.2
            ∙ ground arith)
    | inr after ↦
        rw (outside, after)
          (ground (
            arith,
            has_key-above b e (k + 1) l s.2,
            walk-tail_out r k x ((k, q) ∷ l) (omega arith, s.1, s.2),
          ))
  ]
]

-- The permission of `x` after the update, by the three parts of the address space.
module _ (b e p x : ℕ) (hb : b < e) (he : e ≤ uintptr_max) where
  pub walk-before :
      (r ep low : ℕ) (l : Perms)
      → x < b
      → low ≤ b
      → IsSorted low l
      → permission_walk r (head_out b e p (some r) ep l) x ≡ permission_walk r l x
  unfolding permission_walk head_out
  walk-before r ep low [] h hl s = refl
  walk-before r ep low ((k, q) ∷ l) h hl s = elim (Bool-cases (ltb k b)) [
    | inl below ↦ rw below (
        ground
          (arith, walk-before q ep (k + 1) l h (ground arith) s.2, walk-below r (k + 1) x l s.2))
    | inr reached ↦
        rw reached
          (ground (arith, walk-inside r e ep k x (some r) ((k, q) ∷ l) (omega arith, s.1, s.2)))
  ]

  pub walk-set :
      (r ep low : ℕ) (l : Perms)
      → b ≤ x
      → x < e
      → low ≤ b
      → IsSorted low l
      → permission_walk r (head_out b e p (some r) ep l) x ≡ p
  unfolding permission_walk head_out
  walk-set r ep low [] h h' hl s = absurd (omega arith)
  walk-set r ep low ((k, q) ∷ l) h h' hl s =
      let sorted : IsSorted k ((k, q) ∷ l) = (omega arith, s.1, s.2) in
      elim (Bool-cases (ltb k b)) [
        | inl below ↦ rw below (ground (arith, walk-set q ep (k + 1) l h h' (ground arith) s.2))
        | inr reached ↦ rw reached (
            ground (
              arith,
              walk-inside r e ep k x (some r) ((k, q) ∷ l) sorted s.1 he h',
              walk-inside p e ep k x (some r) ((k, q) ∷ l) sorted s.1 he h',
            ))
      ]

  pub walk-rest :
      (r ep low : ℕ) (l : Perms)
      → e ≤ x
      → low ≤ b
      → IsSorted low l
      → IsSharpAt e (some r) l
      → (has_key b e l ≡ true) ⊎ (permission_walk r l b ≡ ep)
      → permission_walk r (head_out b e p (some r) ep l) x ≡ permission_walk r l x
  unfolding permission_walk head_out has_key
  walk-rest r ep low [] h hl s sharp known = refl
  walk-rest r ep low ((k, q) ∷ l) h hl s sharp known =
      let sorted : IsSorted k ((k, q) ∷ l) = (omega arith, s.1, s.2) in
      elim (Bool-cases (ltb k b)) [
        | inl below ↦
            rw below
              (ground (arith, walk-rest q ep (k + 1) l h (ground arith) s.2 sharp.1 (ground arith)))
        | inr reached ↦ rw reached (
            ground (
              arith,
              walk-after b r e ep k x ((k, q) ∷ l) sorted (ground arith) s.1 he h sharp
                  (ground arith) r,
              walk-after b r e ep k x ((k, q) ∷ l) sorted (ground arith) s.1 he h sharp
                  (ground arith) p,
            ))
      ]
