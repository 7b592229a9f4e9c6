-- ===== src/Uffd/Build.antt =====
-- The list that an update of the permissions builds, entry by entry, with no loop variables.
use mathlib.Core.List.{append-nil, append_assoc}
use faasm.Prelude.{
  ℕ, ◌+◌, ◌≤◌, ◌<◌, ◌≡◌, refl, ◌∙◌, Bool, true, false, not, ◌||◌, Option, none, some, [], ◌∷◌, ◌++◌,
  ltb, ◌==◌, if◌then◌else◌, All, arith, Bool-cases, inl, inr,
}
use faasm.Uffd.{
  Perms, emplace, same_perm, Scan, entry_step, scan_loop, first_perm, finish, updated_permissions,
  uintptr_max,
}

-- The keys ascend, all at least `low`, and the last one is `uintptr_max`.
abbrev pub IsSorted : ℕ → Perms → Type 0
IsSorted low [] = low ≡ uintptr_max + 1
IsSorted low ((k, q) ∷ l) = (low ≤ k) × (k ≤ uintptr_max) × IsSorted (k + 1) l

abbrev pub KeysBelow : ℕ → Perms → Type 0
KeysBelow a = All (λ e. e.0 < a)

KeysBelow-mono : (a b : ℕ) (l : Perms) → a ≤ b → KeysBelow a l → KeysBelow b l
KeysBelow-mono a b [] h v = tt
KeysBelow-mono a b ((k, q) ∷ l) h v = (omega arith, KeysBelow-mono a b l h v.1)

KeysBelow-snoc : (a k q : ℕ) (l : Perms) → k < a → KeysBelow k l → KeysBelow a (l ++ (k, q) ∷ [])
KeysBelow-snoc a k q [] h v = (h, tt)
KeysBelow-snoc a k q ((k', q') ∷ l) h v = (omega arith, KeysBelow-snoc a k q l h v.1)

emplace-above : (a p : ℕ) (l : Perms) → KeysBelow a l → emplace a p l ≡ l ++ (a, p) ∷ []
unfolding emplace
emplace-above a p [] v = refl
emplace-above a p ((k, q) ∷ l) v = ground (arith, emplace-above a p l v.1)

-- Of the entries from the end of the range on, those that repeat the permission before go.
unfoldable pub tail_out : Option ℕ → Perms → Perms
tail_out last [] = []
tail_out last ((k, q) ∷ l) =
    let rest = tail_out (some q) l in
    if not (same_perm last q) || k == uintptr_max then (k, q) ∷ rest else rest

abbrev state : Perms → Option ℕ → ℕ → Bool → Bool → Scan
state n last ep needs begun = record {
  permissions = n;
  last_perm = last;
  end_perm = ep;
  needs_end = needs;
  begin_done = begun;
}

-- Whether the loop keeps an entry outside the range.
abbrev pub kept : Option ℕ → ℕ → ℕ → Bool
kept last k q = not (same_perm last q) || k == uintptr_max

module _ (b e p : ℕ) where
  step-tail :
      (n : Perms) (last : Option ℕ) (ep : ℕ) (needs : Bool) (k q : ℕ)
      → e < k
      → entry_step b e p (state n last ep needs true) (k, q)
        ≡ state (if kept last k q then emplace k q n else n) (some q) ep needs true
  unfolding entry_step
  step-tail n last ep needs k q h = ground arith

  loop-tail :
      (n : Perms) (last : Option ℕ) (ep : ℕ) (needs : Bool) (low : ℕ) (l : Perms)
      → e < low
      → KeysBelow low n
      → IsSorted low l
      → finish e (scan_loop b e p (state n last ep needs true) l)
        ≡ (if needs then emplace e ep (n ++ tail_out last l) else n ++ tail_out last l)
  unfolding scan_loop tail_out
  loop-tail n last ep needs low [] h v s = simp append-nil (unfold finish in refl)
  loop-tail n last ep needs low ((k, q) ∷ l) h v s =
      rw (step-tail n last ep needs k q (omega arith)) (elim (Bool-cases (kept last k q)) [
        | inl keep ↦
            rw (keep, emplace-above k q n (KeysBelow-mono low k n s.0 v))
              (loop-tail (n ++ (k, q) ∷ []) (some q) ep needs (k + 1) l (omega arith)
                  (KeysBelow-snoc (k + 1) k q n (omega arith) (KeysBelow-mono low k n s.0 v)) s.2
                ∙ rw append_assoc refl)
        | inr drop ↦ rw drop (
            loop-tail n (some q) ep needs (k + 1) l (omega arith)
              (KeysBelow-mono low (k + 1) n (omega arith) v) s.2)
      ])

KeysAbove : ℕ → Perms → Type 0
KeysAbove a = All (λ e. a < e.0)

tail_out-KeysAbove :
    (e : ℕ) (last : Option ℕ) (low : ℕ) (l : Perms)
    → e < low
    → IsSorted low l
    → KeysAbove e (tail_out last l)
unfolding tail_out KeysAbove
tail_out-KeysAbove e last low [] h s = tt
tail_out-KeysAbove e last low ((k, q) ∷ l) h s =
    let rest = tail_out-KeysAbove e (some q) (k + 1) l (omega arith) s.2 in
    elim (Bool-cases (kept last k q)) [
      | inl keep ↦ rw keep (omega arith, rest)
      | inr drop ↦ rw drop rest
    ]

emplace-between :
    (a p : ℕ) (n m : Perms) → KeysBelow a n → KeysAbove a m → emplace a p (n ++ m) ≡ n ++ (a, p) ∷ m
unfolding emplace KeysAbove
emplace-between a p [] [] v w = refl
emplace-between a p [] ((k, q) ∷ m) v w = ground arith
emplace-between a p ((k, q) ∷ n) m v w = ground (arith, emplace-between a p n m v.1 w)

-- The entries inside the range go; its end gets one, unless there is an entry at the end.
unfoldable pub mid_out : ℕ → Option ℕ → ℕ → Perms → Perms
mid_out e last ep [] = []
mid_out e last ep ((k, q) ∷ l) =
    let inside = mid_out e (some q) q l in
    if ltb k e
    then inside
    else if k == e
    then tail_out last ((k, q) ∷ l)
    else (e, ep) ∷ tail_out last ((k, q) ∷ l)

module _ (b e p : ℕ) where
  step-inside :
      (n : Perms) (last : Option ℕ) (ep k q : ℕ)
      → b ≤ k
      → k < e
      → entry_step b e p (state n last ep true true) (k, q) ≡ state n (some q) q true true
  unfolding entry_step
  step-inside n last ep k q hb he = ground arith

  step-end :
      (n : Perms) (last : Option ℕ) (ep k q : ℕ)
      → k ≡ e
      → entry_step b e p (state n last ep true true) (k, q)
        ≡ state (if kept last k q then emplace k q n else n) (some q) ep false true
  unfolding entry_step
  step-end n last ep k q h = ground arith

  loop-end :
      (n : Perms) (last : Option ℕ) (ep k q : ℕ) (l : Perms)
      → k ≡ e
      → KeysBelow e n
      → IsSorted k ((k, q) ∷ l)
      → finish e (scan_loop b e p (state n last ep true true) ((k, q) ∷ l))
        ≡ n ++ tail_out last ((k, q) ∷ l)
  unfolding scan_loop tail_out
  loop-end n last ep k q l h v s =
      rw (step-end n last ep k q h) (elim (Bool-cases (kept last k q)) [
        | inl keep ↦
            rw (keep, emplace-above k q n (KeysBelow-mono e k n (omega arith) v))
              (loop-tail b e p (n ++ (k, q) ∷ []) (some q) ep false (k + 1) l (omega arith)
                  (KeysBelow-snoc (k + 1) k q n (omega arith)
                    (KeysBelow-mono e k n (omega arith) v))
                  s.2
                ∙ rw append_assoc refl)
        | inr drop ↦ rw drop (
            loop-tail b e p n (some q) ep false (k + 1) l (omega arith)
              (KeysBelow-mono e (k + 1) n (omega arith) v) s.2)
      ])

  loop-mid :
      (n : Perms) (last : Option ℕ) (ep low : ℕ) (l : Perms)
      → e ≤ uintptr_max
      → low ≤ uintptr_max
      → b ≤ low
      → KeysBelow e n
      → IsSorted low l
      → finish e (scan_loop b e p (state n last ep true true) l) ≡ n ++ mid_out e last ep l
  unfolding scan_loop mid_out
  loop-mid n last ep low [] hm hl hb v s = absurd (omega arith)
  loop-mid n last ep low ((k, q) ∷ l) hm hl hb v s = elim (Bool-cases (ltb k e)) [
    | inl inside ↦
        rw (inside, step-inside n last ep k q (omega arith) (ground arith))
          (loop-mid n (some q) q (k + 1) l hm (ground arith) (omega arith) v s.2)
    | inr outside ↦ elim (Bool-cases (k == e)) [
      | inl at ↦
          rw (outside, at) (loop-end n last ep k q l (ground arith) v (omega arith, s.1, s.2))
      | inr after ↦
          let above : e < k = ground arith in
          rw (outside, after)
            (loop-tail b e p n last ep true k ((k, q) ∷ l) above
                (KeysBelow-mono e k n (omega arith) v) (omega arith, s.1, s.2)
              ∙ emplace-between e ep n (tail_out last ((k, q) ∷ l)) v
                  (tail_out-KeysAbove e last k ((k, q) ∷ l) above (omega arith, s.1, s.2)))
    ]
  ]

-- The whole list: the entries below the range, its begin, and the rest.
unfoldable pub head_out : ℕ → ℕ → ℕ → Option ℕ → ℕ → Perms → Perms
head_out b e p last ep [] = []
head_out b e p last ep ((k, q) ∷ l) =
    let rest = head_out b e p (some q) ep l in
    let mid = mid_out e last ep ((k, q) ∷ l) in
    if ltb k b
    then if same_perm last q then rest else (k, q) ∷ rest
    else if same_perm last p
    then mid
    else (b, p) ∷ mid

module _ (b e p : ℕ) where
  step-below :
      (n : Perms) (last : Option ℕ) (ep k q : ℕ)
      → k < b
      → b < e
      → e ≤ uintptr_max
      → entry_step b e p (state n last ep true false) (k, q)
        ≡ state (if same_perm last q then n else emplace k q n) (some q) ep true false
  unfolding entry_step
  step-below n last ep k q h hb he = ground arith

  step-begin :
      (n : Perms) (last : Option ℕ) (ep k q : ℕ)
      → b ≤ k
      → entry_step b e p (state n last ep true false) (k, q)
        ≡ entry_step b e p
            (state (if same_perm last p then n else emplace b p n) last ep true true)
            (k, q)
  unfolding entry_step
  step-begin n last ep k q h = ground arith

  loop-head :
      (n : Perms) (last : Option ℕ) (ep low : ℕ) (l : Perms)
      → b < e
      → e ≤ uintptr_max
      → low ≤ b
      → KeysBelow low n
      → IsSorted low l
      → finish e (scan_loop b e p (state n last ep true false) l) ≡ n ++ head_out b e p last ep l
  unfolding scan_loop head_out
  loop-head n last ep low [] hb he hl v s = absurd (omega arith)
  loop-head n last ep low ((k, q) ∷ l) hb he hl v s = elim (Bool-cases (ltb k b)) [
    | inl below ↦
        rw (below, step-below n last ep k q (ground arith) hb he)
          (elim (Bool-cases (same_perm last q)) [
            | inl drop ↦ rw drop (
                loop-head n (some q) ep (k + 1) l hb he (ground arith)
                  (KeysBelow-mono low (k + 1) n (omega arith) v) s.2)
            | inr keep ↦
                rw (keep, emplace-above k q n (KeysBelow-mono low k n s.0 v))
                  (loop-head (n ++ (k, q) ∷ []) (some q) ep (k + 1) l hb he (ground arith)
                      (KeysBelow-snoc (k + 1) k q n (omega arith) (KeysBelow-mono low k n s.0 v))
                      s.2
                    ∙ rw append_assoc refl)
          ])
    | inr reached ↦
        let hk : b ≤ k = ground arith in
        let sorted : IsSorted k ((k, q) ∷ l) = (omega arith, s.1, s.2) in
        rw (reached, step-begin n last ep k q hk)
          (elim (Bool-cases (same_perm last p)) [
            | inl same ↦ rw same (
                loop-mid b e p n last ep k ((k, q) ∷ l) he s.1 hk
                  (KeysBelow-mono low e n (omega arith) v) sorted)
            | inr other ↦
                rw (other, emplace-above b p n (KeysBelow-mono low b n hl v))
                  (loop-mid b e p (n ++ (b, p) ∷ []) last ep k ((k, q) ∷ l) he s.1 hk
                      (KeysBelow-snoc e b p n hb (KeysBelow-mono low b n hl v)) sorted
                    ∙ rw append_assoc refl)
          ])
  ]

-- The loop of `setPermissions` builds that list.
pub updated_permissions-head_out :
    (b e p : ℕ) (l : Perms)
    → b < e
    → e ≤ uintptr_max
    → IsSorted 0 l
    → updated_permissions b e p l ≡ head_out b e p none (first_perm l) l
unfolding updated_permissions
updated_permissions-head_out b e p l hb he s =
    loop-head b e p [] none (first_perm l) 0 l hb he (omega arith) tt s
