-- ===== src/Prelude/Maps.antt =====
-- Maps from numbers, as lists of entries with different keys.
use Prim.Native.Nat.{ℕ}
use mathlib.Core.Path.{◌≡◌, refl, sym, ap, ◌∙◌}
use mathlib.Core.Logic.{inl, inr}
use mathlib.Core.Bool.{true}
use mathlib.Core.List.{List, [], ◌∷◌, ◌++◌}
use mathlib.Core.Option.{Option, none, some}
use native.Mathlib.Omega.{arith}
use faasm.Prelude.Tests.{◌==◌, if◌then◌else◌, Bool-cases, Option-cases}

abbrev pub NumberMap {ℓ} : Type ℓ → Type ℓ
NumberMap V = List (ℕ × V)

module _ {ℓ} {V : Type ℓ} where
  unfoldable pub find : ℕ → NumberMap V → Option V
  find k [] = none
  find k ((a, b) ∷ m) = if a == k then some b else find k m

  -- `insert`, which keeps an entry that is there.
  abbrev insert_new : ℕ → V → NumberMap V → Option V → NumberMap V
  insert_new k v m none = m ++ (k, v) ∷ []
  insert_new k v m (some old) = m

  unfoldable pub insert : ℕ → V → NumberMap V → NumberMap V
  unfolding find
  insert k v m = insert_new k v m (find k m)

  -- The value at a key that is there, or a new entry at the end.
  unfoldable pub put : ℕ → V → NumberMap V → NumberMap V
  put k v [] = (k, v) ∷ []
  put k v ((a, b) ∷ m) = if a == k then (a, v) ∷ m else (a, b) ∷ put k v m

  unfoldable pub erase : ℕ → NumberMap V → NumberMap V
  erase k [] = []
  erase k ((a, b) ∷ m) = if a == k then erase k m else (a, b) ∷ erase k m

  abbrev pub or_else : Option V → Option V → Option V
  or_else none o = o
  or_else (some v) o = some v

  find-append : (k : ℕ) (m l : NumberMap V) → find k (m ++ l) ≡ or_else (find k m) (find k l)
  unfolding find
  find-append k [] l = refl
  find-append k ((a, b) ∷ m) l = elim (Bool-cases (a == k)) [
    | inl e ↦ rw e refl
    | inr e ↦ rw e (find-append k m l)
  ]

  pub find-insert :
      (k j : ℕ) (v : V) (m : NumberMap V)
      → find k (insert j v m) ≡ or_else (find k m) (if j == k then some v else none)
  unfolding find insert
  find-insert k j v m = elim (Option-cases (find j m)) [
    | inl e ↦ rw e (find-append k m ((j, v) ∷ []))
    | inr (w, e) ↦ rw e (elim (Bool-cases (j == k)) [
      | inl t ↦
          let same : j ≡ k = ground arith in rw t (rw (ap (λ x. find x m) (sym same) ∙ e) refl)
      | inr t ↦ rw t (elim (Option-cases (find k m)) [ inl n ↦ rw n refl | inr (x, n) ↦ rw n refl ])
    ])
  ]

  pub find-put :
      (k j : ℕ) (v : V) (m : NumberMap V)
      → find k (put j v m) ≡ (if j == k then some v else find k m)
  unfolding find put
  find-put k j v [] = refl
  find-put k j v ((a, b) ∷ m) = ground (arith, find-put k j v m)

  pub find-erase :
      (k j : ℕ) (m : NumberMap V) → find k (erase j m) ≡ (if j == k then none else find k m)
  unfolding find erase
  find-erase k j [] = elim (Bool-cases (j == k)) [ inl e ↦ rw e refl | inr e ↦ rw e refl ]
  find-erase k j ((a, b) ∷ m) = ground (arith, find-erase k j m)

  -- A map in which nothing is found is empty.
  pub nothing_found : (m : NumberMap V) → ((k : ℕ) → find k m ≡ none) → m ≡ []
  unfolding find
  nothing_found [] h = refl
  nothing_found ((a, b) ∷ m) h =
      let e : (a == a) ≡ true = ground arith in
      let bad : some b ≡ none = sym (ap (λ t. if t then some b else find a m) e) ∙ h a in cc
