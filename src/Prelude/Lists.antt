-- ===== src/Prelude/Lists.antt =====
-- Lists measured by native numbers, under the library's names.
use Prim.Native.Nat.{ℕ, zero, suc, ◌+◌}
use mathlib.Core.Path.{◌≡◌, refl}
use mathlib.Core.List.{List, [], ◌∷◌, ◌++◌}
use mathlib.Core.Option.{Option, none, some}
use mathlib.Core.Bool.{false}
use native.Mathlib.Omega.{arith}
use faasm.Prelude.Tests.{◌==◌}

module _ {ℓ} {A : Type ℓ} where
  abbrev pub length : List A → ℕ
  length [] = 0
  length (x ∷ xs) = suc (length xs)

  abbrev pub get_elem? : List A → ℕ → Option A
  get_elem? [] i = none
  get_elem? (x ∷ xs) zero = some x
  get_elem? (x ∷ xs) (suc i) = get_elem? xs i

  abbrev pub All {κ} : (A → Type κ) → List A → Type κ
  All P [] = Unit
  All P (x ∷ xs) = P x × All P xs

  pub length-append : (xs ys : List A) → length (xs ++ ys) ≡ length xs + length ys
  length-append [] ys = omega arith
  length-append (x ∷ xs) ys = omega (arith, length-append xs ys)

-- Two texts without a separator are the same when the texts that they begin are, and so are the rests.
pub split_at :
    (s : ℕ) (a b x y : List ℕ)
    → All (λ c. (c == s) ≡ false) a
    → All (λ c. (c == s) ≡ false) b
    → a ++ s ∷ x ≡ b ++ s ∷ y
    → (a ≡ b) × (x ≡ y)
split_at s [] [] x y ha hb e = (refl, cc)
split_at s [] (c ∷ b) x y ha hb e = let same : s ≡ c = cc in let d = hb.0 in absurd (ground arith)
split_at s (c ∷ a) [] x y ha hb e = let same : c ≡ s = cc in let d = ha.0 in absurd (ground arith)
split_at s (c ∷ a) (d ∷ b) x y ha hb e =
    let head : c ≡ d = cc in
    let tail : a ++ s ∷ x ≡ b ++ s ∷ y = cc in
    let (l, r) = split_at s a b x y ha.1 hb.1 tail in (cc, r)
