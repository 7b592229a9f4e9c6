-- ===== src/Prelude/Bits.antt =====
-- Sets of flags in a native number: `bit_and` read as a recursion that halves both numbers.
use Prim.Native.Nat.{ℕ, zero, suc, ◌+◌, ◌*◌, ◌/◌, ◌%◌, ◌≤◌, min, bit_and, digits, bit_and-bitwise}
use mathlib.Core.Path.{◌≡◌, refl, sym, ap, ◌∙◌}
use native.Mathlib.Omega.{arith}

-- The common flags among the lowest `n`.
unfoldable common : ℕ → ℕ → ℕ → ℕ
common zero x y = 0
common (suc n) x y = common n (x / 2) (y / 2) * 2 + min (x % 2) (y % 2)

common-zero : (n y : ℕ) → common n 0 y ≡ 0
unfolding common
common-zero zero y = refl
common-zero (suc n) y = omega (arith, common-zero n (y / 2))

digits-common : (fuel n x y : ℕ) → x ≤ fuel → x ≤ n → digits (λ _. zero) min fuel x y ≡ common n x y
unfolding common
digits-common fuel zero x y h h' = let none_set : x ≡ 0 = omega arith in no_digits fuel x y none_set
  where
    no_digits : (f x y : ℕ) → x ≡ 0 → digits (λ _. zero) min f x y ≡ 0
    no_digits zero x y e = refl
    no_digits (suc f) zero y e = refl
    no_digits (suc f) (suc x) y e = absurd (omega arith)
digits-common zero (suc n) zero y h h' = sym (common-zero (suc n) y)
digits-common zero (suc n) (suc x) y h h' = absurd (omega arith)
digits-common (suc fuel) (suc n) zero y h h' = sym (common-zero (suc n) y)
digits-common (suc fuel) (suc n) (suc x) y h h' =
    ap (λ t. t * 2 + min (suc x % 2) (y % 2))
      (digits-common fuel n (suc x / 2) (y / 2) (omega arith) (omega arith))

bit_and-common : (n x y : ℕ) → x ≤ n → bit_and x y ≡ common n x y
bit_and-common n x y h = bit_and-bitwise x y ∙ digits-common x n x y (omega arith) h

common-le : (n x y : ℕ) → common n x y ≤ x
unfolding common
common-le zero x y = omega arith
common-le (suc n) x y = omega (arith, common-le n (x / 2) (y / 2))

common_again : (n x y : ℕ) → common n (common n x y) y ≡ common n x y
unfolding common
common_again zero x y = refl
common_again (suc n) x y =
    let half : common (suc n) x y / 2 ≡ common n (x / 2) (y / 2) = omega arith in
    let low : common (suc n) x y % 2 ≡ min (x % 2) (y % 2) = omega arith in
    omega (arith, ap (λ t. common n t (y / 2)) half, common_again n (x / 2) (y / 2), low)

-- Every flag of the first number is one of the second.
infix 50 ◌⊑◌
abbrev pub ◌⊑◌ : ℕ → ℕ → Type 0
x ⊑ y = bit_and x y ≡ x

pub bit_and-⊑ : (x y : ℕ) → bit_and x y ⊑ y
bit_and-⊑ x y =
    let e = bit_and-common x x y (omega arith) in
    ap (λ t. bit_and t y) e
    ∙ bit_and-common x (common x x y) y (common-le x x y)
    ∙ common_again x x y
    ∙ sym e

common_of_common-le : (n x y z : ℕ) → common n (common n x y) z ≤ common n y z
unfolding common
common_of_common-le zero x y z = omega arith
common_of_common-le (suc n) x y z =
    let half : common (suc n) x y / 2 ≡ common n (x / 2) (y / 2) = omega arith in
    let low : common (suc n) x y % 2 ≡ min (x % 2) (y % 2) = omega arith in
    omega
      (arith, ap (λ t. common n t (z / 2)) half, common_of_common-le n (x / 2) (y / 2) (z / 2), low)

-- What a restricted set has in common with a mask, the restriction has.
pub bit_and_of_bit_and-le : (x y z : ℕ) → bit_and (bit_and x y) z ≤ bit_and y z
bit_and_of_bit_and-le x y z =
    let n = x + y in
    let e = bit_and-common n x y (omega arith) in
    let e' = bit_and-common n (common n x y) z (omega (arith, common-le n x y)) in
    omega (
      arith,
      ap (λ t. bit_and t z) e,
      e',
      common_of_common-le n x y z,
      bit_and-common n y z (omega arith),
    )
