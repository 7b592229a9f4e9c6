-- ===== src/OpenMp/TripCount.antt =====
-- The trip count of `for_static_init` in src/wavm/openmp.cpp.
use native.Mathlib.Nat.{div-le_self, mul-le-mul_right}
use faasm.Prelude.{
  ℕ, ◌+◌, ◌-◌, ◌*◌, ◌/◌, ◌%◌, ◌^◌, ◌≤◌, ◌<◌, ◌≡◌, refl, ◌==◌, arith, Bool-cases, inl, inr, ◌↔◌, ◌≢◌,
  sym, ap, ◌∙◌, Bool, true, leb, if◌then◌else◌,
}
use faasm.Prelude.Words.{sub, div_signed, is_positive}
use faasm.OpenMp.StaticInit.{trip_count}

quotient_bounds : (d i : ℕ) → 0 < i → (d / i * i ≤ d) × (d < (d / i + 1) * i)
quotient_bounds d i h = (grind arith, grind arith)

trip_count-up :
    (lower upper incr : ℕ)
    → 0 < incr
    → incr < 2 ^ 31
    → sub upper lower < 2 ^ 31
    → trip_count lower upper incr ≡ sub upper lower / incr + 1
unfolding trip_count div_signed
trip_count-up lower upper incr hi hw hd = elim (Bool-cases (incr == 1)) [
  | inl e ↦ let one : incr ≡ 1 = ground arith in rw one (ground arith)
  | inr e ↦
      let small = quotient_bounds (sub upper lower) incr hi in
      let le = div-le_self (sub upper lower) incr in ground arith
]

trip_count-down :
    (lower upper incr : ℕ)
    → 0 < incr
    → incr < 2 ^ 31
    → sub upper lower < 2 ^ 31
    → trip_count upper lower (2 ^ 32 - incr) ≡ sub upper lower / incr + 1
unfolding trip_count div_signed
trip_count-down lower upper incr hi hw hd = elim (Bool-cases (incr == 1)) [
  | inl e ↦ let one : incr ≡ 1 = ground arith in rw one (ground arith)
  | inr e ↦
      let le = div-le_self (sub upper lower) incr in
      let back : (2 ^ 32 - (2 ^ 32 - incr)) % 2 ^ 32 ≡ incr = omega arith in ground arith
]

-- Where the bounds are less than 2^31 apart, the trip count is the number of iterations from the
-- lower bound that do not pass the upper one, and it is the same for the loop that runs the other
-- way.
pub trip_count_exact :
    (lower upper incr : ℕ)
    → 0 < incr
    → incr < 2 ^ 31
    → sub upper lower < 2 ^ 31
    → (0 < trip_count lower upper incr)
      × ((trip_count lower upper incr - 1) * incr ≤ sub upper lower)
      × (sub upper lower < trip_count lower upper incr * incr)
      × (trip_count upper lower (2 ^ 32 - incr) ≡ trip_count lower upper incr)
trip_count_exact lower upper incr hi hw hd =
    let d = sub upper lower in
    let (under, over) = quotient_bounds d incr hi in
    let up = trip_count-up lower upper incr hi hw hd in
    let down = trip_count-down lower upper incr hi hw hd in
    let last : d / incr + 1 - 1 ≡ d / incr = omega arith in
    (rw up (omega arith), rw (up, last) under, rw up over, rw (up, down) refl)

-- A signed word by its order, and whether the loop from `lower` to `upper` has an iteration `k`: the
-- variable, with nothing wrapped, has not passed the last bound.
abbrev pub ordered : ℕ → ℕ
ordered x = (x + 2 ^ 31) % 2 ^ 32

unfoldable pub in_loop : ℕ → ℕ → ℕ → ℕ → Bool
in_loop lower upper incr k =
    if is_positive incr
    then leb (ordered lower + k * incr) (ordered upper)
    else leb (ordered upper + k * (2 ^ 32 - incr)) (ordered lower)

-- How far apart the bounds are, in the direction of the loop.
unfoldable pub span_of : ℕ → ℕ → ℕ → ℕ
span_of lower upper incr = if is_positive incr then sub upper lower else sub lower upper

steps_within : (d i k : ℕ) → 0 < i → (k * i ≤ d) ↔ (k < d / i + 1)
steps_within d i k h =
    let (under, over) = quotient_bounds d i h in
    elim (Bool-cases (leb k (d / i))) [
      | inl e ↦
          let q : k ≤ d / i = ground arith in
          let less : k * i ≤ d / i * i = mul-le-mul_right i q in
          let within : k * i ≤ d = omega arith in
          let counted : k < d / i + 1 = omega arith in ((λ p. counted), (λ p. within))
      | inr e ↦
          let q : d / i + 1 ≤ k = ground arith in
          let more : (d / i + 1) * i ≤ k * i = mul-le-mul_right i q in
          ((λ p. absurd (omega arith)), (λ p. absurd (omega arith)))
    ]

leb_shifted : (a d x y : ℕ) → a + d ≡ y → (leb (a + x) y ≡ true) ↔ (x ≤ d)
leb_shifted a d x y h = ((λ p. ground arith), (λ p. ground arith))

-- The distance of two bounds in their order is what the words give.
ordered-sub :
    (lower upper : ℕ)
    → lower < 2 ^ 32
    → upper < 2 ^ 32
    → leb (ordered lower + 0) (ordered upper) ≡ true
    → ordered lower + sub upper lower ≡ ordered upper
ordered-sub lower upper hl hu h =
    let le : ordered lower ≤ ordered upper = ground arith in omega arith

both : {P Q R : Type 0} → P ↔ Q → Q ↔ R → P ↔ R
both f g = ((λ p. g.0 (f.0 p)), (λ r. f.1 (g.1 r)))

in_loop_up :
    (lower upper incr k : ℕ)
    → lower < 2 ^ 32
    → upper < 2 ^ 32
    → 0 < incr
    → incr < 2 ^ 31
    → sub upper lower < 2 ^ 31
    → leb (ordered lower + 0) (ordered upper) ≡ true
    → (leb (ordered lower + k * incr) (ordered upper) ≡ true) ↔ (k < sub upper lower / incr + 1)
in_loop_up lower upper incr k hl hu hi hw hd h =
    both
      (leb_shifted (ordered lower) (sub upper lower) (k * incr) (ordered upper)
        (ordered-sub lower upper hl hu h))
      (steps_within (sub upper lower) incr k hi)

-- The trip count of the words is the number of iterations of the loop, for signed bounds less than
-- 2^31 apart with at least one iteration between them, and an increment that is neither 0 nor -2^31.
pub trip_count-in_loop :
    (lower upper incr k : ℕ)
    → lower < 2 ^ 32
    → upper < 2 ^ 32
    → 0 < incr
    → incr < 2 ^ 32
    → incr ≢ 2 ^ 31
    → span_of lower upper incr < 2 ^ 31
    → in_loop lower upper incr 0 ≡ true
    → (in_loop lower upper incr k ≡ true) ↔ (k < trip_count lower upper incr)
unfolding in_loop span_of
trip_count-in_loop lower upper incr k hl hu hi hw hn hd h = elim (Bool-cases (is_positive incr)) [
  | inl e ↦
      let small : incr < 2 ^ 31 = ground arith in
      let near : sub upper lower < 2 ^ 31 = rw e at hd in
      let none_yet : 0 * incr ≡ 0 = omega arith in
      let at_first : leb (ordered lower + 0 * incr) (ordered upper) ≡ true = rw e at h in
      let first : leb (ordered lower + 0) (ordered upper) ≡ true =
        sym (ap (λ x. leb (ordered lower + x) (ordered upper)) none_yet) ∙ at_first in
      let count = trip_count-up lower upper incr hi small near in
      rw (e, count) (in_loop_up lower upper incr k hl hu hi small near first)
  | inr e ↦
      let i = 2 ^ 32 - incr in
      let small : i < 2 ^ 31 = ground arith in
      let positive : 0 < i = omega arith in
      let same : 2 ^ 32 - i ≡ incr = omega arith in
      let near : sub lower upper < 2 ^ 31 = rw e at hd in
      let none_yet : 0 * (2 ^ 32 - incr) ≡ 0 = omega arith in
      let at_first : leb (ordered upper + 0 * (2 ^ 32 - incr)) (ordered lower) ≡ true = rw e at h in
      let first : leb (ordered upper + 0) (ordered lower) ≡ true =
        sym (ap (λ x. leb (ordered upper + x) (ordered lower)) none_yet) ∙ at_first in
      let count : trip_count lower upper incr ≡ sub lower upper / i + 1 =
        ap (trip_count lower upper) (sym same)
        ∙ trip_count-down upper lower i positive small near in
      rw (e, count) (in_loop_up upper lower i k hu hl positive small near first)
]
