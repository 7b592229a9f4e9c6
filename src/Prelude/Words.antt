-- ===== src/Prelude/Words.antt =====
-- Machine words of 32 bits as the numbers below 2^32; a signed one is its two's complement.
use Prim.Native.Nat.{ℕ, ◌+◌, ◌-◌, ◌*◌, ◌/◌, ◌%◌, ◌^◌}
use mathlib.Core.Bool.{Bool, ◌&&◌}
use faasm.Prelude.Tests.{ltb, if◌then◌else◌}

abbrev pub add : ℕ → ℕ → ℕ
add a b = (a + b) % 2 ^ 32

abbrev pub sub : ℕ → ℕ → ℕ
sub a b = (a + (2 ^ 32 - b)) % 2 ^ 32

abbrev pub mul : ℕ → ℕ → ℕ
mul a b = a * b % 2 ^ 32

abbrev pub neg : ℕ → ℕ
neg a = (2 ^ 32 - a) % 2 ^ 32

-- The signed word is at least 0, and above 0.
abbrev pub is_non_negative : ℕ → Bool
is_non_negative a = ltb a (2 ^ 31)

abbrev pub is_positive : ℕ → Bool
is_positive a = ltb 0 a && ltb a (2 ^ 31)

abbrev pub magnitude : ℕ → ℕ
magnitude a = if is_non_negative a then a else 2 ^ 32 - a

-- The signed quotient, rounded to 0.
unfoldable pub div_signed : ℕ → ℕ → ℕ
div_signed a b =
    let q = magnitude a / magnitude b in
    if is_non_negative a
    then if is_non_negative b then q else neg q
    else if is_non_negative b
    then neg q
    else q % 2 ^ 32

abbrev pub signed_less : ℕ → ℕ → Bool
signed_less a b = ltb ((a + 2 ^ 31) % 2 ^ 32) ((b + 2 ^ 31) % 2 ^ 32)
