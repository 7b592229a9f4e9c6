-- ===== src/OpenMp/Chunked.antt =====
-- The schedule `sch_static_chunked` of `for_static_init` in src/wavm/openmp.cpp.
use native.Mathlib.Nat.{add-mul-mod_self_right, mod-add-div'}
use faasm.Prelude.{
  ℕ, zero, suc, ◌+◌, ◌-◌, ◌*◌, ◌/◌, ◌%◌, ◌^◌, ◌<◌, ◌≡◌, sym, ap, ◌∙◌, ok, if◌then◌else◌, arith,
}
use faasm.Prelude.Words.{add, sub, mul, signed_less}
use faasm.OpenMp.StaticInit.{Bounds, trip_count, static_chunked, for_static_init}

mul_mod_word : (x t : ℕ) → x % 2 ^ 32 * t % 2 ^ 32 ≡ x * t % 2 ^ 32
mul_mod_word x t =
    sym (
      ap (λ z. z % 2 ^ 32) split
      ∙ add-mul-mod_self_right (x % 2 ^ 32 * t) (x / 2 ^ 32 * t) (2 ^ 32))
  where
    split : x * t ≡ x % 2 ^ 32 * t + x / 2 ^ 32 * t * 2 ^ 32
    split = let e = mod-add-div' x (2 ^ 32) in ap (λ z. z * t) (sym e) ∙ grind arith

chunk_word : (l c i t : ℕ) → add l (mul (mul c i) t) ≡ (l + i * (c * t)) % 2 ^ 32
chunk_word l c i t =
    let e = mul_mod_word (c * i) t in let f : c * i * t ≡ i * (c * t) = grind arith in omega arith

chunk_offset :
    (l c i t n k : ℕ)
    → (add l (mul (mul c i) t) + k * mul (mul c i) n) % 2 ^ 32
      ≡ (l + i * (c * (k * n + t))) % 2 ^ 32
chunk_offset l c i t n k =
    let a = mul_mod_word (c * i) n in
    let b = mul_mod_word (c * i * n) k in
    let e : k * (c * i * n % 2 ^ 32) ≡ c * i * n % 2 ^ 32 * k = grind arith in
    let f : i * (c * t) + c * i * n * k ≡ i * (c * (k * n + t)) = grind arith in
    rw (a, chunk_word l c i t) (omega (arith, b, e, f))

chunk_end : (l c i : ℕ) → 0 < c → i < 2 ^ 32 → sub (add l (mul c i)) i ≡ (l + i * (c - 1)) % 2 ^ 32
chunk_end l zero i h hi = absurd (omega arith)
chunk_end l (suc c) i h hi =
    let e : suc c * i ≡ i * (suc c - 1) + i = grind arith in omega (arith, e)

-- `sch_static_chunked` at 32 bits, with more than one thread and chunks of `chunk` iterations: `k`
-- strides from the lower bound that thread `t` gets stands iteration `chunk * (k * n + t)` of the
-- loop, and the upper bound is `chunk - 1` iterations after the lower one.
pub for_static_init_chunked :
    (n t k : ℕ) (b : Bounds) (incr chunk : ℕ)
    → 1 < n
    → 0 < incr
    → incr < 2 ^ 32
    → 0 < chunk
    → chunk < 2 ^ 31
    → (r : Bounds) × (for_static_init n t 33 b incr chunk ≡ ok r)
      × ((r.lower + k * r.stride) % 2 ^ 32 ≡ (b.lower + incr * (chunk * (k * n + t))) % 2 ^ 32)
      × (r.upper ≡ (r.lower + incr * (chunk - 1)) % 2 ^ 32)
for_static_init_chunked n t k b incr chunk hn hi hw hc hb = (
  static_chunked n t (trip_count b.lower b.upper incr) b.lower incr chunk,
  unfold for_static_init in ground arith,
  unfold static_chunked in rw kept (chunk_offset b.lower chunk incr t n k),
  unfold static_chunked in
      rw kept (chunk_end (add b.lower (mul (mul chunk incr) t)) chunk incr hc hw),
)
  where
    kept : (if signed_less chunk 1 then 1 else chunk) ≡ chunk
    kept = ground arith
