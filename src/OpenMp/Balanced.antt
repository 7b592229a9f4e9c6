-- ===== src/OpenMp/Balanced.antt =====
-- The schedule `sch_static` of `for_static_init` in src/wavm/openmp.cpp.
use native.Mathlib.Nat.{mul-le-mul_right}
use faasm.Prelude.{
  ℕ, ◌+◌, ◌-◌, ◌*◌, ◌/◌, ◌%◌, ◌^◌, ◌≤◌, ◌<◌, ◌≡◌, ◌↔◌, ◌≢◌, ap, ◌∙◌, zero, suc, true, ok, ltb,
  if◌then◌else◌, arith, Bool-cases, inl, inr,
}
use faasm.Prelude.Words.{add, sub, mul}
use faasm.OpenMp.TripCount.{in_loop, span_of, trip_count-in_loop}
use faasm.OpenMp.StaticInit.{Bounds, trip_count, static_balanced, for_static_init}

-- The first iteration of a thread, where `n` threads share `count` iterations evenly and the first
-- threads take one more each.
unfoldable pub first_iteration : ℕ → ℕ → ℕ → ℕ
first_iteration n count t = t * (count / n) + (if ltb t (count % n) then t else count % n)

first_iteration-suc :
    (n count t : ℕ)
    → first_iteration n count (t + 1)
      ≡ first_iteration n count t + count / n + (if ltb t (count % n) then 1 else 0)
unfolding first_iteration
first_iteration-suc n count t = ground (arith)

first_iteration-last : (n count : ℕ) → 0 < n → first_iteration n count n ≡ count
unfolding first_iteration
first_iteration-last n count h = grind arith

first_iteration_mono : (n count t : ℕ) → t ≤ n → 0 < n → first_iteration n count t ≤ count
unfolding first_iteration
first_iteration_mono n count t h hn = let p = mul-le-mul_right (count / n) h in grind arith

last_of_more : (a s c : ℕ) → a * (s + c + 1 - 1) ≡ a * s + c * a
last_of_more a s c = let h : s + c + 1 - 1 ≡ s + c = omega arith in rw h (grind arith)

last_of_fewer : (a s c : ℕ) → 0 < c → (a * (s + c + 0 - 1) + a ≡ a * s + c * a) × (a ≤ c * a)
last_of_fewer a s zero h = absurd (omega arith)
last_of_fewer a s (suc c) h =
    let e : s + suc c + 0 - 1 ≡ s + c = omega arith in (rw e (grind arith), grind arith)

word_chain :
    (a b c d : ℕ)
    → d ≤ c
    → d < 2 ^ 32
    → sub (add (add a (b % 2 ^ 32)) (c % 2 ^ 32)) d ≡ (a + (b + c - d)) % 2 ^ 32
word_chain a b c d h hd = omega arith

-- The bounds that the case computes.
module _ (n t count lower incr : ℕ) (hn : 1 < n) (ht : t < n) (hi : 0 < incr) (hw : incr < 2 ^ 32)
    (hc : n ≤ count) (hb : count < 2 ^ 32) where
  first_iteration-word :
      add (mul t (count / n)) (if ltb t (count % n) then t else count % n)
      ≡ first_iteration n count t
  first_iteration-word =
      let p = first_iteration_mono n count t (omega arith) (omega arith) in
      unfold first_iteration in ground arith

  share_positive : 0 < count / n
  share_positive = grind arith

  static_balanced-lower :
      (static_balanced n t count lower incr).lower
      ≡ (lower + incr * first_iteration n count t) % 2 ^ 32
  unfolding static_balanced
  static_balanced-lower = rw first_iteration-word (omega arith)

  static_balanced-upper :
      (static_balanced n t count lower incr).upper
      ≡ (lower + incr * (first_iteration n count (t + 1) - 1)) % 2 ^ 32
  unfolding static_balanced
  static_balanced-upper =
      let first = first_iteration n count t in
      let share = count / n in
      elim (Bool-cases (ltb t (count % n))) [
        | inl e ↦
            rw (first_iteration-word, first_iteration-suc n count t, e)
              (word_chain lower (incr * first) (share * incr) 0 (omega arith) (omega arith)
                ∙ ap (λ x. (lower + x) % 2 ^ 32) (omega (arith, last_of_more incr first share)))
        | inr e ↦
            rw (first_iteration-word, first_iteration-suc n count t, e)
              (let (p, q) = last_of_fewer incr first share share_positive in
                word_chain lower (incr * first) (share * incr) incr q hw
                ∙ ap (λ x. (lower + x) % 2 ^ 32) (omega arith))
      ]

trip_count_word : (lower upper incr : ℕ) → trip_count lower upper incr < 2 ^ 32
unfolding trip_count
trip_count_word lower upper incr = ground arith

-- `sch_static` at 32 bits, with more than one thread, at least as many iterations as threads, an
-- increment that is neither 0 nor -2^31, and signed bounds less than 2^31 apart with an iteration
-- between them: the trip count is the number of iterations of the loop, and thread `t` runs exactly
-- the iterations from `first_iteration t` up to, not including, `first_iteration (t + 1)`. No
-- thread's share is empty, the shares begin at iteration 0 and end at the trip count, and only the
-- last thread is told that it has the last iteration. So every iteration is run, by one thread.
pub for_static_init_balanced :
    (n t : ℕ) (b : Bounds) (incr chunk : ℕ)
    → 1 < n
    → t < n
    → b.lower < 2 ^ 32
    → b.upper < 2 ^ 32
    → 0 < incr
    → incr < 2 ^ 32
    → incr ≢ 2 ^ 31
    → span_of b.lower b.upper incr < 2 ^ 31
    → in_loop b.lower b.upper incr 0 ≡ true
    → n ≤ trip_count b.lower b.upper incr
    → (r : Bounds) × (for_static_init n t 34 b incr chunk ≡ ok r)
      × (r.lower
          ≡ (b.lower + incr * first_iteration n (trip_count b.lower b.upper incr) t) % 2 ^ 32)
      × (r.upper
          ≡ (b.lower + incr * (first_iteration n (trip_count b.lower b.upper incr) (t + 1) - 1))
            % 2 ^ 32)
      × (first_iteration n (trip_count b.lower b.upper incr) t
          < first_iteration n (trip_count b.lower b.upper incr) (t + 1))
      × (first_iteration n (trip_count b.lower b.upper incr) 0 ≡ 0)
      × (first_iteration n (trip_count b.lower b.upper incr) n ≡ trip_count b.lower b.upper incr)
      × ((r.last_iter ≡ true) ↔ (t + 1 ≡ n))
      × ((k : ℕ) → (in_loop b.lower b.upper incr k ≡ true) ↔ (k < trip_count b.lower b.upper incr))
for_static_init_balanced n t b incr chunk hn ht hl hu hi hw hm hd h0 hc =
    let count = trip_count b.lower b.upper incr in
    let hb = trip_count_word b.lower b.upper incr in
    (
      static_balanced n t count b.lower incr,
      runs,
      static_balanced-lower n t count b.lower incr hn ht hi hw hc hb,
      static_balanced-upper n t count b.lower incr hn ht hi hw hc hb,
      rw (first_iteration-suc n count t)
          (omega (arith, share_positive n t count b.lower incr hn ht hi hw hc hb)),
      unfold first_iteration in ground arith,
      first_iteration-last n count (omega arith),
      unfold static_balanced in ground arith,
      λ k. trip_count-in_loop b.lower b.upper incr k hl hu hi hw hm hd h0,
    )
  where
    runs :
        for_static_init n t 34 b incr chunk
        ≡ ok (static_balanced n t (trip_count b.lower b.upper incr) b.lower incr)
    runs = unfold for_static_init in ground arith
