-- ===== src/Policies/Reconnection.antt =====
-- lib/policies/reconnection.js: the schedules of delays. `Math.random()` is a fraction `num / den`
-- with num < den, given for each step; percentages are whole numbers, where the source computes with
-- doubles.
mod Tests
use native.Mathlib.Nat.{
  le-div_iff_mul-le, div-mul-le_self, mul-le-mul_right, mul-le-mul_left, le_of_mul-le-mul_right,
  div-le_of_le-mul,
}
use integration_hell.Common.{
  ℕ, zero, suc, ◌+◌, ◌-◌, ◌*◌, ◌/◌, ◌^◌, ◌≤◌, ◌<◌, ◌≢◌, ◌≡◌, refl, ap, ◌∙◌, arith, inl, inr, min,
  Bool, true, false, not, ◌&&◌, Bool-cases, Option, none, some, List, [], ◌∷◌, leb, ltb, ◌==◌,
  if◌then◌else◌,
}
use integration_hell.Common.Int.{ℤ, pos, negsuc}

-- The delay of `ConstantReconnectionPolicy` at every step.
pub constant_delay : ℕ → ℕ → ℕ
constant_delay delay step = delay

pub record Exponential : Type 0 where
  pub base_delay : ℕ
  pub max_delay : ℕ
  pub start_with_no_delay : Bool

pub record Fraction : Type 0 where
  pub num : ℕ
  pub den : ℕ

-- The least percentage and the range of percentages of `_addJitter`.
pub percentages : Exponential → ℕ → ℕ × ℕ
percentages c value =
    if not c.start_with_no_delay && value == c.base_delay
    then (100, 15)
    else if value == c.max_delay
    then (85, 15)
    else (85, 30)

pub add_jitter : Exponential → ℕ → Fraction → ℕ
unfolding percentages
add_jitter c value random =
    if value == 0
    then value
    else value
      * ((percentages c value).0 * random.den + (percentages c value).1 * random.num)
      / (100 * random.den)

-- The delay before jitter at the counter `index`, which is -1 before an immediate first attempt.
pub pure_delay : Exponential → ℤ → ℕ
pure_delay c (negsuc n) = 0
pure_delay c (pos index) =
    if leb 64 index then c.max_delay else min (2 ^ index * c.base_delay) c.max_delay

-- The generator's next item, and its counter after it.
pub next : Exponential → ℤ → Fraction → ℕ × ℤ
unfolding pure_delay add_jitter
next c (negsuc n) random = (add_jitter c (pure_delay c (negsuc n)) random, pos 0)
next c (pos index) random = (add_jitter c (pure_delay c (pos index)) random, pos (index + 1))

-- A product divided by a positive denominator, between two bounds on the factor.
jitter_low : (v a b num den : ℕ) → 0 < den → v * a / 100 ≤ v * (a * den + b * num) / (100 * den)
jitter_low v a b num den h =
    let positive : 0 < 100 * den = omega arith in
    (le-div_iff_mul-le positive).1
      (grind (arith, mul-le-mul_right den (div-mul-le_self (v * a) 100)))

jitter_high :
    (v a b num den : ℕ) → num < den → v * (a * den + b * num) / (100 * den) * 100 ≤ v * (a + b)
jitter_high v a b num den h =
    let le : num ≤ den = omega arith in
    le_of_mul-le-mul_right {k = den}
      (grind
        (arith, div-mul-le_self (v * (a * den + b * num)) (100 * den), mul-le-mul_left (v * b) le))
      (omega arith)

-- For a random fraction below 1: a delay with jitter is at least 85 percent (rounded down) and at
-- most 115 percent of the pure delay; it does not pass the greatest delay where the pure delay is
-- that one and is not the base delay; and it does not fall below the base delay where the pure delay
-- is that one and the policy does not start with no delay.
pub add_jitter_bounds :
    (c : Exponential) (value : ℕ) (random : Fraction)
    → random.num < random.den
    → (value * 85 / 100 ≤ add_jitter c value random)
      × (add_jitter c value random * 100 ≤ value * 115)
      × (value ≡ c.max_delay → value ≢ c.base_delay → add_jitter c value random ≤ c.max_delay)
      × (value ≡ c.base_delay
          → c.start_with_no_delay ≡ false
          → c.base_delay ≤ add_jitter c value random)
unfolding add_jitter percentages
add_jitter_bounds c value random h =
    let positive : 0 < random.den = omega arith in
    let l0 = jitter_low value 100 15 random.num random.den positive in
    let l1 = jitter_low value 85 15 random.num random.den positive in
    let l2 = jitter_low value 85 30 random.num random.den positive in
    let h0 = jitter_high value 100 15 random.num random.den h in
    let h1 = jitter_high value 85 15 random.num random.den h in
    let h2 = jitter_high value 85 30 random.num random.den h in ground arith
