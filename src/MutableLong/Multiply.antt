-- ===== src/MutableLong/Multiply.antt =====
-- `multiply` of lib/types/mutable-long.js against the product modulo 2 ^ 64.
use integration_hell.Common.{
  ℕ, ◌+◌, ◌-◌, ◌*◌, ◌%◌, ◌^◌, ◌≤◌, ◌<◌, ◌≡◌, arith, ◌∙◌, ap, ◌≢◌, ◌⊎◌, inl, inr,
}
use integration_hell.MutableLong.{
  MutableLong, multiply_limbs, multiply, multiply_self, to_zero, negate, mask16, ushr,
}
use integration_hell.MutableLong.Value.{
  IsValid, value, negate-IsValid, value-negate, is_zero-value, is_negative-value,
}

-- A product of two limbs.
limb_product-le : (x y : ℕ) → x < 2 ^ 16 → y < 2 ^ 16 → x * y ≤ 4294836225
limb_product-le x y hx hy = grind arith

-- The carries of `multiply`, over the products of limbs as unknowns.
carries :
    (p00 p10 p01 p20 p11 p02 p3 : ℕ)
    → p00 ≤ 4294836225
    → p10 ≤ 4294836225
    → p01 ≤ 4294836225
    → p20 ≤ 4294836225
    → p11 ≤ 4294836225
    → p02 ≤ 4294836225
    → (let c00 = p00 in
        let c16 = ushr c00 16 + p10 in
        let c16' = mask16 c16 + p01 in
        let c32 = ushr c16 16 + ushr c16' 16 + p20 in
        let c32' = mask16 c32 + p11 in
        let c32'' = mask16 c32' + p02 in
        let c48 = ushr c32 16 + ushr c32' 16 + ushr c32'' 16 + p3 in
        mask16 c00 + mask16 c16' * 2 ^ 16 + mask16 c32'' * 2 ^ 32 + mask16 c48 * 2 ^ 48)
      ≡ (p00 + (p10 + p01) * 2 ^ 16 + (p20 + p11 + p02) * 2 ^ 32 + p3 * 2 ^ 48) % 2 ^ 64
carries p00 p10 p01 p20 p11 p02 p3 h1 h2 h3 h4 h5 h6 = omega arith

multiply_limbs-IsValid : (a b : MutableLong) → IsValid (multiply_limbs a b)
unfolding multiply_limbs
multiply_limbs-IsValid a b = omega arith

-- The products that `multiply` skips are multiples of 2 ^ 64.
pub value-multiply_limbs :
    (a b : MutableLong)
    → IsValid a
    → IsValid b
    → value (multiply_limbs a b) ≡ value a * value b % 2 ^ 64
unfolding multiply_limbs
value-multiply_limbs a b va vb =
    carries (a.b00 * b.b00) (a.b16 * b.b00) (a.b00 * b.b16) (a.b32 * b.b00) (a.b16 * b.b16)
      (a.b00 * b.b32) (a.b48 * b.b00 + a.b32 * b.b16 + a.b16 * b.b32 + a.b00 * b.b48)
      (limb_product-le _ _ va.in00 vb.in00) (limb_product-le _ _ va.in16 vb.in00)
      (limb_product-le _ _ va.in00 vb.in16) (limb_product-le _ _ va.in32 vb.in00)
      (limb_product-le _ _ va.in16 vb.in16) (limb_product-le _ _ va.in00 vb.in32)
    ∙ omega arith

-- Negating one factor, and negating both.
negate_left : (x x' y : ℕ) → x + x' ≡ 2 ^ 64 → x' * y + x * y ≡ 2 ^ 64 * y
negate_left x x' y h = omega (arith, ap (λ (t : ℕ). t * y) h)

negate_both :
    (x x' y y' : ℕ) → x + x' ≡ 2 ^ 64 → y + y' ≡ 2 ^ 64 → x' * y' + x * 2 ^ 64 ≡ 2 ^ 64 * y' + x * y
negate_both x x' y y' h k = omega (arith, negate_left x x' y' h, ap (λ (t : ℕ). x * t) k)

-- What `negate` gives for a value that is not zero.
negated : (a : MutableLong) → IsValid a → value a ≢ 0 → value a + value (negate a) ≡ 2 ^ 64
negated a v h = omega (arith, value-negate a v)

module _ (a b : MutableLong) (va : IsValid a) (vb : IsValid b) where
  flip_left :
      value a ≢ 0 → value (negate (multiply_limbs (negate a) b)) ≡ value a * value b % 2 ^ 64
  flip_left h = omega (
    arith,
    value-negate (multiply_limbs (negate a) b) (multiply_limbs-IsValid (negate a) b),
    value-multiply_limbs (negate a) b (negate-IsValid a) vb,
    negate_left (value a) (value (negate a)) (value b) (negated a va h),
  )

  flip_right :
      value b ≢ 0 → value (negate (multiply_limbs a (negate b))) ≡ value a * value b % 2 ^ 64
  flip_right h = omega (
    arith,
    value-negate (multiply_limbs a (negate b)) (multiply_limbs-IsValid a (negate b)),
    value-multiply_limbs a (negate b) va (negate-IsValid b),
    negate_left (value b) (value (negate b)) (value a) (negated b vb h),
  )

  flip_both :
      value a ≢ 0
      → value b ≢ 0
      → value (multiply_limbs (negate a) (negate b)) ≡ value a * value b % 2 ^ 64
  flip_both h k = omega (
    arith,
    value-multiply_limbs (negate a) (negate b) (negate-IsValid a) (negate-IsValid b),
    negate_both (value a) (value (negate a)) (value b) (value (negate b)) (negated a va h)
        (negated b vb k),
  )

zero_product : (x y : ℕ) → (x ≡ 0) ⊎ (y ≡ 0) → 0 ≡ x * y % 2 ^ 64
zero_product x y (inl h) = rw h (omega arith)
zero_product x y (inr h) = rw h (omega arith)

-- For all limbs, `multiply` gives the product modulo 2 ^ 64, on every combination of signs.
pub value-multiply :
    (a b : MutableLong) → IsValid a → IsValid b → value (multiply a b) ≡ value a * value b % 2 ^ 64
unfolding multiply to_zero
value-multiply a b va vb = ground (
  arith,
  is_zero-value a,
  is_zero-value b,
  is_negative-value a va,
  is_negative-value b vb,
  zero_product (value a) (value b),
  flip_left a b va vb,
  flip_right a b va vb,
  flip_both a b va vb,
  value-multiply_limbs a b va vb,
)

pub multiply-IsValid : (a b : MutableLong) → IsValid (multiply a b)
unfolding multiply to_zero
multiply-IsValid a b = ground (
  arith,
  multiply_limbs-IsValid a b,
  multiply_limbs-IsValid (negate a) (negate b),
  negate-IsValid (multiply_limbs (negate a) b),
  negate-IsValid (multiply_limbs a (negate b)),
)

-- A negative integer other than the least one, multiplied by itself as one object, gives the
-- negated square.
pub value-multiply_self :
    (a : MutableLong)
    → IsValid a
    → 2 ^ 63 < value a
    → value (multiply_self a) ≡ (2 ^ 64 - value a * value a % 2 ^ 64) % 2 ^ 64
unfolding multiply_self
value-multiply_self a v h = ground (
  arith,
  is_zero-value a,
  is_negative-value a v,
  is_negative-value (negate a) (negate-IsValid a),
  value-negate a v,
  value-negate (multiply_limbs (negate a) (negate a))
      (multiply_limbs-IsValid (negate a) (negate a)),
  value-multiply_limbs (negate a) (negate a) (negate-IsValid a) (negate-IsValid a),
  flip_both a a v v,
  value-multiply_limbs a a v v,
)
