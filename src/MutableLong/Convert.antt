-- ===== src/MutableLong/Convert.antt =====
-- `fromBits`, `fromNumber`, the two 32-bit readings and `equals` of lib/types/mutable-long.js.
use integration_hell.Common.{ℕ, suc, ◌+◌, ◌-◌, ◌*◌, ◌/◌, ◌%◌, ◌^◌, ◌<◌, ◌≡◌, arith, ◌==◌}
use integration_hell.Common.Int.{ℤ, pos, negsuc, ◌≤ℤ◌}
use integration_hell.Common.Bits.{bit_or_low_high}
use integration_hell.MutableLong.{
  MutableLong, equals, from_bits, from_number, low_bits_unsigned, high_bits_unsigned,
}
use integration_hell.MutableLong.Value.{IsValid, value, signed, value-negate}

pub value-from_bits :
    (low high : ℕ) → value (from_bits low high) ≡ low % 2 ^ 32 + high % 2 ^ 32 * 2 ^ 32
unfolding from_bits
value-from_bits low high = omega arith

pub from_bits-IsValid : (low high : ℕ) → IsValid (from_bits low high)
unfolding from_bits
from_bits-IsValid low high = omega arith

low_bits-value : (a : MutableLong) → IsValid a → low_bits_unsigned a ≡ value a % 2 ^ 32
unfolding low_bits_unsigned
low_bits-value a v =
    let same : a.b16 % 2 ^ 16 ≡ a.b16 = omega arith in
    rw (same, bit_or_low_high 16 a.b16 a.b00 v.in00) (omega arith)

high_bits-value : (a : MutableLong) → IsValid a → high_bits_unsigned a ≡ value a / 2 ^ 32
unfolding high_bits_unsigned
high_bits-value a v = rw (bit_or_low_high 16 a.b48 a.b32 v.in32) (omega arith)

-- For valid limbs, taking the two unsigned 32-bit halves of a long and building a long from them
-- gives its value back.
pub value-from_bits-halves :
    (a : MutableLong)
    → IsValid a
    → value (from_bits (low_bits_unsigned a) (high_bits_unsigned a)) ≡ value a
value-from_bits-halves a v =
    rw (low_bits-value a v, high_bits-value a v)
      (omega (arith, value-from_bits (value a % 2 ^ 32) (value a / 2 ^ 32)))

from_number-magnitude : (n : ℕ) → n < 2 ^ 64 → value (from_bits (n % 2 ^ 32) (n / 2 ^ 32)) ≡ n
from_number-magnitude n h = omega (arith, value-from_bits (n % 2 ^ 32) (n / 2 ^ 32))

-- Every whole number from -2 ^ 63 to 2 ^ 63 - 1 is the two's complement reading of the long that
-- `fromNumber` makes of it.
pub signed-from_number :
    (z : ℤ) → negsuc (2 ^ 63 - 1) ≤ℤ z → z ≤ℤ pos (2 ^ 63 - 1) → signed (from_number z) ≡ z
unfolding from_number
signed-from_number (pos n) lo hi = ground (arith, from_number-magnitude n)
signed-from_number (negsuc n) lo hi = ground (
  arith,
  from_number-magnitude (suc n),
  value-negate (from_bits (suc n % 2 ^ 32) (suc n / 2 ^ 32))
      (from_bits-IsValid (suc n % 2 ^ 32) (suc n / 2 ^ 32)),
)

equals_lem : (a b : MutableLong) → IsValid a → IsValid b → equals a b ≡ (value a == value b)
unfolding equals
equals_lem a b va vb = ground arith
