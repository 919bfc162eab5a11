-- ===== src/MutableLong/Value.antt =====
-- What the four limbs of lib/types/mutable-long.js stand for, and `add`, `not`, `negate` and the
-- two comparisons against it.
use integration_hell.Common.{
  ℕ, ◌+◌, ◌-◌, ◌*◌, ◌%◌, ◌^◌, ◌<◌, ◌≡◌, arith, ltb, leb, ◌==◌, if◌then◌else◌,
}
use integration_hell.Common.Int.{ℤ, pos, negsuc}
use integration_hell.MutableLong.{MutableLong, add, bit_not, negate, is_zero, is_negative, one}

-- Every limb is an unsigned 16-bit integer.
pub record IsValid (a : MutableLong) : Type 0 where
  pub in00 : a.b00 < 2 ^ 16
  pub in16 : a.b16 < 2 ^ 16
  pub in32 : a.b32 < 2 ^ 16
  pub in48 : a.b48 < 2 ^ 16

-- The unsigned 64-bit reading of the limbs.
abbrev pub value : MutableLong → ℕ
value a = a.b00 + a.b16 * 2 ^ 16 + a.b32 * 2 ^ 32 + a.b48 * 2 ^ 48

-- The two's complement reading.
abbrev pub signed : MutableLong → ℤ
signed a = if ltb (value a) (2 ^ 63) then pos (value a) else negsuc (2 ^ 64 - value a - 1)

pub value-lt : (a : MutableLong) → IsValid a → value a < 2 ^ 64
value-lt a v = omega arith

pub add-IsValid : (a b : MutableLong) → IsValid (add a b)
unfolding add
add-IsValid a b = omega arith

-- The sum of two valid longs is the sum of their values modulo 2 ^ 64.
pub value-add :
    (a b : MutableLong) → IsValid a → IsValid b → value (add a b) ≡ (value a + value b) % 2 ^ 64
unfolding add
value-add a b va vb = omega arith

pub bit_not-IsValid : (a : MutableLong) → IsValid (bit_not a)
unfolding bit_not
bit_not-IsValid a = omega arith

pub value-bit_not : (a : MutableLong) → IsValid a → value (bit_not a) ≡ 2 ^ 64 - 1 - value a
unfolding bit_not
value-bit_not a v = omega arith

pub one-IsValid : IsValid one
one-IsValid = omega arith

pub negate-IsValid : (a : MutableLong) → IsValid (negate a)
unfolding negate
negate-IsValid a = add-IsValid (bit_not a) one

pub value-negate : (a : MutableLong) → IsValid a → value (negate a) ≡ (2 ^ 64 - value a) % 2 ^ 64
unfolding negate
value-negate a v =
    omega (arith, value-add (bit_not a) one (bit_not-IsValid a) one-IsValid, value-bit_not a v)

pub is_negative-value : (a : MutableLong) → IsValid a → is_negative a ≡ leb (2 ^ 63) (value a)
unfolding is_negative
is_negative-value a v = ground arith

pub is_zero-value : (a : MutableLong) → is_zero a ≡ (value a == 0)
unfolding is_zero
is_zero-value a = ground arith
