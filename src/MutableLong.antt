-- ===== src/MutableLong.antt =====
-- lib/types/mutable-long.js: a 64-bit two's complement integer in four 16-bit limbs, changed in
-- place. A method that mutates `this` returns the new object here. Bit operations on limbs are
-- written with `/`, `%` and `*` by powers of two, and `|` and `^` with the native bit operations.
pub mod Value
pub mod Order
pub mod Multiply
pub mod Shift
pub mod Convert
mod Tests
use Prim.Native.Nat.{bit_or, bit_xor}
use integration_hell.Common.{
  ℕ, suc, ◌+◌, ◌-◌, ◌*◌, ◌/◌, ◌%◌, ◌^◌, Bool, true, false, not, ◌&&◌, ltb, leb, ◌==◌, if◌then◌else◌,
}
use integration_hell.Common.Int.{ℤ, pos, negsuc}

pub record MutableLong : Type 0 where
  pub b00 : ℕ
  pub b16 : ℕ
  pub b32 : ℕ
  pub b48 : ℕ

-- x & 0xffff
abbrev pub mask16 : ℕ → ℕ
mask16 x = x % 2 ^ 16

-- x >>> k, which reads x as an unsigned 32-bit integer
abbrev pub ushr : ℕ → ℕ → ℕ
ushr x k = x % 2 ^ 32 / 2 ^ k

-- the constructor
abbrev pub new : ℕ → ℕ → ℕ → ℕ → MutableLong
new b00 b16 b32 b48 = record {
  b00 = mask16 b00;
  b16 = mask16 b16;
  b32 = mask16 b32;
  b48 = mask16 b48;
}

-- `MutableLong.one`
abbrev pub one : MutableLong
one = new 1 0 0 0

pub to_zero : MutableLong → MutableLong
to_zero a = record { b00 = 0; b16 = 0; b32 = 0; b48 = 0 }

pub is_zero : MutableLong → Bool
is_zero a = (a.b48 == 0) && (a.b32 == 0) && (a.b16 == 0) && (a.b00 == 0)

-- The bit of 0x8000 in the highest limb.
pub is_negative : MutableLong → Bool
is_negative a = ltb 0 (a.b48 / 2 ^ 15 % 2 * 2 ^ 15)

pub equals : MutableLong → MutableLong → Bool
equals a b = (a.b00 == b.b00) && (a.b16 == b.b16) && (a.b32 == b.b32) && (a.b48 == b.b48)

-- `_compareBits`, from the highest limb down; -1, 0 or 1
pub compare_bits : MutableLong → MutableLong → ℤ
compare_bits a b =
    if ltb b.b48 a.b48
    then pos 1
    else if ltb a.b48 b.b48
    then negsuc 0
    else if ltb b.b32 a.b32
    then pos 1
    else if ltb a.b32 b.b32
    then negsuc 0
    else if ltb b.b16 a.b16
    then pos 1
    else if ltb a.b16 b.b16
    then negsuc 0
    else if ltb b.b00 a.b00
    then pos 1
    else if ltb a.b00 b.b00
    then negsuc 0
    else pos 0

pub compare_to : MutableLong → MutableLong → ℤ
compare_to a b =
    if is_negative a && not (is_negative b)
    then negsuc 0
    else if not (is_negative a) && is_negative b
    then pos 1
    else compare_bits a b

-- `~x & 0xffff`: the complement of the low 16 bits.
abbrev not16 : ℕ → ℕ
not16 x = 2 ^ 16 - 1 - x % 2 ^ 16

-- the method `not`
pub bit_not : MutableLong → MutableLong
bit_not a = record { b00 = not16 a.b00; b16 = not16 a.b16; b32 = not16 a.b32; b48 = not16 a.b48 }

pub add : MutableLong → MutableLong → MutableLong
add a b =
    let c00 = a.b00 + b.b00 in
    let c16 = ushr c00 16 + (a.b16 + b.b16) in
    let c32 = ushr c16 16 + (a.b32 + b.b32) in
    let c48 = ushr c32 16 + (a.b48 + b.b48) in
    record { b00 = mask16 c00; b16 = mask16 c16; b32 = mask16 c32; b48 = mask16 c48 }

pub negate : MutableLong → MutableLong
negate a = add (bit_not a) one

-- The products of `multiply`, once both factors are made positive.
pub multiply_limbs : MutableLong → MutableLong → MutableLong
multiply_limbs a b =
    let c00 = a.b00 * b.b00 in
    let c16 = ushr c00 16 + a.b16 * b.b00 in
    let c16' = mask16 c16 + a.b00 * b.b16 in
    let c32 = ushr c16 16 + ushr c16' 16 + a.b32 * b.b00 in
    let c32' = mask16 c32 + a.b16 * b.b16 in
    let c32'' = mask16 c32' + a.b00 * b.b32 in
    let c48 =
      ushr c32 16
      + ushr c32' 16
      + ushr c32'' 16
      + (a.b48 * b.b00 + a.b32 * b.b16 + a.b16 * b.b32 + a.b00 * b.b48) in
    record { b00 = mask16 c00; b16 = mask16 c16'; b32 = mask16 c32''; b48 = mask16 c48 }

-- `multiply` where the multiplier is another object.
pub multiply : MutableLong → MutableLong → MutableLong
multiply a b =
    let a' = if is_negative a then negate a else a in
    let b' = if is_negative b then negate b else b in
    let product = multiply_limbs a' b' in
    if is_zero a
    then to_zero a
    else if is_zero b
    then to_zero a
    else if is_negative a
    then (if is_negative b then product else negate product)
    else (if is_negative b then negate product else product)

-- `a.multiply(a)`: negating `this` negates the multiplier too, since they are one object, and the
-- second test for a sign reads the negated value.
pub multiply_self : MutableLong → MutableLong
multiply_self a =
    let m = negate a in
    let m' = negate m in
    if is_zero a
    then to_zero a
    else if is_negative a
    then (if is_negative m then multiply_limbs m m' else negate (multiply_limbs m m))
    else multiply_limbs a a

pub limb : MutableLong → ℕ → ℕ
limb a i = if i == 0 then a.b00 else if i == 1 then a.b16 else if i == 2 then a.b32 else a.b48

-- The moves of whole limbs in `shiftLeft` (0 < p).
pub move_left : MutableLong → ℕ → MutableLong
unfolding limb
move_left a p = record {
  b48 = limb a (3 - p);
  b32 = if ltb 2 p then 0 else limb a (2 - p);
  b16 = if ltb 1 p then 0 else a.b00;
  b00 = 0;
}

-- `((high << r) | (low >>> (16 - r))) & 0xffff`
pub join_left : ℕ → ℕ → ℕ → ℕ
join_left r high low = mask16 (bit_or (high * 2 ^ r) (ushr low (16 - r)))

-- The shift inside the limbs in `shiftLeft` (0 < r).
pub bits_left : MutableLong → ℕ → MutableLong
unfolding join_left
bits_left a r = record {
  b48 = join_left r a.b48 a.b32;
  b32 = join_left r a.b32 a.b16;
  b16 = join_left r a.b16 a.b00;
  b00 = mask16 (a.b00 * 2 ^ r);
}

pub shift_left : MutableLong → ℕ → MutableLong
unfolding move_left bits_left
shift_left a n =
    let p = n / 16 in
    let r = n % 16 in
    let moved = if ltb 0 p then move_left a p else a in
    if n == 0
    then a
    else if leb 64 n
    then to_zero a
    else if ltb 0 r
    then bits_left moved r
    else moved

-- The moves of whole limbs in `shiftRightUnsigned` (0 < p).
pub move_right : MutableLong → ℕ → MutableLong
unfolding limb
move_right a p = record {
  b00 = limb a p;
  b16 = if ltb 2 p then 0 else limb a (1 + p);
  b32 = if ltb 1 p then 0 else a.b48;
  b48 = 0;
}

-- `(low >>> r) | ((high << (16 - r)) & 0xffff)`
pub join_right : ℕ → ℕ → ℕ → ℕ
join_right r low high = bit_or (ushr low r) (mask16 (high * 2 ^ (16 - r)))

pub bits_right : MutableLong → ℕ → MutableLong
unfolding join_right
bits_right a r = record {
  b00 = join_right r a.b00 a.b16;
  b16 = join_right r a.b16 a.b32;
  b32 = join_right r a.b32 a.b48;
  b48 = ushr a.b48 r;
}

pub shift_right_unsigned : MutableLong → ℕ → MutableLong
unfolding move_right bits_right
shift_right_unsigned a n =
    let p = n / 16 in
    let r = n % 16 in
    let moved = if ltb 0 p then move_right a p else a in
    if n == 0
    then a
    else if leb 64 n
    then to_zero a
    else if ltb 0 r
    then bits_right moved r
    else moved

-- the method `or`
pub bit_or_long : MutableLong → MutableLong → MutableLong
bit_or_long a b = record {
  b00 = bit_or a.b00 b.b00;
  b16 = bit_or a.b16 b.b16;
  b32 = bit_or a.b32 b.b32;
  b48 = bit_or a.b48 b.b48;
}

-- the method `xor`
pub bit_xor_long : MutableLong → MutableLong → MutableLong
bit_xor_long a b = record {
  b00 = bit_xor a.b00 b.b00;
  b16 = bit_xor a.b16 b.b16;
  b32 = bit_xor a.b32 b.b32;
  b48 = bit_xor a.b48 b.b48;
}

pub clone : MutableLong → MutableLong
clone a = new a.b00 a.b16 a.b32 a.b48

-- `getLowBitsUnsigned` and `getHighBitsUnsigned`
pub low_bits_unsigned : MutableLong → ℕ
low_bits_unsigned a = bit_or a.b00 (mask16 a.b16 * 2 ^ 16) % 2 ^ 32

pub high_bits_unsigned : MutableLong → ℕ
high_bits_unsigned a = bit_or a.b32 (a.b48 * 2 ^ 16) % 2 ^ 32

pub from_bits : ℕ → ℕ → MutableLong
from_bits low high = new low (ushr low 16) high (ushr high 16)

-- `fromNumber` of a whole number. The quotient by 2 ^ 32 is a fraction that the bit operations of
-- `fromBits` cut off.
pub from_number : ℤ → MutableLong
unfolding from_bits
from_number (pos n) = from_bits (n % 2 ^ 32) (n / 2 ^ 32)
from_number (negsuc n) = negate (from_bits (suc n % 2 ^ 32) (suc n / 2 ^ 32))
