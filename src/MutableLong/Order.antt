-- ===== src/MutableLong/Order.antt =====
-- The comparisons of lib/types/mutable-long.js agree with the order of the 64-bit integers.
use integration_hell.Common.{ℕ, ◌+◌, ◌*◌, ◌^◌, ◌<◌, ◌≡◌, arith, ltb, if◌then◌else◌}
use integration_hell.Common.Int.{ℤ, pos, negsuc, ltb_ℤ}
use integration_hell.MutableLong.{MutableLong, compare_bits, compare_to}
use integration_hell.MutableLong.Value.{IsValid, value, signed, is_negative-value}

-- The three-way comparison of two numbers.
abbrev pub sign_of : ℕ → ℕ → ℤ
sign_of a b = if ltb b a then pos 1 else if ltb a b then negsuc 0 else pos 0

-- Lexicographic comparison of a high part and a low part that is below `2 ^ 16`, `2 ^ 32`, `2 ^ 48`.
abbrev lex : ℕ → ℕ → ℕ → ℕ → ℤ
lex h h' l l' = if ltb h' h then pos 1 else if ltb h h' then negsuc 0 else sign_of l l'

lex16 :
    (h h' l l' : ℕ)
    → l < 2 ^ 16
    → l' < 2 ^ 16
    → lex h h' l l' ≡ sign_of (l + h * 2 ^ 16) (l' + h' * 2 ^ 16)
lex16 h h' l l' p p' = ground arith

lex32 :
    (h h' l l' : ℕ)
    → l < 2 ^ 32
    → l' < 2 ^ 32
    → lex h h' l l' ≡ sign_of (l + h * 2 ^ 32) (l' + h' * 2 ^ 32)
lex32 h h' l l' p p' = ground arith

lex48 :
    (h h' l l' : ℕ)
    → l < 2 ^ 48
    → l' < 2 ^ 48
    → lex h h' l l' ≡ sign_of (l + h * 2 ^ 48) (l' + h' * 2 ^ 48)
lex48 h h' l l' p p' = ground arith

pub compare_bits-value :
    (a b : MutableLong) → IsValid a → IsValid b → compare_bits a b ≡ sign_of (value a) (value b)
unfolding compare_bits
compare_bits-value a b va vb = rw (lex16 a.b16 b.b16 a.b00 b.b00 va.in00 vb.in00) (
    rw
      (lex32 a.b32 b.b32 (a.b00 + a.b16 * 2 ^ 16) (b.b00 + b.b16 * 2 ^ 16) (omega arith)
        (omega arith))
      (lex48 a.b48 b.b48 (a.b00 + a.b16 * 2 ^ 16 + a.b32 * 2 ^ 32)
        (b.b00 + b.b16 * 2 ^ 16 + b.b32 * 2 ^ 32) (omega arith) (omega arith)))

-- -1, 0 or 1 as the first two's complement integer is below, equal to or above the second.
abbrev pub order_ℤ : ℤ → ℤ → ℤ
order_ℤ a b = if ltb_ℤ b a then pos 1 else if ltb_ℤ a b then negsuc 0 else pos 0

-- `compare` gives 1, -1 or 0 as the first of two valid longs is greater than the second, less or
-- equal, both read as signed integers.
pub compare_lem :
    (a b : MutableLong) → IsValid a → IsValid b → compare_to a b ≡ order_ℤ (signed a) (signed b)
unfolding compare_to
compare_lem a b va vb =
    rw (is_negative-value a va, is_negative-value b vb, compare_bits-value a b va vb) (ground arith)
