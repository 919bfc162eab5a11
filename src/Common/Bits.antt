-- ===== src/Common/Bits.antt =====
-- `bit_or` of two numbers with no binary digit in common is their sum.
use Prim.Native.Nat.{
  ℕ, zero, suc, ◌+◌, ◌-◌, ◌*◌, ◌/◌, ◌%◌, ◌^◌, ◌≤◌, ◌<◌, max, bit_or, digits, bit_or-bitwise,
}
use mathlib.Core.Path.{◌≡◌, refl, ap}
use native.Mathlib.Omega.{arith}
use native.Mathlib.Nat.{pow-suc, pow-zero}

-- The recursion that `bit_or` stands for, with its count of digits apart from its first number.
abbrev or_upto : ℕ → ℕ → ℕ → ℕ
or_upto n a b = digits (λ rest. rest) max n a b

or_upto_count : (n m a b : ℕ) → a ≤ n → a ≤ m → or_upto n a b ≡ or_upto m a b
or_upto_count zero zero a b p q = refl
or_upto_count zero (suc m) zero b p q = refl
or_upto_count (suc n) zero zero b p q = refl
or_upto_count (suc n) (suc m) zero b p q = refl
or_upto_count zero (suc m) (suc a) b p q = absurd (omega arith)
or_upto_count (suc n) zero (suc a) b p q = absurd (omega arith)
or_upto_count (suc n) (suc m) (suc a) b p q =
    omega (arith, or_upto_count n m (suc a / 2) (b / 2) (omega arith) (omega arith))

or_lowest : (a b : ℕ) → bit_or a b ≡ bit_or (a / 2) (b / 2) * 2 + max (a % 2) (b % 2)
or_lowest zero b = omega (arith, bit_or-bitwise 0 b, bit_or-bitwise 0 (b / 2))
or_lowest (suc a) b =
    let shorter : ℕ = suc a / 2 in
    omega (
      arith,
      bit_or-bitwise (suc a) b,
      bit_or-bitwise shorter (b / 2),
      or_upto_count a shorter shorter (b / 2) (omega arith) (omega arith),
    )

or_nothing_upto : (n a : ℕ) → a ≤ n → bit_or a 0 ≡ a
or_nothing_upto n zero h = bit_or-bitwise 0 0
or_nothing_upto zero (suc a) h = absurd (omega arith)
or_nothing_upto (suc n) (suc a) h =
    omega (arith, or_lowest (suc a) 0, or_nothing_upto n (suc a / 2) (omega arith))

-- High digits and low digits side by side, in either order.
pub bit_or_high_low :
    (k high low : ℕ) → low < 2 ^ k → bit_or (high * 2 ^ k) low ≡ high * 2 ^ k + low
bit_or_high_low zero high low h =
    let e : low ≡ 0 = omega (arith, pow-zero 2) in
    rw e (omega (arith, or_nothing_upto (high * 2 ^ 0) (high * 2 ^ 0) (omega arith)))
bit_or_high_low (suc k) high low h =
    let twice : high * 2 ^ suc k ≡ high * 2 ^ k * 2 = rw pow-suc (omega arith) in
    rw twice (
      omega (
        arith,
        pow-suc 2 k,
        or_lowest (high * 2 ^ k * 2) low,
        ap_bit_or k high low,
        bit_or_high_low k high (low / 2) (omega (arith, pow-suc 2 k)),
      ))
  where
    ap_bit_or :
        (k high low : ℕ) → bit_or (high * 2 ^ k * 2 / 2) (low / 2) ≡ bit_or (high * 2 ^ k) (low / 2)
    ap_bit_or k high low = let e : high * 2 ^ k * 2 / 2 ≡ high * 2 ^ k = omega arith in rw e refl

or_comm_upto : (n a b : ℕ) → a ≤ n → bit_or a b ≡ bit_or b a
or_comm_upto n zero b h = omega (arith, bit_or-bitwise 0 b, or_nothing_upto b b (omega arith))
or_comm_upto zero (suc a) b h = absurd (omega arith)
or_comm_upto (suc n) (suc a) b h = omega (
  arith,
  or_lowest (suc a) b,
  or_lowest b (suc a),
  or_comm_upto n (suc a / 2) (b / 2) (omega arith),
)

pub bit_or_low_high :
    (k high low : ℕ) → low < 2 ^ k → bit_or low (high * 2 ^ k) ≡ high * 2 ^ k + low
bit_or_low_high k high low h =
    omega (arith, or_comm_upto low low (high * 2 ^ k) (omega arith), bit_or_high_low k high low h)

pub pow-split : (r m : ℕ) → r ≤ m → 2 ^ r * 2 ^ (m - r) ≡ 2 ^ m
pow-split zero m h = let e : m - 0 ≡ m = omega arith in rw e (omega (arith, pow-zero 2))
pow-split (suc r) zero h = absurd (omega arith)
pow-split (suc r) (suc m) h =
    let e : suc m - suc r ≡ m - r = omega arith in
    rw e (
      omega (
        arith,
        ap (λ (t : ℕ). t * 2 ^ (m - r)) (pow-suc 2 r),
        pow-suc 2 m,
        pow-split r m (omega arith),
      ))

pub pow-pos : (r : ℕ) → 0 < 2 ^ r
pow-pos zero = omega (arith, pow-zero 2)
pow-pos (suc r) = omega (arith, pow-suc 2 r, pow-pos r)
