-- ===== src/MutableLong/Shift.antt =====
-- `shiftLeft` and `shiftRightUnsigned` of lib/types/mutable-long.js against multiplication modulo
-- 2 ^ 64 and division by powers of two.
use native.Mathlib.Nat.{mod-lt, div-add-mod, div-div-eq-div-mul}
use integration_hell.Common.{
  ℕ, ◌+◌, ◌-◌, ◌*◌, ◌/◌, ◌%◌, ◌^◌, ◌≤◌, ◌<◌, ◌≡◌, refl, false, arith, ltb, leb, ◌==◌, if◌then◌else◌,
  ap, zero, suc, sym, Bool-cases, inl, inr, leb→le, lt→ltb,
}
use integration_hell.Common.Bits.{bit_or_high_low, bit_or_low_high, pow-split, pow-pos}
use integration_hell.MutableLong.{
  MutableLong, join_left, bits_left, move_left, shift_left, join_right, bits_right, move_right,
  shift_right_unsigned, to_zero,
}
use integration_hell.MutableLong.Value.{IsValid, value, value-lt}

pair-lt : (p q l h : ℕ) → l < q → h < p → l * p + h < p * q
pair-lt p q l h lq hp = grind arith

-- A limb cut at a bit position: `p * q` is 2 ^ 16.
module _ (p q : ℕ) (pq : p * q ≡ 2 ^ 16) (q_pos : 0 < q) where
  cut : (x : ℕ) → x * p ≡ x / q * 2 ^ 16 + x % q * p
  cut x = omega (arith, ap (λ (t : ℕ). t * p) (div-add-mod x q), ap (λ (t : ℕ). x / q * t) pq)

  high-lt : (x : ℕ) → x < 2 ^ 16 → x / q < p
  high-lt x h = grind arith

  joined-lt : (x y : ℕ) → y < 2 ^ 16 → x % q * p + y / q < 2 ^ 16
  joined-lt x y h = omega (arith, pair-lt p q (x % q) (y / q) (mod-lt x q_pos) (high-lt y h), pq)

div_unique : (n p v rest : ℕ) → n ≡ v * p + rest → rest < p → n / p ≡ v
div_unique n p v rest e h = grind arith

module _ (r : ℕ) (r_pos : 0 < r) (r_lt : r < 16) where
  parts : 2 ^ r * 2 ^ (16 - r) ≡ 2 ^ 16
  parts = pow-split r 16 (omega arith)

  parts' : 2 ^ (16 - r) * 2 ^ r ≡ 2 ^ 16
  parts' = omega (arith, parts)

  join_left-eq :
      (high low : ℕ)
      → low < 2 ^ 16
      → join_left r high low ≡ high % 2 ^ (16 - r) * 2 ^ r + low / 2 ^ (16 - r)
  unfolding join_left
  join_left-eq high low h =
      let same : low % 2 ^ 32 ≡ low = omega arith in
      rw (same, bit_or_high_low r high (low / 2 ^ (16 - r)) (high-lt _ _ parts (pow-pos _) low h))
        (omega (
          arith,
          cut _ _ parts (pow-pos _) high,
          joined-lt _ _ parts (pow-pos (16 - r)) high low h,
        ))

  join_right-eq :
      (low high : ℕ)
      → low < 2 ^ 16
      → high < 2 ^ 16
      → join_right r low high ≡ high % 2 ^ r * 2 ^ (16 - r) + low / 2 ^ r
  unfolding join_right
  join_right-eq low high h k =
      let same : low % 2 ^ 32 ≡ low = omega arith in
      let kept : high * 2 ^ (16 - r) % 2 ^ 16 ≡ high % 2 ^ r * 2 ^ (16 - r) =
        omega
          (arith, cut _ _ parts' (pow-pos _) high, joined-lt _ _ parts' (pow-pos r) high high k) in
      rw (same, kept)
        (bit_or_low_high (16 - r) (high % 2 ^ r) (low / 2 ^ r)
          (high-lt _ _ parts' (pow-pos _) low h))

  -- Shifting by less than a limb multiplies, modulo 2 ^ 64.
  value-bits_left : (a : MutableLong) → IsValid a → value (bits_left a r) ≡ value a * 2 ^ r % 2 ^ 64
  unfolding bits_left
  value-bits_left a v =
      rw
        (
          join_left-eq a.b48 a.b32 v.in32,
          join_left-eq a.b32 a.b16 v.in16,
          join_left-eq a.b16 a.b00 v.in00,
        )
        (omega (
          arith,
          cut _ _ parts (pow-pos _) a.b00,
          cut _ _ parts (pow-pos _) a.b16,
          cut _ _ parts (pow-pos _) a.b32,
          cut _ _ parts (pow-pos _) a.b48,
          joined-lt _ _ parts (pow-pos (16 - r)) a.b00 0 (omega arith),
          joined-lt _ _ parts (pow-pos (16 - r)) a.b16 a.b00 v.in00,
          joined-lt _ _ parts (pow-pos (16 - r)) a.b32 a.b16 v.in16,
          joined-lt _ _ parts (pow-pos (16 - r)) a.b48 a.b32 v.in32,
        ))

  bits_left-IsValid : (a : MutableLong) → IsValid (bits_left a r)
  unfolding bits_left join_left
  bits_left-IsValid a = omega arith

  -- Shifting right by less than a limb divides.
  value-bits_right : (a : MutableLong) → IsValid a → value (bits_right a r) ≡ value a / 2 ^ r
  unfolding bits_right
  value-bits_right a v =
      let same : a.b48 % 2 ^ 32 ≡ a.b48 = omega arith in
      rw
        (
          join_right-eq a.b00 a.b16 v.in00 v.in16,
          join_right-eq a.b16 a.b32 v.in16 v.in32,
          join_right-eq a.b32 a.b48 v.in32 v.in48,
          same,
        )
        (sym (
          div_unique (value a) (2 ^ r) _ (a.b00 % 2 ^ r)
            (omega (
              arith,
              div-add-mod a.b00 (2 ^ r),
              div-add-mod a.b16 (2 ^ r),
              div-add-mod a.b32 (2 ^ r),
              div-add-mod a.b48 (2 ^ r),
              ap (λ (t : ℕ). a.b16 % 2 ^ r * t) parts,
              ap (λ (t : ℕ). a.b32 % 2 ^ r * t) parts,
              ap (λ (t : ℕ). a.b48 % 2 ^ r * t) parts,
            ))
            (mod-lt a.b00 (pow-pos r))))

-- Whole limbs.
abbrev moved_left : MutableLong → ℕ → MutableLong
moved_left a p = if ltb 0 p then move_left a p else a

abbrev moved_right : MutableLong → ℕ → MutableLong
moved_right a p = if ltb 0 p then move_right a p else a

moved_left-IsValid : (a : MutableLong) (p : ℕ) → IsValid a → IsValid (moved_left a p)
unfolding move_left
moved_left-IsValid a p v = ground arith

value-moved_left :
    (a : MutableLong) (p : ℕ)
    → IsValid a
    → p < 4
    → value (moved_left a p) ≡ value a * 2 ^ (16 * p) % 2 ^ 64
unfolding move_left
value-moved_left a zero v h = omega arith
value-moved_left a (suc zero) v h = omega arith
value-moved_left a (suc (suc zero)) v h = omega arith
value-moved_left a (suc (suc (suc zero))) v h = omega arith
value-moved_left a (suc (suc (suc (suc p)))) v h = absurd (omega arith)

moved_right-IsValid : (a : MutableLong) (p : ℕ) → IsValid a → IsValid (moved_right a p)
unfolding move_right
moved_right-IsValid a p v = ground arith

value-moved_right :
    (a : MutableLong) (p : ℕ) → IsValid a → p < 4 → value (moved_right a p) ≡ value a / 2 ^ (16 * p)
unfolding move_right
value-moved_right a zero v h = omega arith
value-moved_right a (suc zero) v h = omega arith
value-moved_right a (suc (suc zero)) v h = omega arith
value-moved_right a (suc (suc (suc zero))) v h = omega arith
value-moved_right a (suc (suc (suc (suc p)))) v h = absurd (omega arith)

pow_parts : (p r n : ℕ) → p + r ≡ n → 2 ^ p * 2 ^ r ≡ 2 ^ n
pow_parts p r n e = let rest : n - p ≡ r = omega arith in rw (← rest) (pow-split p n (omega arith))

far_left : (x n : ℕ) → 64 ≤ n → 0 ≡ x * 2 ^ n % 2 ^ 64
far_left x n h =
    let e : 2 ^ n ≡ 2 ^ (n - 64) * 2 ^ 64 = omega (arith, pow_parts 64 (n - 64) n (omega arith)) in
    rw e (omega arith)

far_right : (x n : ℕ) → x < 2 ^ 64 → 64 ≤ n → 0 ≡ x / 2 ^ n
far_right x n b h = sym (
    div_unique x (2 ^ n) 0 x (omega arith) (
      omega (
        arith,
        pow_parts 64 (n - 64) n (omega arith),
        ap (λ (t : ℕ). t * 2 ^ 64) (pow_parts 0 (n - 64) (n - 64) (omega arith)),
        pow-pos (n - 64),
      )))

join_shifts : (x p r n : ℕ) → p + r ≡ n → x * 2 ^ p % 2 ^ 64 * 2 ^ r % 2 ^ 64 ≡ x * 2 ^ n % 2 ^ 64
join_shifts x p r n e =
    rw (← pow_parts p r n e)
      (omega (arith, ap (λ (t : ℕ). t * 2 ^ r) (div-add-mod (x * 2 ^ p) (2 ^ 64))))

bits_left_total :
    (a : MutableLong) (r : ℕ)
    → IsValid a
    → r < 16
    → value (if ltb 0 r then bits_left a r else a) ≡ value a * 2 ^ r % 2 ^ 64
bits_left_total a zero v h = omega arith
bits_left_total a (suc r) v h =
    rw (lt→ltb 0 (suc r) (omega arith)) (value-bits_left (suc r) (omega arith) h a v)

bits_right_total :
    (a : MutableLong) (r : ℕ)
    → IsValid a
    → r < 16
    → value (if ltb 0 r then bits_right a r else a) ≡ value a / 2 ^ r
bits_right_total a zero v h = omega arith
bits_right_total a (suc r) v h =
    rw (lt→ltb 0 (suc r) (omega arith)) (value-bits_right (suc r) (omega arith) h a v)

module _ (a : MutableLong) (n : ℕ) (v : IsValid a) (h : n < 64) where
  near_left :
      value (
        if ltb 0 (n % 16)
        then bits_left (moved_left a (n / 16)) (n % 16)
        else moved_left a (n / 16))
      ≡ value a * 2 ^ n % 2 ^ 64
  near_left =
      rw
        (
          bits_left_total (moved_left a (n / 16)) (n % 16) (moved_left-IsValid a (n / 16) v)
              (omega arith),
          value-moved_left a (n / 16) v (omega arith),
        )
        (join_shifts (value a) (16 * (n / 16)) (n % 16) n (omega arith))

  near_right :
      value (
        if ltb 0 (n % 16)
        then bits_right (moved_right a (n / 16)) (n % 16)
        else moved_right a (n / 16))
      ≡ value a / 2 ^ n
  near_right =
      rw
        (
          bits_right_total (moved_right a (n / 16)) (n % 16) (moved_right-IsValid a (n / 16) v)
              (omega arith),
          value-moved_right a (n / 16) v (omega arith),
          div-div-eq-div-mul (value a) (2 ^ (16 * (n / 16))) (2 ^ (n % 16)),
          pow_parts (16 * (n / 16)) (n % 16) n (omega arith),
        )
        refl

suc-ne-zero : (n : ℕ) → (suc n == 0) ≡ false
suc-ne-zero n = ground arith

-- `shiftLeft(n)` multiplies by 2 ^ n modulo 2 ^ 64, for every n.
pub value-shift_left :
    (a : MutableLong) (n : ℕ) → IsValid a → value (shift_left a n) ≡ value a * 2 ^ n % 2 ^ 64
unfolding shift_left to_zero
value-shift_left a zero v = omega arith
value-shift_left a (suc n) v = elim (Bool-cases (leb 64 (suc n))) [
  | inl far ↦ rw (suc-ne-zero n, far) (far_left (value a) (suc n) (leb→le _ _ far))
  | inr near ↦ rw (suc-ne-zero n, near) (near_left a (suc n) v (ground arith))
]

-- `shiftRightUnsigned(n)` divides the unsigned reading by 2 ^ n, for every n.
pub value-shift_right_unsigned :
    (a : MutableLong) (n : ℕ) → IsValid a → value (shift_right_unsigned a n) ≡ value a / 2 ^ n
unfolding shift_right_unsigned to_zero
value-shift_right_unsigned a zero v = omega arith
value-shift_right_unsigned a (suc n) v = elim (Bool-cases (leb 64 (suc n))) [
  | inl far ↦ rw (suc-ne-zero n, far) (far_right (value a) (suc n) (value-lt a v) (leb→le _ _ far))
  | inr near ↦ rw (suc-ne-zero n, near) (near_right a (suc n) v (ground arith))
]
