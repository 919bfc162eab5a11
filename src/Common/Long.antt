-- ===== src/Common/Long.antt =====
-- The 64-bit integers of the package `long`, which the driver uses and does not implement: the
-- operations that the modelled code calls, with their documented results on integers that are not
-- negative and do not overflow.
use Prim.Native.Nat.{ℕ, zero, suc, ◌+◌, ◌-◌, ◌*◌, ◌/◌, ◌%◌, ◌^◌, ◌≤◌, ◌<◌}
use mathlib.Core.Path.{◌≡◌, refl, sym, ap, ◌∙◌, ap₂}
use mathlib.Core.Bool.{Bool, true, false}
use native.Mathlib.Omega.{arith}
use integration_hell.Common.Compare.{ltb, ◌==◌, lt→ltb}
use integration_hell.Common.Int.{ℤ, pos, negsuc, pos_part}

pub record LongOps : Type 1 where
  pub Long : Type 0
  -- The number of a long that is not negative.
  pub Is : Long → ℕ → Type 0
  pub from_number : ℕ → Long
  pub add : Long → Long → Long
  pub subtract : Long → Long → Long
  pub multiply : Long → Long → Long
  pub divide : Long → Long → Long
  pub modulo : Long → Long → Long
  pub greater_than : Long → Long → Bool
  pub less_than : Long → Long → Bool
  pub equals : Long → Long → Bool
  pub max_value : Long
  pub negate : Long → Long
  pub is_negative : Long → Bool
  -- The number that `toString` writes.
  pub written : Long → ℕ
  pub Is-functional : (a : Long) (x y : ℕ) → Is a x → Is a y → x ≡ y
  pub Is-from_number : (x : ℕ) → x < 2 ^ 63 → Is (from_number x) x
  pub Is-add : (a b : Long) (x y : ℕ) → Is a x → Is b y → x + y < 2 ^ 63 → Is (add a b) (x + y)
  pub Is-subtract : (a b : Long) (x y : ℕ) → Is a x → Is b y → y ≤ x → Is (subtract a b) (x - y)
  pub Is-multiply :
      (a b : Long) (x y : ℕ) → Is a x → Is b y → x * y < 2 ^ 63 → Is (multiply a b) (x * y)
  pub Is-divide : (a b : Long) (x y : ℕ) → Is a x → Is b y → 0 < y → Is (divide a b) (x / y)
  pub Is-modulo : (a b : Long) (x y : ℕ) → Is a x → Is b y → 0 < y → Is (modulo a b) (x % y)
  pub Is-greater_than : (a b : Long) (x y : ℕ) → Is a x → Is b y → greater_than a b ≡ ltb y x
  pub Is-less_than : (a b : Long) (x y : ℕ) → Is a x → Is b y → less_than a b ≡ ltb x y
  pub Is-equals : (a b : Long) (x y : ℕ) → Is a x → Is b y → equals a b ≡ (x == y)
  pub Is-max_value : Is max_value (2 ^ 63 - 1)
  pub Is-negate-negate : (a : Long) (x : ℕ) → Is a x → Is (negate (negate a)) x
  pub Is-is_negative : (a : Long) (x : ℕ) → Is a x → is_negative a ≡ false
  pub Is-is_negative-negate : (a : Long) (x : ℕ) → Is a x → is_negative (negate a) ≡ ltb 0 x
  pub Is-negate_zero : (a : Long) → Is a 0 → Is (negate a) 0
  -- The integers below zero do not equal a number above it.
  pub Is-equals-negate :
      (a b : Long) (x y : ℕ) → Is a x → Is b y → 0 < x → equals (negate a) b ≡ false
  pub Is-written : (a : Long) (x : ℕ) → Is a x → written a ≡ x

-- The operations on plain integers meet the interface.
abbrev lift : (ℕ → ℕ → ℕ) → ℤ → ℤ → ℤ
lift f a b = pos (f (pos_part a) (pos_part b))

abbrev test : (ℕ → ℕ → Bool) → ℤ → ℤ → Bool
test f a b = f (pos_part a) (pos_part b)

abbrev opposite : ℤ → ℤ
opposite (pos zero) = pos 0
opposite (pos (suc n)) = negsuc n
opposite (negsuc n) = pos (suc n)

abbrev below_zero : ℤ → Bool
below_zero (pos n) = false
below_zero (negsuc n) = true

abbrev equal : ℤ → ℤ → Bool
equal (pos m) (pos n) = m == n
equal (negsuc m) (negsuc n) = m == n
equal (pos m) (negsuc n) = false
equal (negsuc m) (pos n) = false

pub lift_lem :
    (f : ℕ → ℕ → ℕ) (a b : ℤ) (x y : ℕ) → a ≡ pos x → b ≡ pos y → lift f a b ≡ pos (f x y)
lift_lem f a b x y p q = ap₂ (lift f) p q

pub test_lem : (f : ℕ → ℕ → Bool) (a b : ℤ) (x y : ℕ) → a ≡ pos x → b ≡ pos y → test f a b ≡ f x y
test_lem f a b x y p q = ap₂ (test f) p q

pub opposite_twice : (a : ℤ) → opposite (opposite a) ≡ a
opposite_twice (pos zero) = refl
opposite_twice (pos (suc n)) = refl
opposite_twice (negsuc n) = refl

pub below-opposite : (x : ℕ) → below_zero (opposite (pos x)) ≡ ltb 0 x
below-opposite zero = refl
below-opposite (suc n) = sym (lt→ltb 0 (suc n) (omega arith))

pub equal-opposite : (x y : ℕ) → 0 < x → equal (opposite (pos x)) (pos y) ≡ false
equal-opposite zero y h = ground arith
equal-opposite (suc n) y h = refl

abbrev pub plain_longs : LongOps
plain_longs = record {
  Long = ℤ;
  Is = λ a x. a ≡ pos x;
  from_number = pos;
  add = lift ◌+◌;
  subtract = lift ◌-◌;
  multiply = lift ◌*◌;
  divide = lift ◌/◌;
  modulo = lift ◌%◌;
  greater_than = test (λ a b. ltb b a);
  less_than = test ltb;
  equals = equal;
  max_value = pos (2 ^ 63 - 1);
  negate = opposite;
  is_negative = below_zero;
  written = pos_part;
  Is-functional = λ a x y p q. ap pos_part (sym p ∙ q);
  Is-from_number = λ x h. refl;
  Is-add = λ a b x y p q h. lift_lem ◌+◌ a b x y p q;
  Is-subtract = λ a b x y p q h. lift_lem ◌-◌ a b x y p q;
  Is-multiply = λ a b x y p q h. lift_lem ◌*◌ a b x y p q;
  Is-divide = λ a b x y p q h. lift_lem ◌/◌ a b x y p q;
  Is-modulo = λ a b x y p q h. lift_lem ◌%◌ a b x y p q;
  Is-greater_than = λ a b x y p q. test_lem (λ m n. ltb n m) a b x y p q;
  Is-less_than = λ a b x y p q. test_lem ltb a b x y p q;
  Is-equals = λ a b x y p q. ap₂ equal p q;
  Is-max_value = refl;
  Is-negate-negate = λ a x p. opposite_twice a ∙ p;
  Is-is_negative = λ a x p. ap below_zero p;
  Is-is_negative-negate = λ a x p. ap (λ b. below_zero (opposite b)) p ∙ below-opposite x;
  Is-negate_zero = λ a p. ap opposite p;
  Is-equals-negate = λ a b x y p q h. ap₂ (λ c d. equal (opposite c) d) p q ∙ equal-opposite x y h;
  Is-written = λ a x p. ap pos_part p;
}
