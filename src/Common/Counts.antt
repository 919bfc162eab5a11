-- ===== src/Common/Counts.antt =====
-- Multisets of list elements, by counting what passes a test, and exchanging two elements.
use Prim.Native.Nat.{ℕ, zero, suc, ◌+◌, ◌≤◌}
use mathlib.Core.Path.{◌≡◌, refl}
use mathlib.Core.Bool.{Bool, true, false, not, ◌&&◌}
use mathlib.Core.Option.{Option, none, some}
use mathlib.Core.List.{List, [], ◌∷◌, ◌++◌}
use native.Mathlib.Omega.{arith}
use integration_hell.Common.Compare.{if◌then◌else◌}
use integration_hell.Common.Lists.{length, get_elem?, set, length-set}

abbrev pub one_if : Bool → ℕ
one_if true = 1
one_if false = 0

module _ {ℓ} {A : Type ℓ} where
  abbrev pub count : (A → Bool) → List A → ℕ
  count p [] = 0
  count p (x ∷ xs) = one_if (p x) + count p xs

  -- The same elements, each as often.
  abbrev pub SameItems : List A → List A → Type ℓ
  SameItems xs ys = (p : A → Bool) → count p xs ≡ count p ys

  abbrev pub keep : (A → Bool) → List A → List A
  keep p [] = []
  keep p (x ∷ xs) = if p x then x ∷ keep p xs else keep p xs

  pub count-append : (p : A → Bool) (xs ys : List A) → count p (xs ++ ys) ≡ count p xs + count p ys
  count-append p [] ys = omega arith
  count-append p (x ∷ xs) ys = omega (arith, count-append p xs ys)

  pub count-le-length : (p : A → Bool) (xs : List A) → count p xs ≤ length xs
  count-le-length p [] = omega arith
  count-le-length p (x ∷ xs) = ground (arith, count-le-length p xs)

  pub count-set :
      (p : A → Bool) (xs : List A) (i : ℕ) (v old : A)
      → get_elem? xs i ≡ some old
      → count p (set xs i v) + one_if (p old) ≡ count p xs + one_if (p v)
  count-set p [] i v old h = cc
  count-set p (x ∷ xs) zero v old h = ground arith
  count-set p (x ∷ xs) (suc i) v old h = omega (arith, count-set p xs i v old h)

  -- `temp = arr[i]; arr[i] = arr[j]; arr[j] = temp`; an index out of range changes nothing.
  abbrev swap_with : List A → ℕ → ℕ → Option A → Option A → List A
  swap_with xs i j (some a) (some b) = set (set xs i b) j a
  swap_with xs i j none b = xs
  swap_with xs i j (some a) none = xs

  pub swap : List A → ℕ → ℕ → List A
  swap xs i j = swap_with xs i j (get_elem? xs i) (get_elem? xs j)

module _ {ℓ} {A : Type ℓ} where
  get_elem?-set_other :
      (xs : List A) (i j : ℕ) (b : A) → get_elem? xs j ≡ some b → get_elem? (set xs i b) j ≡ some b
  get_elem?-set_other [] i j b h = cc
  get_elem?-set_other (x ∷ xs) zero zero b h = refl
  get_elem?-set_other (x ∷ xs) zero (suc j) b h = h
  get_elem?-set_other (x ∷ xs) (suc i) zero b h = h
  get_elem?-set_other (x ∷ xs) (suc i) (suc j) b h = get_elem?-set_other xs i j b h

  SameItems-swap_with :
      (xs : List A) (i j : ℕ) (x y : Option A)
      → get_elem? xs i ≡ x
      → get_elem? xs j ≡ y
      → SameItems (swap_with xs i j x y) xs
  SameItems-swap_with xs i j none y hi hj p = refl
  SameItems-swap_with xs i j (some a) none hi hj p = refl
  SameItems-swap_with xs i j (some a) (some b) hi hj p = omega (
    arith,
    count-set p xs i b a hi,
    count-set p (set xs i b) j a b (get_elem?-set_other xs i j b hj),
  )

  -- An exchange keeps the elements.
  pub SameItems-swap : (xs : List A) (i j : ℕ) → SameItems (swap xs i j) xs
  unfolding swap
  SameItems-swap xs i j = SameItems-swap_with xs i j (get_elem? xs i) (get_elem? xs j) refl refl

  length-swap_with :
      (xs : List A) (i j : ℕ) (x y : Option A) → length (swap_with xs i j x y) ≡ length xs
  length-swap_with xs i j none y = refl
  length-swap_with xs i j (some a) none = refl
  length-swap_with xs i j (some a) (some b) =
      omega (arith, length-set (set xs i b) j a, length-set xs i b)

  pub length-swap : (xs : List A) (i j : ℕ) → length (swap xs i j) ≡ length xs
  unfolding swap
  length-swap xs i j = length-swap_with xs i j (get_elem? xs i) (get_elem? xs j)

  pub count-keep : (p q : A → Bool) (xs : List A) → count p (keep q xs) ≤ count p xs
  count-keep p q [] = omega arith
  count-keep p q (x ∷ xs) = ground (arith, count-keep p q xs)

  -- A kept list splits a list in two.
  pub count-keep-not :
      (p q : A → Bool) (xs : List A)
      → count p (keep q xs) + count p (keep (λ x. not (q x)) xs) ≡ count p xs
  count-keep-not p q [] = omega arith
  count-keep-not p q (x ∷ xs) = ground (arith, count-keep-not p q xs)

module _ {ℓ} {A : Type ℓ} where
  -- What is kept and counted passes both tests.
  pub count-keep_and :
      (p q : A → Bool) (xs : List A) → count p (keep q xs) ≡ count (λ x. p x && q x) xs
  count-keep_and p q [] = refl
  count-keep_and p q (x ∷ xs) = ground (arith, count-keep_and p q xs)

  pub count-eq : (p q : A → Bool) → ((x : A) → p x ≡ q x) → (xs : List A) → count p xs ≡ count q xs
  count-eq p q h [] = refl
  count-eq p q h (x ∷ xs) = ground (arith, h x, count-eq p q h xs)

  pub count-none : (p : A → Bool) → ((x : A) → p x ≡ false) → (xs : List A) → count p xs ≡ 0
  count-none p h [] = refl
  count-none p h (x ∷ xs) = ground (arith, h x, count-none p h xs)
