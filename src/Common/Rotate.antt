-- ===== src/Common/Rotate.antt =====
-- A list read round from a start index.
use native.Mathlib.Nat.{mod-eq_of_lt, mod-eq-sub-mod}
use integration_hell.Common.Compare.{if◌then◌else◌, ltb, Bool-cases}
use integration_hell.Common.Lists.{
  length, get_elem?, take, drop, take-append-drop, length-take, length-drop, length-append,
}
use integration_hell.Common.Counts.{SameItems, count, count-append}
use Prim.Native.Nat.{ℕ, zero, suc, ◌+◌, ◌-◌, ◌%◌, ◌≤◌, ◌<◌}
use mathlib.Core.Path.{◌≡◌, refl, ap, ◌∙◌}
use mathlib.Core.Logic.{inl, inr}
use mathlib.Core.Bool.{true, false}
use mathlib.Core.Option.{some}
use mathlib.Core.List.{List, [], ◌∷◌, ◌++◌}
use native.Mathlib.Omega.{arith}

-- An index that has gone round at most once.
wrapped : (k i n : ℕ) → k < n → i < n → (k + i) % n ≡ (if ltb (k + i) n then k + i else k + i - n)
wrapped k i n hk hi = ground (
  arith,
  mod-eq_of_lt {n = k + i} {m = n},
  mod-eq-sub-mod {n = k + i} {m = n},
  mod-eq_of_lt {n = k + i - n} {m = n},
)

lt_wrap : (k i n : ℕ) → ltb i (n - k) ≡ true → ltb (k + i) n ≡ true
lt_wrap k i n h = ground arith

ge_wrap : (k i n : ℕ) → k < n → ltb i (n - k) ≡ false → ltb (k + i) n ≡ false
ge_wrap k i n h e = ground arith

before_start : (k i n : ℕ) → k < n → i < n → ltb i (n - k) ≡ false → k + i - n < k
before_start k i n hk hi e = ground arith

shifted : (k i n : ℕ) → k < n → i - (n - k) ≡ k + i - n
shifted k i n h = omega arith

module _ {ℓ} {A : Type ℓ} where
  pub get_elem?-append :
      (xs ys : List A) (i : ℕ)
      → get_elem? (xs ++ ys) i
        ≡ (if ltb i (length xs) then get_elem? xs i else get_elem? ys (i - length xs))
  get_elem?-append [] ys i = ground arith
  get_elem?-append (x ∷ xs) ys zero = ground arith
  get_elem?-append (x ∷ xs) ys (suc i) = ground (arith, get_elem?-append xs ys i)

  get_elem?-drop : (k : ℕ) (xs : List A) (i : ℕ) → get_elem? (drop k xs) i ≡ get_elem? xs (k + i)
  get_elem?-drop zero xs i = ap (get_elem? xs) (omega arith)
  get_elem?-drop (suc k) [] i = refl
  get_elem?-drop (suc k) (x ∷ xs) i =
      get_elem?-drop k xs i ∙ ap (get_elem? (x ∷ xs)) {x = suc (k + i)} (omega arith)

  get_elem?-take : (k : ℕ) (xs : List A) (i : ℕ) → i < k → get_elem? (take k xs) i ≡ get_elem? xs i
  get_elem?-take zero xs i h = absurd (omega arith)
  get_elem?-take (suc k) [] i h = refl
  get_elem?-take (suc k) (x ∷ xs) zero h = refl
  get_elem?-take (suc k) (x ∷ xs) (suc i) h = get_elem?-take k xs i (omega arith)

  pub lt-get_elem? : (xs : List A) (i : ℕ) → i < length xs → (x : A) × (get_elem? xs i ≡ some x)
  lt-get_elem? [] i h = absurd (omega arith)
  lt-get_elem? (x ∷ xs) zero h = (x, refl)
  lt-get_elem? (x ∷ xs) (suc i) h = lt-get_elem? xs i (omega arith)

  pub drop-get_elem? :
      (xs : List A) (i : ℕ) (x : A) → get_elem? xs i ≡ some x → drop i xs ≡ x ∷ drop (suc i) xs
  drop-get_elem? [] i x h = cc
  drop-get_elem? (y ∷ xs) zero x h = cc
  drop-get_elem? (y ∷ xs) (suc i) x h = drop-get_elem? xs i x h

  pub drop-length : (xs : List A) (n : ℕ) → length xs ≤ n → drop n xs ≡ []
  drop-length [] zero h = refl
  drop-length [] (suc n) h = refl
  drop-length (x ∷ xs) zero h = absurd (omega arith)
  drop-length (x ∷ xs) (suc n) h = drop-length xs n (omega arith)

  -- The elements of `xs` from index `k` on, and then those before it.
  abbrev pub rotate : ℕ → List A → List A
  rotate k xs = drop k xs ++ take k xs

  pub length-rotate : (k : ℕ) (xs : List A) → length (rotate k xs) ≡ length xs
  length-rotate k xs =
      omega (arith, length-append (drop k xs) (take k xs), length-drop k xs, length-take k xs)

  pub SameItems-rotate : (k : ℕ) (xs : List A) → SameItems (rotate k xs) xs
  SameItems-rotate k xs p = omega (
    arith,
    count-append p (drop k xs) (take k xs),
    count-append p (take k xs) (drop k xs),
    ap (count p) (take-append-drop k xs),
  )

  pub get_elem?-rotate :
      (xs : List A) (k i : ℕ)
      → k < length xs
      → i < length xs
      → get_elem? (rotate k xs) i ≡ get_elem? xs ((k + i) % length xs)
  get_elem?-rotate xs k i hk hi =
      rw (get_elem?-append (drop k xs) (take k xs) i, length-drop k xs, wrapped k i _ hk hi)
        (elim (Bool-cases (ltb i (length xs - k))) [
          | inl near ↦ rw (near, lt_wrap k i (length xs) near) (get_elem?-drop k xs i)
          | inr far ↦
              rw (far, ge_wrap k i (length xs) hk far, shifted k i (length xs) hk)
                (get_elem?-take k xs (k + i - length xs) (before_start k i (length xs) hk hi far))
        ])
