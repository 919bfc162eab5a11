-- ===== src/Utils/Search/Sorted.antt =====
-- lib/utils.js: what `binarySearch` finds.
use mathlib.Core.Path.{subst}
use integration_hell.Common.{
  ℕ, zero, suc, ◌+◌, ◌-◌, ◌/◌, ◌≤◌, ◌<◌, ◌≡◌, refl, sym, ap, ◌∙◌, ◌⊎◌, arith, true, false,
  Bool-cases, inl, inr, Option, none, some, List, [], ◌∷◌, length, get_elem?, ltb,
}
use integration_hell.Utils.Search.{
  Sign, negative, nothing, positive, Position, index, complement, Round, found, narrowed, lost,
  branch, sign_of, round, search, binary_search,
}

get_elem?-inside {ℓ} :
    {A : Type ℓ} (xs : List A) (i : ℕ) → i < length xs → (x : A) × (get_elem? xs i ≡ some x)
get_elem?-inside [] i h = absurd (omega arith)
get_elem?-inside (x ∷ xs) zero h = (x, refl)
get_elem?-inside (x ∷ xs) (suc i) h = get_elem?-inside xs i (omega arith)

module _ {ℓ κ} {A : Type ℓ} {K : Type κ} (compare_func : A → K → Sign) (arr : List A)
    (key : K) where
  -- The elements below the key stand before all others, and those above it after all others.
  abbrev pub IsOrdered : Type ℓ
  IsOrdered =
      (i j : ℕ) (x y : A)
      → i ≤ j
      → get_elem? arr i ≡ some x
      → get_elem? arr j ≡ some y
      → (compare_func y key ≡ negative → compare_func x key ≡ negative)
        × (compare_func x key ≡ positive → compare_func y key ≡ positive)

  abbrev pub AllBefore : ℕ → Type ℓ
  AllBefore n = (j : ℕ) (x : A) → j < n → get_elem? arr j ≡ some x → compare_func x key ≡ negative

  abbrev pub AllFrom : ℕ → Type ℓ
  AllFrom n = (j : ℕ) (x : A) → n ≤ j → get_elem? arr j ≡ some x → compare_func x key ≡ positive

  -- An element that is equal to the key, or the place between those below it and those above it.
  abbrev pub IsPosition : Position → Type ℓ
  IsPosition (index i) = (x : A) × (get_elem? arr i ≡ some x) × (compare_func x key ≡ nothing)
  IsPosition (complement i) = (i ≤ length arr) × AllBefore i × AllFrom i

  abbrev Result : Option Position → Type ℓ
  Result r = (p : Position) × (r ≡ some p) × IsPosition p

  Sign-cases : (s : Sign) → (s ≡ negative) ⊎ ((s ≡ positive) ⊎ (s ≡ nothing))
  Sign-cases negative = inl refl
  Sign-cases positive = inr (inl refl)
  Sign-cases nothing = inr (inr refl)

  round_sign :
      (low after : ℕ) (v : A) (s : Sign)
      → low < after
      → get_elem? arr ((low + after - 1) / 2) ≡ some v
      → compare_func v key ≡ s
      → round compare_func arr key low after ≡ branch low ((low + after - 1) / 2) after (some s)
  unfolding round
  round_sign low after v s room at sign =
      let more : ltb low after ≡ true = ground arith in
      rw more (
        ap (λ x. branch low ((low + after - 1) / 2) after (sign_of compare_func key x)) at
        ∙ ap (λ x. branch low ((low + after - 1) / 2) after (some x)) sign)

  round_end :
      (low after : ℕ) → after ≤ low → round compare_func arr key low after ≡ found (complement low)
  unfolding round
  round_end low after h = let over : ltb low after ≡ false = ground arith in rw over refl

  move : ℕ → Round → Option Position
  move fuel (found position) = some position
  move fuel (narrowed low after) = search compare_func fuel arr key low after
  move fuel lost = none

  narrows :
      (fuel low after low' after' : ℕ)
      → round compare_func arr key low after ≡ narrowed low' after'
      → Result (search compare_func fuel arr key low' after')
      → Result (search compare_func (suc fuel) arr key low after)
  unfolding search move
  narrows fuel low after low' after' e r = subst Result (sym (ap (move fuel) e)) r

  ends :
      (fuel low after : ℕ) (p : Position)
      → round compare_func arr key low after ≡ found p
      → IsPosition p
      → Result (search compare_func (suc fuel) arr key low after)
  unfolding search move
  ends fuel low after p e r = subst Result (sym (ap (move fuel) e)) (p, refl, r)

  search-IsPosition :
      (fuel low after : ℕ)
      → IsOrdered
      → after < fuel + low
      → low ≤ after
      → after ≤ length arr
      → AllBefore low
      → AllFrom after
      → Result (search compare_func fuel arr key low after)
  unfolding search
  search-IsPosition zero low after ordered enough inside fits before later = absurd (omega arith)
  search-IsPosition (suc fuel) low after ordered enough inside fits before later =
      elim (Bool-cases (ltb low after)) [
        | inr over ↦
            ends fuel low after (complement low) (round_end low after (ground arith))
              (omega arith, before, λ j x h. later j x (ground arith))
        | inl more ↦
            let room : low < after = ground arith in
            let mid = (low + after - 1) / 2 in
            let low_mid : low ≤ mid = omega arith in
            let mid_after : mid < after = omega arith in
            let (v, at) = get_elem?-inside arr mid (omega arith) in
            elim (Sign-cases (compare_func v key)) [
              | inl less ↦
                  narrows fuel low after (mid + 1) after
                    (round_sign low after v negative room at less)
                    (search-IsPosition fuel (mid + 1) after ordered (omega arith) (omega arith) fits
                      (λ j x h e. (ordered j mid x v (omega arith) e at).0 less) later)
              | inr (inl greater) ↦
                  narrows fuel low after low mid (round_sign low after v positive room at greater) (
                    search-IsPosition fuel low mid ordered (omega arith) low_mid (omega arith)
                      before (λ j x h e. (ordered mid j v x h at e).1 greater))
              | inr (inr equal) ↦
                  ends fuel low after (index mid) (round_sign low after v nothing room at equal)
                    (v, at, equal)
            ]
      ]

  -- In an array that is ordered about the key, `binarySearch` ends with an element that is equal to
  -- the key, where it gives an index, and where it gives the complement of one, all elements before
  -- that are below the key and all from there on are above it.
  pub binary_search-IsPosition :
      IsOrdered → (p : Position) × (binary_search compare_func arr key ≡ some p) × IsPosition p
  unfolding binary_search
  binary_search-IsPosition ordered =
      search-IsPosition (suc (length arr)) 0 (length arr) ordered (omega arith) (omega arith)
        (omega arith) (λ j x h e. absurd (omega arith)) (λ j x h e. absurd (outside arr j x h e))
    where
      outside : (xs : List A) (j : ℕ) (x : A) → length xs ≤ j → ¬ (get_elem? xs j ≡ some x)
      outside [] j x h e = ground arith
      outside (y ∷ xs) zero x h e = absurd (omega arith)
      outside (y ∷ xs) (suc j) x h e = outside xs j x (omega arith) e
