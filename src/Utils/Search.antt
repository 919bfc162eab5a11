-- ===== src/Utils/Search.antt =====
-- lib/utils.js: `binarySearch` and `insertSorted`. `after` is `high + 1`, since `high` may be -1; the
-- fuel is a round more than there are elements. A result below 0 is the complement of an index. What
-- the comparison function gives is a number, of which the sign counts.
pub mod Sorted
use integration_hell.Common.{
  ℕ, zero, suc, ◌+◌, ◌-◌, ◌/◌, Option, none, some, List, [], ◌∷◌, ◌++◌, length, get_elem?, take,
  drop, ltb, if◌then◌else◌,
}

pub data Sign : Type 0 where
  negative : Sign
  nothing : Sign
  positive : Sign

pub data Position : Type 0 where
  index : ℕ → Position
  complement : ℕ → Position

-- What a round of the loop does: it ends, or goes on from `low` to `after`. It is lost where `mid` is
-- out of the array, which it never is.
pub data Round : Type 0 where
  found : Position → Round
  narrowed : ℕ → ℕ → Round
  lost : Round

abbrev pub branch : ℕ → ℕ → ℕ → Option Sign → Round
branch low mid after none = lost
branch low mid after (some negative) = narrowed (mid + 1) after
branch low mid after (some positive) = narrowed low mid
branch low mid after (some nothing) = found (index mid)

module _ {ℓ κ} {A : Type ℓ} {K : Type κ} (compare_func : A → K → Sign) where
  abbrev pub sign_of : K → Option A → Option Sign
  sign_of key none = none
  sign_of key (some mid_val) = some (compare_func mid_val key)

  unfoldable pub round : List A → K → ℕ → ℕ → Round
  round arr key low after =
      let mid = (low + after - 1) / 2 in
      if ltb low after
      then branch low mid after (sign_of key (get_elem? arr mid))
      else found (complement low)

  unfoldable pub search : ℕ → List A → K → ℕ → ℕ → Option Position
  search zero arr key low after = none
  search (suc fuel) arr key low after = elim (round arr key low after) [
    | found position ↦ some position
    | narrowed low' after' ↦ search fuel arr key low' after'
    | lost ↦ none
  ]

  unfoldable pub binary_search : List A → K → Option Position
  unfolding search
  binary_search arr key = search (suc (length arr)) arr key 0 (length arr)

abbrev place : Position → ℕ
place (index i) = i
place (complement i) = i

unfoldable pub insert_sorted {ℓ} : {A : Type ℓ} → (A → A → Sign) → List A → A → Option (List A)
unfolding binary_search
insert_sorted compare_func [] item = some (item ∷ [])
insert_sorted compare_func (x ∷ xs) item = elim (binary_search compare_func (x ∷ xs) item) [
  | none ↦ none
  | some position ↦ some (take (place position) (x ∷ xs) ++ item ∷ drop (place position) (x ∷ xs))
]
