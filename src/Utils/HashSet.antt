-- ===== src/Utils/HashSet.antt =====
-- lib/utils.js: `HashSet`. `items` is the list of the keys of the object that the set keeps, whose
-- values are all true, in the order in which they are added; `Object.keys` may put keys that are
-- numbers first. Keys are of a type with a test for equality; `__proto__`, which is no key of an
-- object's own, is left out. The result of `remove` is none where it is undefined.
pub mod Refinement
use integration_hell.Common.{
  ℕ, zero, suc, ◌+◌, ◌-◌, Bool, true, false, not, ◌&&◌, ◌||◌, Option, none, some, List, [], ◌∷◌,
  ◌++◌, ltb, if◌then◌else◌,
}
use integration_hell.Common.Counts.{keep}

pub record HashSet {ℓ} (K : Type ℓ) : Type ℓ where
  pub length : ℕ
  pub items : List K

abbrev pub empty {ℓ} : {K : Type ℓ} → HashSet K
empty = record { length = 0; items = [] }

module _ {ℓ} {K : Type ℓ} (same : K → K → Bool) where
  abbrev pub has : List K → K → Bool
  has [] key = false
  has (x ∷ xs) key = same key x || has xs key

  unfoldable pub contains : HashSet K → K → Bool
  contains s key = ltb 0 s.length && has s.items key

  unfoldable pub add : HashSet K → K → HashSet K × Bool
  unfolding contains
  add s key = if contains s key then (s, false) else (
    record {
      length = s.length + 1;
      items = if has s.items key then s.items else s.items ++ key ∷ [];
    },
    true,
  )

  unfoldable pub remove : HashSet K → K → HashSet K × Option Bool
  unfolding contains
  remove s key =
      if contains s key
      then (record { length = s.length - 1; items = keep (λ x. not (same key x)) s.items }, none)
      else (s, some false)

abbrev pub to_array {ℓ} : {K : Type ℓ} → HashSet K → List K
to_array s = s.items
