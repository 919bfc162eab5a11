-- ===== src/Policies/LoadBalancing.antt =====
-- lib/policies/load-balancing.js: what the policies share. A host is an object; `ref` stands for its
-- identity, by which the code compares hosts with `===`. An iterator is a state with a function
-- `next` that gives an item or `none` for `{ done: true }`, and the new state.
pub mod Round
pub mod RoundRobin
pub mod LocalDc
pub mod DcAware
pub mod TokenAware
pub mod DefaultPolicy
mod Tests
use Prim.Native.String.{String}
use integration_hell.Common.{
  ℕ, zero, suc, ◌+◌, ◌^◌, Bool, Option, none, some, List, [], ◌∷◌, leb, if◌then◌else◌, ◌≡◌, refl,
  ap,
}

pub record Host : Type 0 where
  pub ref : ℕ
  pub address : String
  pub datacenter : Option String
  pub is_up : Bool
  pub is_up_since : Option ℕ
  pub in_flight : ℕ
  pub response_count : ℕ

-- `types.distance`
pub data Distance : Type 0 where
  local remote ignored : Distance

-- `utils.maxInt`
abbrev pub max_int : ℕ
max_int = 2 ^ 53

-- `x++` on a double: past 2 ^ 53 the sum is rounded back to 2 ^ 53.
abbrev pub increment : ℕ → ℕ
increment x = if leb max_int x then max_int else x + 1

-- The items of an iterator, up to the first `done` or `fuel` calls of `next`.
pub drain : {S A : Type 0} → (S → Option A × S) → ℕ → S → List A
drain next zero s = []
drain next (suc fuel) s = elim ((next s).0) [
  | none ↦ []
  | some item ↦ item ∷ drain next fuel (next s).1
]

module _ {S A : Type 0} (next : S → Option A × S) (fuel : ℕ) (s : S) where
  pub drain-more :
      {s' : S} {x : A} → next s ≡ (some x, s') → drain next (suc fuel) s ≡ x ∷ drain next fuel s'
  unfolding drain
  drain-more {x = x} e =
      rw (ap (λ (t : Option A × S). t.0) e, drain)
        (ap (λ (t : Option A × S). x ∷ drain next fuel t.1) e)

  pub drain-done : (next s).0 ≡ none → drain next (suc fuel) s ≡ []
  unfolding drain
  drain-done e = rw (e, drain) refl

  -- Two states with one answer give the same items.
  pub drain-eq : (t : S) → next s ≡ next t → drain next (suc fuel) s ≡ drain next (suc fuel) t
  unfolding drain
  drain-eq t e =
      ap (λ (r : Option A × S). elim r.0 [ none ↦ [] | some item ↦ item ∷ drain next fuel r.1 ]) e
