-- ===== src/Utils/Mapping/Results.antt =====
-- lib/utils.js: the results of `mapEach` stand at the items' places.
use mathlib.Core.Path.{subst}
use integration_hell.Common.{
  ℕ, zero, suc, ◌+◌, ◌<◌, ◌≡◌, ◌≢◌, refl, sym, ap, ◌∙◌, arith, true, false, Bool-cases, inl, inr,
  Option, none, some, List, [], ◌∷◌, map, length, length-replicate, length-set, get_elem?, set,
  get_elem?-set_self, get_elem?-set_ne, replicate, ◌==◌,
}
use integration_hell.Utils.Mapping.{
  Called, results, Mapping, item_callback, item_callbacks, map_each,
}

module _ {ℓ} {B : Type ℓ} (g : ℕ → B) where
  abbrev writes : List ℕ → List (Option B) → List (Option B)
  writes [] r = r
  writes (i ∷ order) r = writes order (set r i (some (g i)))

  abbrev Holds : ℕ → List (Option B) → Type ℓ
  Holds i r = get_elem? r i ≡ some (some (g i))

  set-Holds :
      (i j : ℕ) (r : List (Option B)) → i < length r → Holds i r → Holds i (set r j (some (g j)))
  set-Holds i j r h e = elim (Bool-cases (j == i)) [
    | inl same ↦
        let at : j ≡ i = ground arith in
        subst (λ k. Holds i (set r k (some (g k)))) (sym at) (get_elem?-set_self r i (some (g i)) h)
    | inr apart ↦
        let other : j ≢ i = λ at. ground arith in get_elem?-set_ne r (some (g j)) other ∙ e
  ]

  writes-Holds :
      (order : List ℕ) (i : ℕ) (r : List (Option B))
      → i < length r
      → Holds i r
      → Holds i (writes order r)
  writes-Holds [] i r h e = e
  writes-Holds (j ∷ order) i r h e =
      let size = length-set r j (some (g j)) in
      writes-Holds order i (set r j (some (g j))) (omega arith) (set-Holds i j r h e)

  written :
      (order : List ℕ) (i k : ℕ) (r : List (Option B))
      → i < length r
      → get_elem? order k ≡ some i
      → Holds i (writes order r)
  written [] i k r h at = ground arith
  written (j ∷ order) i zero r h at =
      let same : j ≡ i = ground arith in
      let size = length-set r j (some (g j)) in
      writes-Holds order i (set r j (some (g j))) (omega arith) (
        subst (λ n. Holds i (set r n (some (g n)))) (sym same)
          (get_elem?-set_self r i (some (g i)) h))
  written (j ∷ order) i (suc k) r h at =
      let size = length-set r j (some (g j)) in
      written order i k (set r j (some (g j))) (omega arith) at

  length-writes : (order : List ℕ) (r : List (Option B)) → length (writes order r) ≡ length r
  length-writes [] r = refl
  length-writes (j ∷ order) r =
      length-writes order (set r j (some (g j))) ∙ length-set r j (some (g j))

module _ {ℓ} {E B : Type ℓ} (g : ℕ → B) where
  -- The call of an item that succeeds.
  abbrev pub success : ℕ → ℕ × Option E × B
  success i = (i, none, g i)

  module _ (count : ℕ) where
    abbrev state : ℕ → List (Option B) → List (Called E B) → Mapping E B
    state done r called = record { completed = done; live = true; result = r; called = called }

    one_more :
        (done i : ℕ) (r : List (Option B))
        → suc done < count
        → item_callback count (state done r []) i none (g i)
          ≡ state (suc done) (set r i (some (g i))) []
    unfolding item_callback
    one_more done i r h = let more : (suc done == count) ≡ false = ground arith in rw more refl

    the_last :
        (done i : ℕ) (r : List (Option B))
        → suc done ≡ count
        → item_callback count (state done r []) i none (g i)
          ≡ state (suc done) (set r i (some (g i))) (results (set r i (some (g i))) ∷ [])
    unfolding item_callback
    the_last done i r h = let last : (suc done == count) ≡ true = ground arith in rw last refl

    run_all :
        (order : List ℕ) (done : ℕ) (r : List (Option B))
        → 0 < length order
        → done + length order ≡ count
        → (item_callbacks count (state done r []) (map success order)).called
          ≡ results (writes g order r) ∷ []
    unfolding item_callbacks
    run_all [] done r h e = absurd (omega arith)
    run_all (i ∷ []) done r h e = ap (λ s. s.called) (the_last done i r (omega arith))
    run_all (i ∷ j ∷ order) done r h e =
        ap (λ s. (item_callbacks count s (map success (j ∷ order))).called)
          (one_more done i r (omega arith))
        ∙ run_all (j ∷ order) (suc done) (set r i (some (g i))) (omega arith) (omega arith)

  -- Where each of the items succeeds, once, in any order, the callback of `map` is called once, with as
  -- many results as there are items, each at the place of its item.
  pub map_each-results :
      (order : List ℕ)
      → ((i : ℕ) → i < length order → (k : ℕ) × (get_elem? order k ≡ some i))
      → (r : List (Option B)) × (map_each {E = E} (length order) (map success order)
          ≡ results r ∷ [])
        × (length r ≡ length order)
        × ((i : ℕ) → i < length order → get_elem? r i ≡ some (some (g i)))
  unfolding map_each
  map_each-results [] all_there = ([], refl, refl, λ i h. absurd (omega arith))
  map_each-results (j ∷ order) all_there =
      let whole = j ∷ order in
      let n = length whole in
      let none_yet : length (replicate {A = Option B} n none) ≡ n = length-replicate n none in
      let some_items : (n == 0) ≡ false = ground arith in
      (
        writes g whole (replicate n none),
        rw some_items (run_all n whole 0 (replicate n none) (omega arith) (omega arith)),
        length-writes g whole (replicate n none) ∙ none_yet,
        λ i h.
            let (k, at) = all_there i h in written g whole i k (replicate n none) (omega arith) at,
      )
