-- ===== src/Utils/Tests.antt =====
-- lib/utils.js: tests of its functions.
use integration_hell.Common.{
  map, refl, zero, suc, ltb, if◌then◌else◌, get_elem?, ℕ, ◌+◌, ◌≤◌, ◌<◌, ◌≡◌, arith, Bool, false,
  List, [], ◌∷◌, ◌++◌, Option, none, some, length, replicate, ◌==◌, ==_iff,
}
use integration_hell.Common.Int.{pos}
use integration_hell.Common.Counts.{count, one_if}
use integration_hell.Utils.Callbacks.{each, parallel, times, times_limit, below}
use integration_hell.Utils.Callbacks.Outcome.{outcome, each-outcome}
use integration_hell.Utils.Callbacks.Limit.{times_limit-bound, times_limit_done}
use integration_hell.Utils.Search.{Sign, negative, nothing, positive, Position, binary_search}
use integration_hell.Utils.Search.Sorted.{IsOrdered, IsPosition, binary_search-IsPosition}
use integration_hell.Utils.Resolver.{
  AddressResolver, failed, answered, new_resolver, with_addresses, resolve, init,
}
use integration_hell.Utils.Resolver.Ready.{Event, refreshing, answer, getting}
use integration_hell.Utils.Mapping.{results, map_each}
use integration_hell.Utils.Mapping.Results.{success, map_each-results}
use integration_hell.Utils.HashSet.{contains, empty, to_array}
use integration_hell.Utils.HashSet.Refinement.{
  Operation, adding, removing, run, members_after, answers, Told, run-Represents,
}
use integration_hell.Utils.Uvint.{uvint_pack}
use integration_hell.Utils.Uvint.RoundTrip.{unpacked, unpacked-uvint_pack}

unpacked-uvint_pack_example :
    (bytes : List ℕ) × (uvint_pack 70000 ≡ some bytes)
    × (unpacked (bytes ++ 9 ∷ []) ≡ some (pos 70000, length bytes))
unpacked-uvint_pack_example = unpacked-uvint_pack 70000 (9 ∷ []) (omega arith)

abbrev codes : List (Option ℕ)
codes = none ∷ some 7 ∷ none ∷ []

each-outcome_example :
    (each 3 codes ≡ outcome 3 codes)
    × (times 3 codes ≡ outcome 3 codes)
    × (parallel 3 codes ≡ outcome 3 codes)
    × ((times_limit 3 2 codes).called ≡ outcome 3 codes)
each-outcome_example = each-outcome 3 2 codes (omega arith) (omega arith)

times_limit-bound_example :
    (n : ℕ) × ((times_limit {E = ℕ} 10 3 (replicate 4 none)).begun ≡ below n)
    × (4 < n)
    × (n ≤ 4 + 3)
    × (n ≤ 10)
    × ((times_limit {E = ℕ} 10 3 (replicate 4 none)).called ≡ [])
times_limit-bound_example = times_limit-bound 10 3 (omega arith) (omega arith) 4 (omega arith)

times_limit_done_example :
    ((times_limit {E = ℕ} 10 3 (replicate 10 none)).begun ≡ below 10)
    × ((times_limit {E = ℕ} 10 3 (replicate 10 none)).called ≡ none ∷ [])
times_limit_done_example = times_limit_done 10 3 (omega arith) (omega arith)

abbrev operations : List (Operation ℕ)
operations = adding 5 ∷ adding 6 ∷ adding 5 ∷ removing 5 ∷ []

abbrev same : ℕ → ℕ → Bool
same a b = a == b

run-Represents_example :
    ((key : ℕ)
      → (contains same (run same ==_iff empty operations).0 key
          ≡ members_after same ==_iff (λ k. false) operations key)
        × (count (same key) (to_array (run same ==_iff empty operations).0)
            ≡ one_if (members_after same ==_iff (λ k. false) operations key)))
    × ((run same ==_iff empty operations).0.length
        ≡ length (to_array (run same ==_iff empty operations).0))
    × Told same ==_iff operations
        (answers same ==_iff (λ k. false) operations)
        (run same ==_iff empty operations).1
run-Represents_example = run-Represents same ==_iff operations

abbrev compare_numbers : ℕ → ℕ → Sign
compare_numbers a b = if ltb a b then negative else if ltb b a then positive else nothing

abbrev numbers : List ℕ
numbers = 2 ∷ 9 ∷ []

ascending :
    (i j x y : ℕ) → i ≤ j → get_elem? numbers i ≡ some x → get_elem? numbers j ≡ some y → x ≤ y
ascending zero zero x y h e f = ground arith
ascending zero (suc zero) x y h e f = ground arith
ascending zero (suc (suc j)) x y h e f = ground arith
ascending (suc i) zero x y h e f = ground arith
ascending (suc zero) (suc zero) x y h e f = ground arith
ascending (suc (suc i)) (suc zero) x y h e f = ground arith
ascending (suc i) (suc (suc j)) x y h e f = ground arith

numbers-IsOrdered : IsOrdered compare_numbers numbers 6
numbers-IsOrdered i j x y h e f =
    let up = ascending i j x y h e f in (λ less. ground arith, λ greater. ground arith)

binary_search-IsPosition_example :
    (p : Position) × (binary_search compare_numbers numbers 6 ≡ some p)
    × IsPosition compare_numbers numbers 6 p
binary_search-IsPosition_example =
    binary_search-IsPosition compare_numbers numbers 6 numbers-IsOrdered

abbrev resolved : AddressResolver ℕ
resolved = with_addresses (new_resolver 0 false) (31 ∷ 32 ∷ [])

first_answer : init (new_resolver 0 false) (answered (31 ∷ 32 ∷ [])) ≡ some resolved
unfolding init resolve
first_answer = refl

abbrev events : List (Event ℕ)
events = getting ∷ refreshing ∷ answer failed ∷ getting ∷ []

abbrev finishing : List ℕ
finishing = 1 ∷ 0 ∷ []

both_finish : (i : ℕ) → i < length finishing → (k : ℕ) × (get_elem? finishing k ≡ some i)
both_finish zero h = (1, refl)
both_finish (suc zero) h = (0, refl)
both_finish (suc (suc i)) h = absurd (omega arith)

map_each-results_example :
    (r : List (Option ℕ)) × (map_each {E = ℕ} 2 (map (success (λ i. i + 10)) finishing)
      ≡ results r ∷ [])
    × (length r ≡ 2)
    × ((i : ℕ) → i < 2 → get_elem? r i ≡ some (some (i + 10)))
map_each-results_example = map_each-results (λ i. i + 10) finishing both_finish
