-- ===== src/Mapper/Tree/Tests.antt =====
-- lib/mapping/tree.js: tests of the tree.
use integration_hell.Common.{◌≡◌, refl, Bool, some, List, [], ◌∷◌, ◌==◌, ==_iff, ℕ}
use integration_hell.Mapper.Tree.{empty_tree, get_or_create}
use integration_hell.Mapper.Tree.Store.{
  Call, call, after, given, first_given, get_or_create-first_given,
}

abbrev same : ℕ → ℕ → Bool
same a b = a == b

-- The third call splits the first key, and the fourth finds the node where it was split.
abbrev calls : List (Call ℕ ℕ)
calls =
    (record { first = 1; others = 2 ∷ 3 ∷ []; value = 10 })
    ∷ (record { first = 4; others = []; value = 20 })
    ∷ (record { first = 1; others = 2 ∷ 5 ∷ []; value = 30 })
    ∷ (record { first = 1; others = 2 ∷ []; value = 40 })
    ∷ []

abbrev again : Call ℕ ℕ
again = record { first = 1; others = 2 ∷ 3 ∷ []; value = 50 }

get_or_create-first_given_example :
    (call same ==_iff (after same ==_iff empty_tree calls) again).1
    ≡ some (given again.value (first_given same ==_iff calls (1 ∷ 2 ∷ 3 ∷ [])))
get_or_create-first_given_example = get_or_create-first_given same ==_iff calls again

what_is_given : (call same ==_iff (after same ==_iff empty_tree calls) again).1 ≡ some 10
unfolding get_or_create
what_is_given = refl

-- Four values are there, and three of them were counted.
not_counted : (after same ==_iff empty_tree calls).length ≡ 3
unfolding get_or_create
not_counted = refl
