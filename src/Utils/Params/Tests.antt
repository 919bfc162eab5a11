-- ===== src/Utils/Params/Tests.antt =====
-- lib/utils.js: tests of the adaptation of parameters; a name is the code of a letter.
use integration_hell.Common.{
  ℕ, ◌+◌, ◌≡◌, refl, Bool, ◌&&◌, some, List, [], ◌∷◌, leb, ◌==◌, ==_iff, if◌then◌else◌, arith,
}
use integration_hell.Utils.Params.{named, array, adapted, not_defined, adapt_named_params_prepared}
use integration_hell.Utils.Params.Columns.{
  Outcome, adapt_named_params_prepared-Outcome, adapt_named_params_prepared_upper,
}

abbrev lower_case : ℕ → ℕ
lower_case c = if leb 65 c && leb c 90 then c + 32 else c

abbrev same : ℕ → ℕ → Bool
same a b = a == b

lower_case_twice : (c : ℕ) → lower_case (lower_case c) ≡ lower_case c
lower_case_twice c = ground arith

-- The properties "A" and "b".
abbrev given : List (ℕ × ℕ)
given = (b'A', 7) ∷ (b'b', 8) ∷ []

adapt_named_params_prepared-Outcome_example :
    Outcome lower_case same ==_iff given
      (b'b' ∷ b'a' ∷ [])
      (adapt_named_params_prepared lower_case same (named given) (some (b'b' ∷ b'a' ∷ [])))
adapt_named_params_prepared-Outcome_example =
    adapt_named_params_prepared-Outcome lower_case same ==_iff given b'b' (b'a' ∷ [])

in_order :
    adapt_named_params_prepared lower_case same (named given) (some (b'b' ∷ b'a' ∷ []))
    ≡ adapted (array (8 ∷ 7 ∷ []))
unfolding adapt_named_params_prepared
in_order = refl

adapt_named_params_prepared_upper_example :
    (missing_name : ℕ) × (adapt_named_params_prepared lower_case same
        (named given)
        (some (b'b' ∷ b'A' ∷ []))
      ≡ not_defined missing_name)
adapt_named_params_prepared_upper_example =
    adapt_named_params_prepared_upper lower_case same ==_iff given (b'b' ∷ []) [] b'A'
      lower_case_twice (λ h. cc h)
