-- ===== src/Utils/Params/Columns.antt =====
-- lib/utils.js: the values that `adaptNamedParamsPrepared` gives for the columns.
use integration_hell.Common.{
  ◌≡◌, ◌≢◌, ◌↔◌, ◌⊎◌, refl, sym, ap, ◌∙◌, inl, inr, Bool, true, Bool-cases, Option, none, some,
  List, [], ◌∷◌, ◌++◌, if◌then◌else◌, arith,
}
use integration_hell.Utils.Params.{
  array, named, Adapted, not_defined, adapted, to_lower_case_properties, get_property, with_value,
  values_of, adapt_named_params_prepared,
}

module _ {N V : Type 0} (lower : N → N) (same : N → N → Bool)
    (same_iff : (a b : N) → (same a b ≡ true) ↔ (a ≡ b)) where
  abbrev pub Lacks : List (N × V) → N → Type 0
  Lacks [] name = Unit
  Lacks (p ∷ properties) name = (lower p.0 ≢ name) × Lacks properties name

  -- Some property has the name in lower case, and the value; no later one has the name.
  abbrev pub Holds : List (N × V) → N → V → Type 0
  Holds [] name v = ⊥
  Holds (p ∷ properties) name v =
      ((lower p.0 ≡ name) × (p.1 ≡ v) × Lacks properties name) ⊎ Holds properties name v

  -- A value for each column, in order.
  abbrev pub Provided : List (N × V) → List N → List V → Type 0
  Provided properties [] [] = Unit
  Provided properties [] (v ∷ values) = ⊥
  Provided properties (c ∷ columns) [] = ⊥
  Provided properties (c ∷ columns) (v ∷ values) =
      Holds properties c v × Provided properties columns values

  -- The first column that no property has.
  abbrev pub FirstLacking : List (N × V) → List N → N → Type 0
  FirstLacking properties [] name = ⊥
  FirstLacking properties (c ∷ columns) name =
      ((c ≡ name) × Lacks properties c)
      ⊎ (((v : V) × Holds properties c v) × FirstLacking properties columns name)

  abbrev lowered : List (N × V) → List (N × V)
  lowered = to_lower_case_properties lower same

  get_property-cases :
      (before : Option V) (properties : List (N × V)) (name : N)
      → (Lacks properties name
          × (get_property lower same before (lowered properties) name ≡ before))
        ⊎ ((v : V) × Holds properties name v
            × (get_property lower same before (lowered properties) name ≡ some v))
  get_property-cases before [] name = inl (tt, refl)
  get_property-cases before (p ∷ properties) name =
      elim (get_property-cases (if same (lower p.0) name then some p.1 else before) properties
        name) [
          | inr (v, h, e) ↦ inr (v, inr h, e)
          | inl (lacks, e) ↦ elim (Bool-cases (same (lower p.0) name)) [
            | inl equal ↦ inr (
              p.1,
              inl ((same_iff (lower p.0) name).0 equal, refl, lacks),
              e ∙ ap (λ b. if b then some p.1 else before) equal,
            )
            | inr apart ↦ inl (
              ((λ h. let at = (same_iff (lower p.0) name).1 h in ground arith), lacks),
              e ∙ ap (λ b. if b then some p.1 else before) apart,
            )
          ]
        ]

  -- The outcome for the columns.
  abbrev pub Outcome : List (N × V) → List N → Adapted N V → Type 0
  Outcome properties columns r =
      ((values : List V) × (r ≡ adapted (array values)) × Provided properties columns values)
      ⊎ ((name : N) × (r ≡ not_defined name) × FirstLacking properties columns name)

  values_of-Outcome :
      (properties : List (N × V)) (columns : List N)
      → Outcome properties columns (values_of lower same (lowered properties) columns)
  values_of-Outcome properties [] = inl ([], refl, tt)
  values_of-Outcome properties (c ∷ columns) =
      let rest = values_of lower same (lowered properties) columns in
      elim (get_property-cases none properties c) [
        | inl (lacks, e) ↦ inr (c, ap (λ o. with_value lower same c o rest) e, inl (refl, lacks))
        | inr (v, holds, e) ↦ elim (values_of-Outcome properties columns) [
          | inl (values, r, p) ↦ inl (
            v ∷ values,
            ap (λ o. with_value lower same c o rest) e
                ∙ ap (λ x. with_value lower same c (some v) x) r,
            (holds, p),
          )
          | inr (name, r, f) ↦ inr (
            name,
            ap (λ o. with_value lower same c o rest) e
                ∙ ap (λ x. with_value lower same c (some v) x) r,
            inr ((v, holds), f),
          )
        ]
      ]

  -- Parameters given by name become an array with a value for each of the columns, in their order: that of
  -- the last property whose name in lower case is the column's. Where there is a column without one, the
  -- error names the first.
  pub adapt_named_params_prepared-Outcome :
      (properties : List (N × V)) (c : N) (columns : List N)
      → Outcome properties
          (c ∷ columns)
          (adapt_named_params_prepared lower same (named properties) (some (c ∷ columns)))
  unfolding adapt_named_params_prepared
  adapt_named_params_prepared-Outcome properties c columns =
      values_of-Outcome properties (c ∷ columns)

  not-Holds :
      (lower_lower : (x : N) → lower (lower x) ≡ lower x) (properties : List (N × V)) (name : N)
      → lower name ≢ name
      → (v : V) → ¬ Holds properties name v
  not-Holds lower_lower [] name h v held = held
  not-Holds lower_lower (p ∷ properties) name h v (inl (e, f, g)) =
      h (sym (ap lower e) ∙ lower_lower p.0 ∙ e)
  not-Holds lower_lower (p ∷ properties) name h v (inr held) =
      not-Holds lower_lower properties name h v held

  not-Provided :
      (lower_lower : (x : N) → lower (lower x) ≡ lower x) (properties : List (N × V))
      (before after : List N) (name : N)
      → lower name ≢ name
      → (values : List V) → ¬ Provided properties (before ++ name ∷ after) values
  not-Provided lower_lower properties [] after name h [] p = p
  not-Provided lower_lower properties [] after name h (v ∷ values) p =
      not-Holds lower_lower properties name h v p.0
  not-Provided lower_lower properties (c ∷ before) after name h [] p = p
  not-Provided lower_lower properties (c ∷ before) after name h (v ∷ values) p =
      not-Provided lower_lower properties before after name h values p.1

  -- Where `toLowerCase` changes nothing that it gave, no parameters given by name are taken if one of the
  -- columns has a letter in upper case in its name.
  pub adapt_named_params_prepared_upper :
      (properties : List (N × V)) (before after : List N) (name : N)
      → ((x : N) → lower (lower x) ≡ lower x)
      → lower name ≢ name
      → (missing_name : N) × (adapt_named_params_prepared lower same
            (named properties)
            (some (before ++ name ∷ after))
          ≡ not_defined missing_name)
  unfolding adapt_named_params_prepared
  adapt_named_params_prepared_upper properties [] after name lower_lower h =
      elim (values_of-Outcome properties (name ∷ after)) [
        | inl (values, r, p) ↦ absurd (not-Provided lower_lower properties [] after name h values p)
        | inr (x, r, f) ↦ (x, r)
      ]
  adapt_named_params_prepared_upper properties (c ∷ before) after name lower_lower h =
      elim (values_of-Outcome properties (c ∷ (before ++ name ∷ after))) [
        | inl (values, r, p) ↦
            absurd (not-Provided lower_lower properties (c ∷ before) after name h values p)
        | inr (x, r, f) ↦ (x, r)
      ]
