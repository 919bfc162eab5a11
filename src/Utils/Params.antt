-- ===== src/Utils/Params.antt =====
-- lib/utils.js: `adaptNamedParamsPrepared`, with `toLowerCaseProperties`. Parameters are missing, an
-- array, or an object, which is the list of its properties in their order; `lower` is `toLowerCase`. A
-- property that is set twice has the later value. The columns are their names.
pub mod Columns
mod Tests
use integration_hell.Common.{
  ℕ, zero, suc, Bool, true, false, Option, none, some, List, [], ◌∷◌, map, if◌then◌else◌,
}

pub data Params (N V : Type 0) : Type 0 where
  missing : Params N V
  array : List V → Params N V
  named : List (N × V) → Params N V

pub data Adapted (N V : Type 0) : Type 0 where
  not_defined : N → Adapted N V
  adapted : Params N V → Adapted N V

module _ {N V : Type 0} (lower : N → N) (same : N → N → Bool) where
  abbrev pub to_lower_case_properties : List (N × V) → List (N × V)
  to_lower_case_properties [] = []
  to_lower_case_properties (p ∷ properties) = (lower p.0, p.1) ∷ to_lower_case_properties properties

  -- The value of a property: that of the last one with the name.
  abbrev pub get_property : Option V → List (N × V) → N → Option V
  get_property found [] name = found
  get_property found (p ∷ properties) name =
      get_property (if same p.0 name then some p.1 else found) properties name

  abbrev pub with_value : N → Option V → Adapted N V → Adapted N V
  with_value name none rest = not_defined name
  with_value name (some v) (adapted (array vs)) = adapted (array (v ∷ vs))
  with_value name (some v) (adapted missing) = adapted missing
  with_value name (some v) (adapted (named ps)) = adapted (named ps)
  with_value name (some v) (not_defined name') = not_defined name'

  -- The loop over the columns.
  abbrev pub values_of : List (N × V) → List N → Adapted N V
  values_of properties [] = adapted (array [])
  values_of properties (c ∷ columns) =
      with_value c (get_property none properties c) (values_of properties columns)

  unfoldable pub adapt_named_params_prepared : Params N V → Option (List N) → Adapted N V
  adapt_named_params_prepared missing columns = adapted missing
  adapt_named_params_prepared (array values) columns = adapted (array values)
  adapt_named_params_prepared (named properties) none = adapted (named properties)
  adapt_named_params_prepared (named properties) (some []) = adapted (named properties)
  adapt_named_params_prepared (named properties) (some (c ∷ columns)) =
      values_of (to_lower_case_properties properties) (c ∷ columns)
