-- ===== src/Encoder/Names/Tests.antt =====
-- lib/encoder.js: tests of the parser of type names.
use integration_hell.Common.{◌≡◌, refl, false, Option, none, some, [], if◌then◌else◌, ℕ}
use integration_hell.Encoder.Names.{Text, codes, same_text, parse_params}
use integration_hell.Encoder.Names.Native.{
  code_of, int, text, Info, single, list_of, map_of, tuple_of, udt_of, no_infos, cons,
}
use integration_hell.Encoder.Names.Cql.{
  parsed, not_valid, kind_at, parse_type_name, parse_whole, type_name,
}
use integration_hell.Encoder.Names.Plain.{IsUser}
use integration_hell.Encoder.Names.RoundTrip.{parse_whole-type_name}

abbrev no_number : Text → Option ℕ
no_number name = none

abbrev user_name : Text → Text
user_name u = u

abbrev no_digits : ℕ → Text
no_digits n = []

-- A keyspace with the user-defined types "address" and "settings".
abbrev resolve : Text → Option Text
resolve name =
    if same_text name (codes "address")
    then some (codes "address")
    else if same_text name (codes "settings")
    then some (codes "settings")
    else none

abbrev nested : Info Text
nested = map_of false (
    cons (single int) (
      cons
        (list_of false
          (tuple_of false (cons (single text) (cons (udt_of false (codes "address")) no_infos))))
        no_infos))

address-IsUser : IsUser no_number user_name no_digits resolve (codes "address")
unfolding kind_at code_of
address-IsUser = (refl, refl, refl, refl, refl)

parse_whole-type_name_example :
    parse_whole no_number resolve (type_name user_name no_digits nested) ≡ parsed nested
parse_whole-type_name_example =
    parse_whole-type_name no_number user_name no_digits resolve nested
      (refl, tt, (refl, (refl, tt, ((refl, address-IsUser), tt))))

the_name : type_name user_name no_digits nested ≡ codes "map<int, list<tuple<text, address>>>"
unfolding type_name
the_name = refl

-- The user-defined type "settings" is taken for a set.
settings : parse_whole no_number resolve (codes "settings") ≡ not_valid
unfolding parse_type_name parse_params
settings = refl

-- The inner comma of a vector's type parts the parameters.
vector_of_map : parse_whole no_number resolve (codes "vector<map<int, int>, 3>") ≡ not_valid
unfolding parse_type_name parse_params
vector_of_map = refl
