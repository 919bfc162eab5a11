-- ===== src/Encoder/Names/Native.antt =====
-- lib/types/index.js: the names in `dataTypes`, and the types that a column may have.
use integration_hell.Common.{ℕ, Bool, Option, none, some, List, [], ◌∷◌, if◌then◌else◌}
use integration_hell.Encoder.Names.{Text, codes, same_text}

-- The codes, by their names.
pub data Code : Type 0 where
  custom ascii bigint blob boolean counter decimal double float int text : Code
  timestamp uuid varchar varint timeuuid inet date time smallint tinyint : Code
  duration list map set udt tuple : Code

abbrev pub name_of : Code → Text
name_of custom = codes "custom"
name_of ascii = codes "ascii"
name_of bigint = codes "bigint"
name_of blob = codes "blob"
name_of boolean = codes "boolean"
name_of counter = codes "counter"
name_of decimal = codes "decimal"
name_of double = codes "double"
name_of float = codes "float"
name_of int = codes "int"
name_of text = codes "text"
name_of timestamp = codes "timestamp"
name_of uuid = codes "uuid"
name_of varchar = codes "varchar"
name_of varint = codes "varint"
name_of timeuuid = codes "timeuuid"
name_of inet = codes "inet"
name_of date = codes "date"
name_of time = codes "time"
name_of smallint = codes "smallint"
name_of tinyint = codes "tinyint"
name_of duration = codes "duration"
name_of list = codes "list"
name_of map = codes "map"
name_of set = codes "set"
name_of udt = codes "udt"
name_of tuple = codes "tuple"

abbrev pub all_codes : List Code
all_codes =
    custom ∷ ascii ∷ bigint ∷ blob ∷ boolean ∷ counter ∷ decimal ∷ double ∷ float ∷ int ∷ text
    ∷ timestamp ∷ uuid ∷ varchar ∷ varint ∷ timeuuid ∷ inet ∷ date ∷ time ∷ smallint ∷ tinyint
    ∷ duration ∷ list ∷ map ∷ set ∷ udt ∷ tuple ∷ []

abbrev pub find_code : List Code → Text → Option Code
find_code [] name = none
find_code (c ∷ more) name = if same_text (name_of c) name then some c else find_code more name

-- `dataTypes[name]`
unfoldable pub code_of : Text → Option Code
code_of name = find_code all_codes name

-- What the parsers give: a code alone, or a type with what it is of, and whether it is frozen. What a
-- user-defined type is, `U`, comes from whoever resolves its name.
mutual
  pub data Info (U : Type 0) : Type 0 where
    single : Code → Info U
    custom_of : Text → Info U
    list_of : Bool → Info U → Info U
    set_of : Bool → Info U → Info U
    map_of : Bool → Infos U → Info U
    tuple_of : Bool → Infos U → Info U
    udt_of : Bool → U → Info U
    vector_of : Info U → Option ℕ → Info U

  pub data Infos (U : Type 0) : Type 0 where
    no_infos : Infos U
    cons : Info U → Infos U → Infos U
