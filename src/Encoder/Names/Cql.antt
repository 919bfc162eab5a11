-- ===== src/Encoder/Names/Cql.antt =====
-- lib/encoder.js: `parseTypeName`, with `_parseChildTypes` and, of CQL names, `parseVectorTypeArgs`; and
-- `getDataTypeNameByCode` of lib/types/index.js. The promises are awaited one after the other, so they
-- are results here; what resolves the name of a user-defined type is an argument, as is the number that
-- `parseInt` reads, none where it is not a number. The fuel is more than the length of the name: what is
-- parsed in a name is shorter than it.
use integration_hell.Common.{
  ℕ, zero, suc, ◌+◌, ◌-◌, Bool, true, false, Option, none, some, List, [], ◌∷◌, ◌++◌, length, ◌==◌,
  if◌then◌else◌,
}
use integration_hell.Encoder.Names.{Text, codes, substr, stands_at, same_text, parse_params, trim}
use integration_hell.Encoder.Names.Native.{
  Code, name_of, code_of, custom, list, map, set, tuple, Info, single, custom_of, list_of, set_of,
  map_of, tuple_of, udt_of, vector_of, Infos, no_infos, cons,
}

-- A result, or the error for a name that is not valid; `stuck` is no fuel.
pub data Parsed {ℓ} (A : Type ℓ) : Type ℓ where
  not_valid : Parsed A
  stuck : Parsed A
  parsed : A → Parsed A

unfoldable pub then_parsed {ℓ κ} : {A : Type ℓ} {B : Type κ} → Parsed A → (A → Parsed B) → Parsed B
then_parsed not_valid f = not_valid
then_parsed stuck f = stuck
then_parsed (parsed a) f = f a

-- Which of the conditions holds at the index, in the order of the source.
pub data Kind : Type 0 where
  a_list a_set a_map a_tuple a_vector another : Kind

unfoldable pub kind_at : Text → ℕ → Kind
kind_at name start =
    if stands_at name start (codes "list")
    then a_list
    else if stands_at name start (codes "set")
    then a_set
    else if stands_at name start (codes "map")
    then a_map
    else if stands_at name start (codes "tuple")
    then a_tuple
    else if stands_at name start (codes "vector")
    then a_vector
    else another

-- A name with the word "frozen" taken off: where it starts, and its length.
pub record Cursor : Type 0 where
  pub start : ℕ
  pub length : ℕ
  pub frozen : Bool

unfoldable pub unfreeze : Text → ℕ → ℕ → Cursor
unfreeze name start length =
    if stands_at name start (codes "frozen")
    then (record { start = start + 7; length = length - 8; frozen = true })
    else (record { start = start; length = length; frozen = false })

-- The parameters of a name of so many letters, between `<` and `>`.
abbrev pub params_at : Text → Cursor → ℕ → List Text
params_at name c letters =
    parse_params name (c.start + (letters + 1)) (c.length - (letters + 2)) b'<' b'>'

-- `typeName.replace('""', '"')`: the first pair of quotes becomes one.
abbrev pub unescape : Text → Text
unescape [] = []
unescape (c ∷ []) = c ∷ []
unescape (c ∷ d ∷ name) =
    if (c == b'"')
    then (if d == b'"' then d ∷ name else c ∷ unescape (d ∷ name))
    else c ∷ unescape (d ∷ name)

-- The name without its quotes, where it has some.
unfoldable pub bare_name : Text → Cursor → Text
bare_name name c =
    if stands_at name c.start (codes "\"")
    then unescape (substr name (c.start + 1) (c.length - 2))
    else if c.start == 0
    then name
    else substr name c.start c.length

abbrev pub or_whole : Text → ℕ → ℕ
or_whole name length' = if length' == 0 then length name else length'

module _ {U : Type 0} (parse_int : Text → Option ℕ) where
  -- The end: a code, an empty custom type, or a user-defined type. The branch for "duration" comes
  -- after its code is found, and is never taken.
  abbrev pub user_type : Bool → Option U → Parsed (Info U)
  user_type frozen none = not_valid
  user_type frozen (some u) = parsed (udt_of frozen u)

  abbrev pub custom_or_user : (Text → Option U) → Bool → Text → Parsed (Info U)
  custom_or_user resolve frozen name =
      if same_text name (codes "duration")
      then parsed (custom_of (codes "org.apache.cassandra.db.marshal.DurationType"))
      else if same_text name (codes "empty")
      then parsed (custom_of (codes "empty"))
      else user_type frozen (resolve name)

  abbrev pub coded : (Text → Option U) → Bool → Text → Option Code → Parsed (Info U)
  coded resolve frozen name none = custom_or_user resolve frozen name
  coded resolve frozen name (some c) = parsed (single c)

  unfoldable pub named : (Text → Option U) → Bool → Text → Parsed (Info U)
  unfolding code_of
  named resolve frozen name = coded resolve frozen name (code_of name)

  -- With what parses the inner names: one, exactly two, at least one, or a type and a number.
  module _ (inner : (Text → Option U) → Text → Parsed (Info U)) (resolve : Text → Option U) where
    unfoldable pub one_inner : List Text → (Info U → Info U) → Parsed (Info U)
    one_inner (p ∷ []) f = then_parsed (inner resolve p) λ i. parsed (f i)
    one_inner _ f = not_valid

    unfoldable pub child_types : List Text → Parsed (Infos U)
    unfolding then_parsed
    child_types [] = parsed no_infos
    child_types (p ∷ ps) =
        then_parsed (inner resolve (trim p))
          λ i. then_parsed (child_types ps) λ is. parsed (cons i is)

    unfoldable pub two_inner : List Text → (Infos U → Info U) → Parsed (Info U)
    unfolding then_parsed child_types
    two_inner (p ∷ q ∷ []) f = then_parsed (child_types (p ∷ q ∷ [])) λ is. parsed (f is)
    two_inner _ f = not_valid

    -- `parseParams` always gives a parameter.
    unfoldable pub some_inner : List Text → (Infos U → Info U) → Parsed (Info U)
    unfolding then_parsed child_types
    some_inner [] f = not_valid
    some_inner (p ∷ ps) f = then_parsed (child_types (p ∷ ps)) λ is. parsed (f is)

    -- No resolver is passed on, so that there is no user-defined type in a vector.
    unfoldable pub vector_args : List Text → Parsed (Info U)
    unfolding then_parsed
    vector_args (p ∷ q ∷ []) =
        then_parsed (inner (λ user. none) (trim p)) λ i. parsed (vector_of i (parse_int (trim q)))
    vector_args _ = not_valid

    abbrev pub parse_kind : Kind → Text → Cursor → Parsed (Info U)
    parse_kind a_list name c = one_inner (params_at name c 4) (list_of c.frozen)
    parse_kind a_set name c = one_inner (params_at name c 3) (set_of c.frozen)
    parse_kind a_map name c = two_inner (params_at name c 3) (map_of c.frozen)
    parse_kind a_tuple name c = some_inner (params_at name c 5) (tuple_of c.frozen)
    parse_kind a_vector name c = vector_args (parse_params name 7 (length name - 8) b'(' b')')
    parse_kind another name c = named resolve c.frozen (bare_name name c)

  unfoldable pub parse_type_name : ℕ → (Text → Option U) → Text → ℕ → ℕ → Parsed (Info U)
  unfolding kind_at unfreeze bare_name named one_inner two_inner some_inner vector_args
  parse_type_name zero resolve name start length' = stuck
  parse_type_name (suc fuel) resolve name start length' =
      let inner : (Text → Option U) → Text → Parsed (Info U) =
        λ r p. parse_type_name fuel r p 0 0 in
      let c = unfreeze name start (or_whole name length') in
      if stands_at name start (codes "'")
      then parsed (custom_of (substr name (start + 1) (or_whole name length' - 2)))
      else parse_kind inner resolve (kind_at name c.start) name c

  -- `parseTypeName` of a whole name.
  abbrev pub parse_whole : (Text → Option U) → Text → Parsed (Info U)
  parse_whole resolve name = parse_type_name (suc (length name)) resolve name 0 0

-- `getDataTypeNameByCode`, with the name that a user-defined type has and the digits of a number; none
-- is NaN.
module _ {U : Type 0} (udt_name : U → Text) (show : ℕ → Text) where
  abbrev pub show_dimension : Option ℕ → Text
  show_dimension none = codes "NaN"
  show_dimension (some n) = show n

  abbrev pub bracketed : Code → Text → Text
  bracketed c inner = name_of c ++ b'<' ∷ (inner ++ b'>' ∷ [])

  unfoldable mutual
    pub type_name : Info U → Text
    type_name (single c) = name_of c
    type_name (custom_of info) = name_of custom
    type_name (list_of frozen i) = bracketed list (type_name i)
    type_name (set_of frozen i) = bracketed set (type_name i)
    type_name (map_of frozen is) = bracketed map (joined is)
    type_name (tuple_of frozen is) = bracketed tuple (joined is)
    type_name (udt_of frozen u) = udt_name u
    type_name (vector_of i n) =
        codes "vector<" ++ (type_name i ++ codes ", " ++ (show_dimension n ++ codes ">"))

    -- `join(", ")`
    pub joined : Infos U → Text
    joined no_infos = []
    joined (cons i is) = type_name i ++ after_comma is

    pub after_comma : Infos U → Text
    after_comma no_infos = []
    after_comma (cons i is) = b',' ∷ 32 ∷ (type_name i ++ after_comma is)
