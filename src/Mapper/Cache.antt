-- ===== src/Mapper/Cache.antt =====
-- lib/mapping/cache.js and lib/mapping/q.js: the keys under which the mapper keeps what it prepares for
-- the shape of a document. A key is a list of items, which the iterators of the source give one after
-- the other: words, and for assignments whether they are inverted. Of a document, its keys in their
-- order with their values are given; of a value, only what kind it is of matters. A limit and a time to
-- live are there or not.
pub mod Operators
pub mod Unique
pub mod Shared
mod Tests
use Prim.Native.String.{String}
use integration_hell.Common.{
  Bool, true, false, Option, none, some, List, [], ◌∷◌, ◌++◌, map, if◌then◌else◌,
}

pub data Item : Type 0 where
  word : String → Item
  flag : Bool → Item

-- The operators of `q` but for `and`, and its assignments.
pub data Operator : Type 0 where
  in_ gt gte lt lte not_eq : Operator

pub data Sign : Type 0 where
  plus minus : Sign

pub data Value : Type 0 where
  plain : Value
  compared : Operator → Value
  both : Value → Value → Value
  assigned : Sign → Bool → Value

abbrev pub key_of : Operator → String
key_of in_ = "IN"
key_of gt = ">"
key_of gte = ">="
key_of lt = "<"
key_of lte = "<="
key_of not_eq = "!="

abbrev pub sign_of : Sign → String
sign_of plus = "+"
sign_of minus = "-"

pub record Entry : Type 0 where
  pub name : String
  pub value : Value

-- What a call says besides the document. An order is a list of names with "asc" or "desc".
pub record DocInfo : Type 0 where
  pub fields : Option (List String)
  pub limit : Bool
  pub order_by : Option (List (String × String))
  pub ttl : Bool
  pub if_exists : Bool
  pub if_not_exists : Bool
  pub delete_only_columns : Bool
  pub when : Option (List Entry)

abbrev pub no_info : DocInfo
no_info = record {
  fields = none;
  limit = false;
  order_by = none;
  ttl = false;
  if_exists = false;
  if_not_exists = false;
  delete_only_columns = false;
  when = none;
}

abbrev pub yield_operators : Value → List Item
yield_operators plain = []
yield_operators (compared o) = word (key_of o) ∷ []
yield_operators (both a b) = word "AND" ∷ (yield_operators a ++ word "|/|" ∷ yield_operators b)
yield_operators (assigned sign inverted) = []

abbrev pub yield_key_and_operators : List Entry → List Item
yield_key_and_operators [] = []
yield_key_and_operators (e ∷ entries) =
    word e.name ∷ (yield_operators e.value ++ yield_key_and_operators entries)

abbrev pub yield_qs : Value → List Item
yield_qs plain = []
yield_qs (compared o) = yield_operators (compared o)
yield_qs (both a b) = yield_operators (both a b)
yield_qs (assigned sign inverted) = word (sign_of sign) ∷ flag inverted ∷ []

abbrev pub yield_key_and_all_qs : List Entry → List Item
yield_key_and_all_qs [] = []
yield_key_and_all_qs (e ∷ entries) =
    word e.name ∷ (yield_qs e.value ++ yield_key_and_all_qs entries)

-- The fields, behind a separator, if there are some.
abbrev pub yield_fields : Option (List String) → List Item
yield_fields none = []
yield_fields (some []) = []
yield_fields (some (f ∷ fields)) = word "|f|" ∷ word f ∷ map word fields

abbrev pub mark : Bool → String → List Item
mark there x = if there then word x ∷ [] else []

abbrev pub yield_pairs : List (String × String) → List Item
yield_pairs [] = []
yield_pairs (p ∷ pairs) = word p.0 ∷ word p.1 ∷ yield_pairs pairs

abbrev pub yield_order : Option (List (String × String)) → List Item
yield_order none = []
yield_order (some pairs) = word "|o|" ∷ yield_pairs pairs

abbrev pub yield_when : Option (List Entry) → List Item
yield_when none = []
yield_when (some entries) = yield_key_and_operators entries

abbrev pub get_select_doc_info : DocInfo → List Item
get_select_doc_info i = yield_fields i.fields ++ (mark i.limit "|l|" ++ yield_order i.order_by)

-- The iterators, where a missing `docInfo` is one with nothing in it.
unfoldable pub get_select_key : List Entry → DocInfo → List Item
get_select_key entries i = yield_key_and_operators entries ++ get_select_doc_info i

unfoldable pub get_select_all_key : DocInfo → List Item
get_select_all_key i = word "root" ∷ get_select_doc_info i

unfoldable pub get_insert_key : List String → DocInfo → List Item
get_insert_key keys i =
    map word keys ++ (yield_fields i.fields ++ (mark i.ttl "|t|" ++ mark i.if_not_exists "|e|"))

unfoldable pub get_update_key : List Entry → DocInfo → List Item
get_update_key entries i =
    yield_key_and_all_qs entries
    ++ (yield_fields i.fields
        ++ (mark i.ttl "|t|" ++ (mark i.if_exists "|e|" ++ yield_when i.when)))

unfoldable pub get_remove_key : List Entry → DocInfo → List Item
get_remove_key entries i =
    yield_key_and_operators entries
    ++ (yield_fields i.fields
        ++ (mark i.if_exists "|e|" ++ (mark i.delete_only_columns "|dc|" ++ yield_when i.when)))
