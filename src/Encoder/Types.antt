-- ===== src/Encoder/Types.antt =====
-- lib/encoder.js: types of columns and the values given for them. Modelled are the types whose bytes
-- the encoder itself lays out: a boolean, integers, with the BigInt options for the long ones, blobs,
-- and the collections, tuples, user-defined types and vectors of them. A value is one of its type;
-- the checks that it is are not modelled. An object is the list of its fields' values in the order of
-- the type, and a map is the list of its entries.
use integration_hell.Common.{ℕ, ◌*◌, Bool, true, false, Option, none, some, List}
use integration_hell.Common.Int.{ℤ}

mutual
  pub data Cql : Type 0 where
    boolean : Cql
    int : Cql
    smallint : Cql
    tinyint : Cql
    bigint : Cql
    varint : Cql
    blob : Cql
    list_of : Cql → Cql
    map_of : Cql → Cql → Cql
    tuple_of : Cqls → Cql
    udt_of : Cqls → Cql
    vector_of : Cql → ℕ → Cql

  pub data Cqls : Type 0 where
    no_types : Cqls
    cons : Cql → Cqls → Cqls

-- What the user gives for a value.
pub data Input {ℓ} (A : Type ℓ) : Type ℓ where
  undefined : Input A
  null : Input A
  unset : Input A
  given : A → Input A

-- A tuple may end before its type does.
abbrev mutual
  pub Val : Cql → Type 0
  Val boolean = Bool
  Val int = ℤ
  Val smallint = ℤ
  Val tinyint = ℤ
  Val bigint = ℤ
  Val varint = ℤ
  Val blob = List ℕ
  Val (list_of t) = List (Input (Val t))
  Val (map_of k v) = List (Input (Val k) × Input (Val v))
  Val (tuple_of ts) = Elements ts
  Val (udt_of ts) = Fields ts
  Val (vector_of t n) = List (Input (Val t))

  pub Elements : Cqls → Type 0
  Elements no_types = Unit
  Elements (cons t ts) = Option (Input (Val t) × Elements ts)

  pub Fields : Cqls → Type 0
  Fields no_types = Unit
  Fields (cons t ts) = Input (Val t) × Fields ts

-- `serializationSizeIfFixed`, with none for -1
unfoldable pub serialization_size : Cql → Option ℕ
serialization_size boolean = some 1
serialization_size int = some 4
serialization_size bigint = some 8
serialization_size (vector_of t n) = elim (serialization_size t) [
  | none ↦ none
  | some k ↦ some (k * n)
]
serialization_size _ = none

-- `zeroLengthTypesSupported`: a vector is a custom type
unfoldable pub zero_length : Cql → Bool
zero_length blob = true
zero_length (vector_of t n) = true
zero_length _ = false
