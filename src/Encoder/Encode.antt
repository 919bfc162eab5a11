-- ===== src/Encoder/Encode.antt =====
-- lib/encoder.js: `encode`, and the encoders of the types that are modelled.
use integration_hell.Common.{
  ℕ, Bool, ◌&&◌, Option, none, some, List, [], ◌∷◌, ◌++◌, length, leb, ◌==◌, if◌then◌else◌,
}
use integration_hell.Common.Int.{pos}
use integration_hell.Encoder.Buffer.{
  out_of_range, not_a_buffer, unset_not_supported, null_in_collection, wrong_dimension,
  empty_vector, Run, thrown, ok, and_then, write_int8, write_int16, write_int32, LengthSize, two,
  four, get_length_buffer,
}
use integration_hell.Encoder.Varint.{encode_bigint, encode_varint}
use integration_hell.Encoder.Types.{
  Cql, boolean, int, smallint, tinyint, bigint, varint, blob, list_of, map_of, tuple_of, udt_of,
  vector_of, Cqls, no_types, cons, Input, undefined, null, unset, given, Val, Elements, Fields,
  serialization_size,
}
use integration_hell.Utils.Uvint.{uvint_pack}

-- What `encode` returns.
pub data Encoded : Type 0 where
  null_bytes : Encoded
  undefined_bytes : Encoded
  bytes : List ℕ → Encoded

pub record Options : Type 0 where
  pub use_undefined_as_unset : Bool
  pub protocol_version : ℕ

-- `setProtocolVersion`
unfoldable pub length_size : Options → LengthSize
length_size o = if leb 3 o.protocol_version then four else two

-- `Buffer.concat` of parts that may be no buffers
unfoldable pub concat : List Encoded → Run (List ℕ)
concat [] = ok []
concat (null_bytes ∷ parts) = thrown not_a_buffer
concat (undefined_bytes ∷ parts) = thrown not_a_buffer
concat (bytes b ∷ parts) = and_then (concat parts) λ rest. ok (b ++ rest)

abbrev pub length_of : Encoded → ℕ
length_of null_bytes = 0
length_of undefined_bytes = 0
length_of (bytes b) = length b

abbrev pub as_bytes : Run (List ℕ) → Run Encoded
as_bytes r = and_then r λ b. ok (bytes b)

-- The front of `encode`: what is given for a value, and the encoder of a value.
unfoldable pub encode_input {ℓ} : {A : Type ℓ} → Options → (A → Run Encoded) → Input A → Run Encoded
encode_input o f undefined =
    if o.use_undefined_as_unset && leb 4 o.protocol_version
    then ok undefined_bytes
    else ok null_bytes
encode_input o f unset =
    if leb 4 o.protocol_version then ok undefined_bytes else thrown unset_not_supported
encode_input o f null = ok null_bytes
encode_input o f (given v) = f v

-- The value of an item of a collection.
unfoldable pub not_null {ℓ} : {A : Type ℓ} → Input A → Run A
not_null undefined = thrown null_in_collection
not_null null = thrown null_in_collection
not_null unset = thrown null_in_collection
not_null (given v) = ok v

-- The loop of `encodeList` from an item on: the parts, a length and the bytes for each.
unfoldable pub list_parts {ℓ} :
    {A : Type ℓ} → LengthSize → (A → Run Encoded) → List (Input A) → Run (List Encoded)
unfolding not_null
list_parts s f [] = ok []
list_parts s f (x ∷ xs) = and_then (not_null x) λ v. and_then (f v) λ item.
    and_then (get_length_buffer s (length_of item))
      λ size. and_then (list_parts s f xs) λ rest. ok (bytes size ∷ item ∷ rest)

unfoldable pub encode_list {ℓ} :
    {A : Type ℓ} → LengthSize → (A → Run Encoded) → List (Input A) → Run Encoded
unfolding list_parts
encode_list s f [] = ok null_bytes
encode_list s f (x ∷ xs) =
    and_then (get_length_buffer s (length (x ∷ xs)))
      λ size. and_then (list_parts s f (x ∷ xs)) λ parts. as_bytes (concat (bytes size ∷ parts))

-- The value's bytes are left out where they are null.
abbrev pub unless_null : Encoded → List Encoded → List Encoded
unless_null null_bytes parts = parts
unless_null undefined_bytes parts = undefined_bytes ∷ parts
unless_null (bytes b) parts = bytes b ∷ parts

unfoldable pub map_parts {ℓ κ} :
    {A : Type ℓ} {B : Type κ}
    → LengthSize
    → (A → Run Encoded)
    → (B → Run Encoded)
    → List (Input A × Input B)
    → Run (List Encoded)
unfolding not_null
map_parts s f g [] = ok []
map_parts s f g ((k, x) ∷ entries) = and_then (not_null k) λ key. and_then (not_null x) λ value.
    and_then (f key) λ key_item. and_then (get_length_buffer s (length_of key_item)) λ key_size.
      and_then (g value) λ value_item.
        and_then (get_length_buffer s (length_of value_item)) λ value_size.
          and_then (map_parts s f g entries)
            λ rest. ok (bytes key_size ∷ key_item ∷ bytes value_size ∷ unless_null value_item rest)

unfoldable pub encode_map {ℓ κ} :
    {A : Type ℓ} {B : Type κ}
    → LengthSize
    → (A → Run Encoded)
    → (B → Run Encoded)
    → List (Input A × Input B)
    → Run Encoded
unfolding map_parts
encode_map s f g entries = and_then (map_parts s f g entries) λ parts.
    and_then (get_length_buffer s (length entries)) λ size. as_bytes (concat (bytes size ∷ parts))

-- A field of a user-defined type or an element of a tuple; `!item` holds of null and of undefined.
unfoldable pub field_part : Encoded → Run (List ℕ)
field_part null_bytes = ok (255 ∷ 255 ∷ 255 ∷ 255 ∷ [])
field_part undefined_bytes = ok (255 ∷ 255 ∷ 255 ∷ 255 ∷ [])
field_part (bytes b) = and_then (write_int32 (pos (length b))) λ size. ok (size ++ b)

abbrev pub packed : Option (List ℕ) → Run (List ℕ)
packed none = thrown out_of_range
packed (some b) = ok b

-- An element of a vector: its packed length, where the size is not fixed, and its bytes.
unfoldable pub vector_parts {ℓ} :
    {A : Type ℓ} → Option ℕ → Options → (A → Run Encoded) → List (Input A) → Run (List Encoded)
vector_parts size o f [] = ok []
vector_parts (some k) o f (x ∷ xs) =
    and_then (encode_input o f x)
      λ item. and_then (vector_parts (some k) o f xs) λ rest. ok (item ∷ rest)
vector_parts none o f (x ∷ xs) = and_then (encode_input o f x) λ item.
    and_then
      (elim item [
        | null_bytes ↦ thrown not_a_buffer
        | undefined_bytes ↦ thrown not_a_buffer
        | bytes b ↦ packed (uvint_pack (length b))
      ])
      λ size. and_then (vector_parts none o f xs) λ rest. ok (bytes size ∷ item ∷ rest)

unfoldable pub encode_vector {ℓ} :
    {A : Type ℓ} → Option ℕ → ℕ → Options → (A → Run Encoded) → List (Input A) → Run Encoded
unfolding vector_parts
encode_vector size dimension o f xs =
    if length xs == dimension
    then (if length xs == 0
        then thrown empty_vector
        else and_then (vector_parts size o f xs) λ parts. as_bytes (concat parts))
    else thrown wrong_dimension

unfoldable mutual
  unfolding encode_list encode_map encode_vector field_part encode_input concat

  pub encode_value : (o : Options) (t : Cql) → Val t → Run Encoded
  encode_value o boolean v = ok (bytes (if v then 1 ∷ [] else 0 ∷ []))
  encode_value o int v = as_bytes (write_int32 v)
  encode_value o smallint v = as_bytes (write_int16 v)
  encode_value o tinyint v = as_bytes (write_int8 v)
  encode_value o bigint v = ok (bytes (encode_bigint v))
  encode_value o varint v = ok (bytes (encode_varint v))
  encode_value o blob v = ok (bytes v)
  encode_value o (list_of t) xs = encode_list (length_size o) (encode_value o t) xs
  encode_value o (map_of k t) entries =
      encode_map (length_size o) (encode_value o k) (encode_value o t) entries
  encode_value o (tuple_of ts) v = as_bytes (encode_tuple o ts v)
  encode_value o (udt_of ts) v = as_bytes (encode_udt o ts v)
  encode_value o (vector_of t n) xs = encode_vector (serialization_size t) n o (encode_value o t) xs

  pub encode_tuple : (o : Options) (ts : Cqls) → Elements ts → Run (List ℕ)
  encode_tuple o no_types v = ok []
  encode_tuple o (cons t ts) none = ok []
  encode_tuple o (cons t ts) (some (x, v)) = and_then (encode_input o (encode_value o t) x) λ item.
      and_then (field_part item) λ part. and_then (encode_tuple o ts v) λ rest. ok (part ++ rest)

  pub encode_udt : (o : Options) (ts : Cqls) → Fields ts → Run (List ℕ)
  encode_udt o no_types v = ok []
  encode_udt o (cons t ts) (x, v) = and_then (encode_input o (encode_value o t) x) λ item.
      and_then (field_part item) λ part. and_then (encode_udt o ts v) λ rest. ok (part ++ rest)

unfoldable pub encode : (o : Options) (t : Cql) → Input (Val t) → Run Encoded
encode o t x = encode_input o (encode_value o t) x
