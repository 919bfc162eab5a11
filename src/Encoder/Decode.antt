-- ===== src/Encoder/Decode.antt =====
-- lib/encoder.js: `decode`, and the decoders of the types that are modelled. A field or an element that
-- the bytes end before is undefined. `readValues` of a map is the list of the entries in the order in
-- which they are set.
use integration_hell.Common.{
  ℕ, zero, suc, ◌+◌, Bool, not, Option, none, some, List, [], ◌∷◌, length, ltb, ◌==◌, if◌then◌else◌,
}
use integration_hell.Common.Int.{ℤ, pos, negsuc, ◌+ℤ◌, ltb_ℤ}
use integration_hell.Encoder.Buffer.{
  out_of_range, not_enough_bytes, extra_bytes, Run, thrown, ok, and_then, word1, from_offset,
  read_int8, read_int16, read_int32, slice, LengthSize, size_of, decode_collection_length,
}
use integration_hell.Encoder.Varint.{decode_bigint, decode_varint}
use integration_hell.Encoder.Types.{
  Cql, boolean, int, smallint, tinyint, bigint, varint, blob, list_of, map_of, tuple_of, udt_of,
  vector_of, Cqls, no_types, cons, Input, undefined, null, given, Val, Elements, Fields,
  serialization_size, zero_length,
}
use integration_hell.Utils.Uvint.{uvint_unpack}

-- `decode` around the decoder of a type: `supported` tells whether it takes an empty buffer.
unfoldable pub decode_with {ℓ} : {A : Type ℓ} → Bool → (List ℕ → Run A) → List ℕ → Run (Input A)
decode_with supported f [] = if supported then and_then (f []) (λ v. ok (given v)) else ok null
decode_with supported f (b ∷ bytes) = and_then (f (b ∷ bytes)) λ v. ok (given v)

-- The loop of `decodeList`: `left` items from the offset on.
unfoldable pub list_items {ℓ} :
    {A : Type ℓ} → LengthSize → (List ℕ → Run (Input A)) → List ℕ → ℕ → ℤ → Run (List (Input A))
list_items s f bytes zero offset = ok []
list_items s f bytes (suc left) offset = and_then (decode_collection_length s bytes offset) λ size.
    let start = offset +ℤ pos (size_of s) in
    and_then (f (slice bytes start (start +ℤ size)))
      λ item. and_then (list_items s f bytes left (start +ℤ size)) λ rest. ok (item ∷ rest)

-- `new Array(totalItems)` throws on a negative number.
unfoldable pub decode_list {ℓ} :
    {A : Type ℓ} → LengthSize → (List ℕ → Run (Input A)) → List ℕ → Run (List (Input A))
unfolding list_items
decode_list s f bytes = and_then (decode_collection_length s bytes (pos 0)) λ total. elim total [
  | pos n ↦ list_items s f bytes n (pos (size_of s))
  | negsuc n ↦ thrown out_of_range
]

unfoldable pub map_entries {ℓ κ} :
    {A : Type ℓ} {B : Type κ}
    → LengthSize
    → (List ℕ → Run (Input A))
    → (List ℕ → Run (Input B))
    → List ℕ
    → ℕ
    → ℤ
    → Run (List (Input A × Input B))
map_entries s f g bytes zero offset = ok []
map_entries s f g bytes (suc left) offset =
    and_then (decode_collection_length s bytes offset) λ key_length.
      let start = offset +ℤ pos (size_of s) in
      and_then (f (slice bytes start (start +ℤ key_length))) λ key.
        let after = start +ℤ key_length in
        and_then (decode_collection_length s bytes after) λ value_length.
          let value_start = after +ℤ pos (size_of s) in
          if ltb_ℤ value_length (pos 0)
          then (and_then (map_entries s f g bytes left value_start) λ rest. ok ((key, null) ∷ rest))
          else (and_then (g (slice bytes value_start (value_start +ℤ value_length))) λ value.
              and_then (map_entries s f g bytes left (value_start +ℤ value_length))
                λ rest. ok ((key, value) ∷ rest))

unfoldable pub decode_map {ℓ κ} :
    {A : Type ℓ} {B : Type κ}
    → LengthSize
    → (List ℕ → Run (Input A))
    → (List ℕ → Run (Input B))
    → List ℕ
    → Run (List (Input A × Input B))
unfolding map_entries
decode_map s f g bytes =
    and_then (decode_collection_length s bytes (pos 0))
      λ total. elim total [ pos n ↦ map_entries s f g bytes n (pos (size_of s)) | negsuc n ↦ ok [] ]

-- A field or an element at an offset: its value, and the offset after it.
unfoldable pub decode_field {ℓ} :
    {A : Type ℓ} → (List ℕ → Run (Input A)) → List ℕ → ℕ → Run (Input A × ℕ)
decode_field f bytes offset = and_then (read_int32 bytes (pos offset)) λ size. elim size [
  | negsuc n ↦ ok (null, offset + 4)
  | pos n ↦
      and_then (f (slice bytes (pos (offset + 4)) (pos (offset + 4 + n))))
        λ value. ok (value, offset + 4 + n)
]

abbrev first_of {ℓ} : {A : Type ℓ} → List ℕ → (ℕ → List ℕ → Run A) → Run A
first_of [] f = thrown extra_bytes
first_of (b ∷ more) f = f b more

-- The loop of `decodeVector`, and the check after it. Where there are no bytes left, the size that is
-- unpacked is no number, nor is any offset after it, and the check fails.
unfoldable pub vector_items {ℓ} :
    {A : Type ℓ} → Option ℕ → (List ℕ → Run (Input A)) → List ℕ → ℕ → ℤ → Run (List (Input A))
vector_items size f bytes zero (pos offset) =
    if offset == length bytes then ok [] else thrown extra_bytes
vector_items size f bytes zero (negsuc offset) = thrown extra_bytes
vector_items (some k) f bytes (suc left) offset =
    if ltb_ℤ (pos (length bytes)) (offset +ℤ pos k)
    then thrown not_enough_bytes
    else (and_then (f (slice bytes offset (offset +ℤ pos k))) λ item.
        and_then (vector_items (some k) f bytes left (offset +ℤ pos k)) λ rest. ok (item ∷ rest))
vector_items none f bytes (suc left) offset =
    first_of (slice bytes offset (pos (length bytes))) λ b more.
      let start = offset +ℤ pos (uvint_unpack b more).1 in
      let end = start +ℤ (uvint_unpack b more).0 in
      if ltb_ℤ (pos (length bytes)) end
      then thrown not_enough_bytes
      else (and_then (f (slice bytes start end))
          λ item. and_then (vector_items none f bytes left end) λ rest. ok (item ∷ rest))

unfoldable mutual
  unfolding decode_with decode_list decode_map decode_field vector_items

  pub decode_value : (s : LengthSize) (t : Cql) → List ℕ → Run (Val t)
  decode_value s boolean bytes = and_then (word1 (from_offset bytes (pos 0))) λ v. ok (not (v == 0))
  decode_value s int bytes = read_int32 bytes (pos 0)
  decode_value s smallint bytes = read_int16 bytes (pos 0)
  decode_value s tinyint bytes = read_int8 bytes (pos 0)
  decode_value s bigint bytes = decode_bigint bytes
  decode_value s varint bytes = ok (decode_varint bytes)
  decode_value s blob bytes = ok bytes
  decode_value s (list_of t) bytes =
      decode_list s (decode_with (zero_length t) (decode_value s t)) bytes
  decode_value s (map_of k t) bytes =
      decode_map s (decode_with (zero_length k) (decode_value s k))
        (decode_with (zero_length t) (decode_value s t)) bytes
  decode_value s (tuple_of ts) bytes = decode_tuple s ts bytes 0
  decode_value s (udt_of ts) bytes = decode_udt s ts bytes 0
  decode_value s (vector_of t n) bytes =
      vector_items (serialization_size t) (decode_with (zero_length t) (decode_value s t)) bytes n
        (pos 0)

  pub decode_tuple : (s : LengthSize) (ts : Cqls) → List ℕ → ℕ → Run (Elements ts)
  decode_tuple s no_types bytes offset = ok tt
  decode_tuple s (cons t ts) bytes offset =
      if ltb offset (length bytes)
      then (and_then (decode_field (decode_with (zero_length t) (decode_value s t)) bytes offset)
          λ field. and_then (decode_tuple s ts bytes field.1) λ rest. ok (some (field.0, rest)))
      else (and_then (decode_tuple s ts bytes offset) λ rest. ok (some (undefined, rest)))

  pub decode_udt : (s : LengthSize) (ts : Cqls) → List ℕ → ℕ → Run (Fields ts)
  decode_udt s no_types bytes offset = ok tt
  decode_udt s (cons t ts) bytes offset =
      if ltb offset (length bytes)
      then (and_then (decode_field (decode_with (zero_length t) (decode_value s t)) bytes offset)
          λ field. and_then (decode_udt s ts bytes field.1) λ rest. ok (field.0, rest))
      else (and_then (decode_udt s ts bytes offset) λ rest. ok (undefined, rest))

unfoldable pub decode : (s : LengthSize) (t : Cql) → List ℕ → Run (Input (Val t))
decode s t bytes = decode_with (zero_length t) (decode_value s t) bytes
