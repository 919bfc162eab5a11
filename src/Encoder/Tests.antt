-- ===== src/Encoder/Tests.antt =====
-- lib/encoder.js: tests of the encoder.
use integration_hell.Common.{
  map, get_elem?, get_or, none, some, ℕ, ◌≡◌, ◌≢◌, refl, arith, true, List, [], ◌∷◌,
}
use integration_hell.Common.Int.{ℤ, pos, negsuc}
use integration_hell.Encoder.Buffer.{
  Run, ok, and_then, write_int8, write_int32, four, get_length_buffer,
}
use integration_hell.Encoder.Varint.{
  encode_varint, loop_bytes, loop_bytes_negative, pad_positive, pad_negative,
}
use integration_hell.Encoder.Types.{
  Cql, boolean, int, smallint, tinyint, varint, list_of, map_of, udt_of, vector_of, no_types, cons,
  Input, null, given, Val, serialization_size,
}
use integration_hell.Encoder.Encode.{
  Encoded, undefined_bytes, bytes, Options, length_size, concat, encode_input, not_null, list_parts,
  encode_list, map_parts, encode_map, field_part, vector_parts, encode_vector, encode_value,
  encode_udt, encode,
}
use integration_hell.Encoder.Decode.{decode}
use integration_hell.Encoder.Solid.{Solid}
use integration_hell.Encoder.Errors.{HasBytes, encode_list-HasBytes}
use integration_hell.Encoder.Routing.{Execution, no_key, key, with_key, set_routing_key_from_meta}
use integration_hell.Encoder.Routing.Parts.{components, set_routing_key_from_meta-components}
use integration_hell.Encoder.RoundTrip.{decode-encode}
use integration_hell.Utils.Uvint.{binary_length, pack_loop, finish, uvint_pack}

abbrev options : Options
options = record { use_undefined_as_unset = true; protocol_version = 4 }

-- A user-defined type of a list, a vector, a map and a number.
abbrev column : Cql
column = udt_of (
    cons (list_of int)
      (cons (vector_of varint 2) (cons (map_of tinyint boolean) (cons smallint no_types))))

abbrev row : Val column
row = (
  given (given (pos 1) ∷ given (negsuc 1) ∷ []),
  (
    given (given (pos 300) ∷ given (negsuc 0) ∷ []),
    (given ((given (pos 7), given true) ∷ []), (null, tt)),
  ),
)

encoded : Run Encoded
unfolding encode encode_input encode_value encode_udt encode_list list_parts encode_map map_parts
    encode_vector vector_parts field_part concat not_null length_size and_then get_length_buffer
    write_int8 write_int32 serialization_size encode_varint loop_bytes loop_bytes_negative
    pad_positive pad_negative uvint_pack pack_loop finish binary_length
encoded = encode options column (given row)

abbrev written : List ℕ
written =
    0 ∷ 0 ∷ 0 ∷ 20 ∷ 0 ∷ 0 ∷ 0 ∷ 2 ∷ 0 ∷ 0 ∷ 0 ∷ 4 ∷ 0 ∷ 0 ∷ 0 ∷ 1 ∷ 0 ∷ 0 ∷ 0 ∷ 4 ∷ 255 ∷ 255 ∷ 255
    ∷ 254 ∷ 0 ∷ 0 ∷ 0 ∷ 5 ∷ 2 ∷ 1 ∷ 44 ∷ 1 ∷ 255 ∷ 0 ∷ 0 ∷ 0 ∷ 14 ∷ 0 ∷ 0 ∷ 0 ∷ 1 ∷ 0 ∷ 0 ∷ 0 ∷ 1
    ∷ 7 ∷ 0 ∷ 0 ∷ 0 ∷ 1 ∷ 1 ∷ 255 ∷ 255 ∷ 255 ∷ 255 ∷ []

encoded_written : encode options column (given row) ≡ ok (bytes written)
unfolding encode encode_input encode_value encode_udt encode_list list_parts encode_map map_parts
    encode_vector vector_parts field_part concat not_null length_size and_then get_length_buffer
    write_int8 write_int32 serialization_size encode_varint loop_bytes loop_bytes_negative
    pad_positive pad_negative uvint_pack pack_loop finish binary_length
encoded_written = refl

some_items : (v : Input ℤ) (xs : List (Input ℤ)) → v ∷ xs ≢ []
some_items v xs h = ground arith

row-Solid : Solid column row
row-Solid = ((some_items _ _, (tt, (tt, tt))), ((tt, (tt, tt)), (((tt, tt), tt), (tt, tt))))

decode-encode_example : decode (length_size options) column written ≡ ok (given row)
decode-encode_example =
    decode-encode options column row written row-Solid encoded_written (omega arith)

one_item :
    encode_list four (λ v. ok (bytes (encode_varint v))) (given (pos 5) ∷ [])
    ≡ ok (bytes (0 ∷ 0 ∷ 0 ∷ 1 ∷ 0 ∷ 0 ∷ 0 ∷ 1 ∷ 5 ∷ []))
unfolding encode_list list_parts concat not_null and_then get_length_buffer write_int32
    encode_varint loop_bytes pad_positive
one_item = refl

encode_list-HasBytes_example : HasBytes {A = ℤ} (λ v. ok (bytes (encode_varint v))) (given (pos 5))
encode_list-HasBytes_example =
    encode_list-HasBytes four (λ v. ok (bytes (encode_varint v))) [] (given (pos 5)) [] _ one_item

abbrev execution : Execution ℕ
execution = record {
  routing_key = no_key;
  routing_indexes = some (map (λ k. some k) (1 ∷ 0 ∷ []));
  routing_names = none;
}

-- Three parameters, two of which are in the key; there is nothing past the end of the parameters.
abbrev params : List (List ℕ)
params = (7 ∷ 8 ∷ []) ∷ (9 ∷ []) ∷ [] ∷ []

abbrev encode_param : ℕ → Run Encoded
encode_param k = elim (get_elem? params k) [ none ↦ ok undefined_bytes | some b ↦ ok (bytes b) ]

set_routing_key_from_meta-components_example :
    (b : List ℕ) × (set_routing_key_from_meta execution encode_param
      ≡ ok (with_key execution (key b)))
    × (components b ≡ some ((9 ∷ []) ∷ (7 ∷ 8 ∷ []) ∷ []))
set_routing_key_from_meta-components_example =
    set_routing_key_from_meta-components (λ k. get_or params k []) execution encode_param 1 0 []
      refl (refl, (refl, tt)) (omega arith, (omega arith, tt))
