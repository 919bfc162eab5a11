-- ===== src/Encoder/RoundTrip.antt =====
-- lib/encoder.js: `decode` of what `encode` writes.
use integration_hell.Common.{ℕ, ◌<◌, ◌≡◌, List, length}
use integration_hell.Encoder.Buffer.{ok}
use integration_hell.Encoder.Types.{
  Cql, boolean, int, smallint, tinyint, bigint, varint, blob, list_of, map_of, tuple_of, udt_of,
  vector_of, Cqls, no_types, cons, given, Val,
}
use integration_hell.Encoder.Encode.{
  bytes, Options, length_size, encode_input, encode_value, encode,
}
use integration_hell.Encoder.Solid.{Solid, Sound-Reads}
use integration_hell.Encoder.Sound.{
  reader, SoundType, boolean_Sound, int_Sound, smallint_Sound, tinyint_Sound, bigint_Sound,
  varint_Sound, blob_Sound, list_Sound, map_Sound, vector_Sound,
}
use integration_hell.Encoder.Tuples.{
  TupleRead, UdtRead, tuple_end, udt_end, tuple_step, udt_step, tuple_Sound, udt_Sound,
}
use integration_hell.Encoder.Decode.{decode}

mutual
  all_Sound : (o : Options) (t : Cql) → SoundType o t
  all_Sound o boolean v solid = boolean_Sound o v solid
  all_Sound o int v solid = int_Sound o v solid
  all_Sound o smallint v solid = smallint_Sound o v solid
  all_Sound o tinyint v solid = tinyint_Sound o v solid
  all_Sound o bigint v solid = bigint_Sound o v solid
  all_Sound o varint v solid = varint_Sound o v solid
  all_Sound o blob v solid = blob_Sound o v solid
  all_Sound o (list_of t) v solid = list_Sound o t (all_Sound o t) v solid
  all_Sound o (map_of k t) v solid = map_Sound o k t (all_Sound o k) (all_Sound o t) v solid
  all_Sound o (tuple_of ts) v solid = tuple_Sound o ts (tuple_read o ts) v solid
  all_Sound o (udt_of ts) v solid = udt_Sound o ts (udt_read o ts) v solid
  all_Sound o (vector_of t n) v solid = vector_Sound o t n (all_Sound o t) v solid

  tuple_read : (o : Options) (ts : Cqls) → TupleRead o ts
  tuple_read o no_types = tuple_end o
  tuple_read o (cons t ts) = tuple_step o t ts (all_Sound o t) (tuple_read o ts)

  udt_read : (o : Options) (ts : Cqls) → UdtRead o ts
  udt_read o no_types = udt_end o
  udt_read o (cons t ts) = udt_step o t ts (all_Sound o t) (udt_read o ts)

-- What a value is encoded to, if to fewer than 2 ^ 31 bytes, is decoded to that value, in every version
-- of the protocol and however types are nested, where it is solid: integers for bigint are in range of
-- 64 bits, lists are not empty, items of collections and vectors are given, and tuples and
-- user-defined types have a first field, their fields being all there and given or null.
pub decode-encode :
    (o : Options) (t : Cql) (v : Val t) (b : List ℕ)
    → Solid t v
    → encode o t (given v) ≡ ok (bytes b)
    → length b < 2147483648
    → decode (length_size o) t b ≡ ok (given v)
unfolding encode encode_input decode
decode-encode o t v b solid e small =
    Sound-Reads o (encode_value o t) (reader (length_size o) t) v (all_Sound o t v solid) b e small
