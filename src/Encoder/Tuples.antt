-- ===== src/Encoder/Tuples.antt =====
-- lib/encoder.js: tuples and user-defined types are read back, where their fields are.
use integration_hell.Common.{ℕ, ◌≡◌, refl, ◌∙◌, inl, false, none, some, List, drop}
use integration_hell.Encoder.Buffer.{ok, and_then}
use integration_hell.Encoder.Types.{
  Cql, tuple_of, udt_of, Cqls, no_types, cons, Elements, Fields, zero_length,
}
use integration_hell.Encoder.Encode.{
  Options, length_size, as_bytes, encode_input, encode_value, encode_tuple, encode_udt,
}
use integration_hell.Encoder.Solid.{Solid, SolidElements, SolidFields, fields_inverse, Field-Sound}
use integration_hell.Encoder.Sound.{reader, SoundType, Sound-exact}
use integration_hell.Encoder.Decode.{decode_value, decode_tuple, decode_udt}
use integration_hell.Encoder.Fields.{field_lem}

-- The elements of a tuple at an offset up to the end.
abbrev pub TupleRead : (o : Options) (ts : Cqls) → Type 0
TupleRead o ts =
    (v : Elements ts)
    → SolidElements ts v
    → (all b : List ℕ) (off : ℕ) → encode_tuple o ts v ≡ ok b
    → drop off all ≡ b
    → decode_tuple (length_size o) ts all off ≡ ok v

abbrev pub UdtRead : (o : Options) (ts : Cqls) → Type 0
UdtRead o ts =
    (v : Fields ts)
    → SolidFields ts v
    → (all b : List ℕ) (off : ℕ) → encode_udt o ts v ≡ ok b
    → drop off all ≡ b
    → decode_udt (length_size o) ts all off ≡ ok v

pub tuple_end : (o : Options) → TupleRead o no_types
unfolding decode_tuple
tuple_end o v solid all b off e at = refl

pub udt_end : (o : Options) → UdtRead o no_types
unfolding decode_udt
udt_end o v solid all b off e at = refl

pub tuple_step :
    (o : Options) (t : Cql) (ts : Cqls) → SoundType o t → TupleRead o ts → TupleRead o (cons t ts)
unfolding encode_tuple decode_tuple and_then
tuple_step o t ts each more none solid all b off e at = absurd solid
tuple_step o t ts each more (some (x, v)) solid all b off e at =
    let f = encode_value o t in
    let g = reader (length_size o) t in
    let (item, part, rest, ie, pe, re, whole, there) =
      fields_inverse (encode_input o f x) (encode_tuple o ts v) b e in
    let (off', dec, after, before) =
      field_lem o f g x item part all rest off (Field-Sound o f g (Solid t) each x solid.0) ie pe
        (at ∙ whole) in
    let others = more v solid.1 all rest off' re after in rw (before, dec, others) refl

pub udt_step :
    (o : Options) (t : Cql) (ts : Cqls) → SoundType o t → UdtRead o ts → UdtRead o (cons t ts)
unfolding encode_udt decode_udt and_then
udt_step o t ts each more (x, v) solid all b off e at =
    let f = encode_value o t in
    let g = reader (length_size o) t in
    let (item, part, rest, ie, pe, re, whole, there) =
      fields_inverse (encode_input o f x) (encode_udt o ts v) b e in
    let (off', dec, after, before) =
      field_lem o f g x item part all rest off (Field-Sound o f g (Solid t) each x solid.0) ie pe
        (at ∙ whole) in
    let others = more v solid.1 all rest off' re after in rw (before, dec, others) refl

pub tuple_Sound : (o : Options) (ts : Cqls) → TupleRead o ts → SoundType o (tuple_of ts)
unfolding encode_value decode_value encode_tuple zero_length
tuple_Sound o no_types read v solid = absurd solid
tuple_Sound o (cons t ts) read none solid = absurd solid
tuple_Sound o (cons t ts) read (some (x, v)) solid =
    let all_ts = cons t ts in
    Sound-exact o (λ y. as_bytes (encode_tuple o all_ts y)) false
      (λ b. decode_tuple (length_size o) all_ts b 0) (some (x, v))
      (encode_tuple o all_ts (some (x, v))) refl
      λ b e.
        let (item, part, rest, ie, pe, re, whole, there) =
          fields_inverse (encode_input o (encode_value o t) x) (encode_tuple o ts v) b e in
        (inl there, read (some (x, v)) solid b b 0 e refl)

pub udt_Sound : (o : Options) (ts : Cqls) → UdtRead o ts → SoundType o (udt_of ts)
unfolding encode_value decode_value encode_udt zero_length
udt_Sound o no_types read v solid = absurd solid
udt_Sound o (cons t ts) read (x, v) solid =
    let all_ts = cons t ts in
    Sound-exact o (λ y. as_bytes (encode_udt o all_ts y)) false
      (λ b. decode_udt (length_size o) all_ts b 0) (x, v) (encode_udt o all_ts (x, v)) refl
      λ b e.
        let (item, part, rest, ie, pe, re, whole, there) =
          fields_inverse (encode_input o (encode_value o t) x) (encode_udt o ts v) b e in
        (inl there, read (x, v) solid b b 0 e refl)
