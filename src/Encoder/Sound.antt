-- ===== src/Encoder/Sound.antt =====
-- lib/encoder.js: a value of each type is read back, where the values in it are.
use mathlib.Core.Path.{subst}
use mathlib.Core.List.{append-nil}
use integration_hell.Common.{
  ℕ, ◌*◌, ◌<◌, ◌≡◌, ◌≢◌, refl, sym, ap, ◌∙◌, ◌⊎◌, inl, inr, Bool, true, false, Option, none, some,
  List, [], ◌∷◌, length, All, All-imp,
}
use integration_hell.Common.Int.{pos}
use integration_hell.Encoder.Buffer.{
  Run, ok, and_then, ok_injective, write_int8, write_int16, write_int32, read_int32,
  read-write_int32, read-write_int16, read-write_int8, read_int8, read_int16, length-write_int32,
  LengthSize,
}
use integration_hell.Encoder.Varint.{
  encode_varint, decode_varint, decode_varint-encode_varint, no_varint, length-encode_bigint,
  encode_bigint, decode_bigint, decode_bigint-encode_bigint,
}
use integration_hell.Encoder.Types.{
  Cql, boolean, int, smallint, tinyint, bigint, varint, blob, list_of, map_of, tuple_of, udt_of,
  vector_of, Input, undefined, null, unset, given, Val, serialization_size, zero_length,
}
use integration_hell.Encoder.Sizes.{Gives, Fixed, FixedItem, vector_Gives, vector_fixed}
use integration_hell.Encoder.Encode.{
  Encoded, bytes, Options, length_size, as_bytes, encode_list, encode_map, encode_vector,
  encode_value,
}
use integration_hell.Encoder.Solid.{
  Item, Entry, Solid, with_value, longer, no_list, no_map, as_bytes_inverse, list_Gives, map_Gives,
  Sound-Reads, Sound-not_null, Item-Reads, Item-Element,
}
use integration_hell.Encoder.Decode.{
  decode_with, decode_list, decode_map, vector_items, decode_value,
}
use integration_hell.Encoder.Collections.{bytes_injective, ReadsItem, list_Reads}
use integration_hell.Encoder.Maps.{ReadsEntry, map_Reads}
use integration_hell.Encoder.Fields.{Sound}
use integration_hell.Encoder.Vectors.{ReadsElement, vector_Reads}

abbrev pub reader : (s : LengthSize) (t : Cql) → List ℕ → Run (Input (Val t))
reader s t = decode_with (zero_length t) (decode_value s t)

-- A value of a type of a fixed size has that size.
Fixed-vector :
    (o : Options) (t : Cql) (n : ℕ) (size : Option ℕ) (xs : List (Input (Val t)))
    → All (Item (Solid t)) xs
    → ((k : ℕ) → size ≡ some k → (v : Val t) → Solid t v → Fixed o (encode_value o t) (some k) v)
    → Fixed o
        (encode_vector size n o (encode_value o t))
        (elim size [ none ↦ none | some k ↦ some (k * n) ])
        xs
Fixed-vector o t n none xs solid fixed = tt
Fixed-vector o t n (some k) xs solid fixed = λ b.
    vector_fixed o (encode_value o t) k n xs b
      (All-imp (Item (Solid t)) (FixedItem o (encode_value o t) (some k)) each xs solid)
  where
    each : (x : Input (Val t)) → Item (Solid t) x → FixedItem o (encode_value o t) (some k) x
    each undefined h = h
    each null h = h
    each unset h = h
    each (given v) h = fixed k refl v h

Fixed-value :
    (o : Options) (t : Cql) (v : Val t)
    → Solid t v
    → Fixed o (encode_value o t) (serialization_size t) v
unfolding encode_value serialization_size
Fixed-value o boolean true solid =
    λ b h. ap length (bytes_injective b (1 ∷ []) (sym (ok_injective _ _ h)))
Fixed-value o boolean false solid =
    λ b h. ap length (bytes_injective b (0 ∷ []) (sym (ok_injective _ _ h)))
Fixed-value o int v solid = λ b h.
    let (c, e, i) = as_bytes_inverse (write_int32 v) (bytes b) h in
    ap length (bytes_injective b c i) ∙ length-write_int32 v c e
Fixed-value o smallint v solid = tt
Fixed-value o tinyint v solid = tt
Fixed-value o bigint v solid = λ b h.
    ap length (bytes_injective b (encode_bigint v) (sym (ok_injective _ _ h)))
    ∙ length-encode_bigint v
Fixed-value o varint v solid = tt
Fixed-value o blob v solid = tt
Fixed-value o (list_of t) v solid = tt
Fixed-value o (map_of k t) v solid = tt
Fixed-value o (tuple_of ts) v solid = tt
Fixed-value o (udt_of ts) v solid = tt
Fixed-value o (vector_of t n) xs solid =
    Fixed-vector o t n (serialization_size t) xs solid
      λ k e v s. subst (λ size. Fixed o (encode_value o t) size v) e (Fixed-value o t v s)

-- A value whose bytes are not empty, or may be.
Sound-bytes :
    {A : Type 0} (o : Options) (f : A → Run Encoded) (supported : Bool) (g : List ℕ → Run A) (v : A)
    → Gives (f v)
    → ((b : List ℕ)
        → f v ≡ ok (bytes b)
        → length b < 2147483648
        → ((b ≢ []) ⊎ (supported ≡ true)) × (g b ≡ ok v))
    → Sound o f (decode_with supported g) v
Sound-bytes o f supported g v gives read item h =
    let (b, i) = gives item h in
    (b, i, λ small. let (e, r) = read b (h ∙ ap ok i) small in with_value supported g b v e r)

-- A value whose bytes are these.
pub Sound-exact :
    {A : Type 0} (o : Options) (f : A → Run Encoded) (supported : Bool) (g : List ℕ → Run A) (v : A)
    (r : Run (List ℕ))
    → f v ≡ as_bytes r
    → ((b : List ℕ) → r ≡ ok b → ((b ≢ []) ⊎ (supported ≡ true)) × (g b ≡ ok v))
    → Sound o f (decode_with supported g) v
Sound-exact o f supported g v r e read item h =
    let (b, re, i) = as_bytes_inverse r item (sym e ∙ h) in
    (b, i, λ small. let (x, y) = read b re in with_value supported g b v x y)

-- Each solid value of the type is read back.
abbrev pub SoundType : (o : Options) (t : Cql) → Type 0
SoundType o t = (v : Val t) → Solid t v → Sound o (encode_value o t) (reader (length_size o) t) v

pub list_Sound : (o : Options) (t : Cql) → SoundType o t → SoundType o (list_of t)
unfolding encode_value decode_value zero_length
list_Sound o t each xs solid =
    let f = encode_value o t in
    let g = reader (length_size o) t in
    let reads =
      All-imp (Item (Solid t)) (ReadsItem f g) (Item-Reads o f g (Solid t) each) xs solid.1 in
    Sound-bytes o (encode_list (length_size o) f) false (decode_list (length_size o) g) xs
      (list_Gives (length_size o) f xs solid.0)
      (λ b e small.
        let r = list_Reads f g (length_size o) xs b reads e in
        (inl (no_list (length_size o) g b xs r), r))

map-Entry :
    (o : Options) (k t : Cql)
    → SoundType o k
    → SoundType o t
    → (x : Input (Val k) × Input (Val t)) → Entry (Solid k) (Solid t) x
    → ReadsEntry
        (encode_value o k)
        (reader (length_size o) k)
        (encode_value o t)
        (reader (length_size o) t)
        x
map-Entry o k t keys values (x, undefined) h = h.1
map-Entry o k t keys values (x, null) h = h.1
map-Entry o k t keys values (x, unset) h = h.1
map-Entry o k t keys values (x, given v) h =
    let f = encode_value o t in
    let g = reader (length_size o) t in
    (
      Item-Reads o (encode_value o k) (reader (length_size o) k) (Solid k) keys x h.0,
      Sound-Reads o f g v (values v h.1),
      Sound-not_null o f g v (values v h.1),
    )

pub map_Sound : (o : Options) (k t : Cql) → SoundType o k → SoundType o t → SoundType o (map_of k t)
unfolding encode_value decode_value zero_length
map_Sound o k t keys values entries solid =
    let s = length_size o in
    let f = encode_value o k in
    let g = reader s k in
    let f' = encode_value o t in
    let g' = reader s t in
    let reads =
      All-imp (Entry (Solid k) (Solid t)) (ReadsEntry f g f' g') (map-Entry o k t keys values)
        entries solid in
    Sound-bytes o (encode_map s f f') false (decode_map s g g') entries (map_Gives s f f' entries)
      (λ b e small.
        let r = map_Reads f g f' g' s entries b reads e in (inl (no_map s g g' b entries r), r))

pub vector_Sound : (o : Options) (t : Cql) (n : ℕ) → SoundType o t → SoundType o (vector_of t n)
unfolding encode_value decode_value zero_length
vector_Sound o t n each xs solid =
    let f = encode_value o t in
    let g = reader (length_size o) t in
    let size = serialization_size t in
    let reads =
      All-imp (Item (Solid t)) (ReadsElement o f g size)
        (Item-Element o f g (Solid t) each size (Fixed-value o t)) xs solid in
    Sound-bytes o (encode_vector size n o f) true (λ b. vector_items size g b n (pos 0)) xs
      (vector_Gives o f size n xs)
      (λ b e small. (inr refl, vector_Reads o f g size n xs b reads e small))

pub int_Sound : (o : Options) → SoundType o int
unfolding encode_value decode_value zero_length
int_Sound o v solid =
    Sound-exact o (λ x. as_bytes (write_int32 x)) false (λ b. read_int32 b (pos 0)) v
      (write_int32 v) refl
      λ b e. (
        inl (longer 3 b (length-write_int32 v b e)),
        (read-write_int32 v b 0 b [] e (sym (append-nil b))).0,
      )

pub smallint_Sound : (o : Options) → SoundType o smallint
unfolding encode_value decode_value zero_length
smallint_Sound o v solid =
    Sound-exact o (λ x. as_bytes (write_int16 x)) false (λ b. read_int16 b (pos 0)) v
      (write_int16 v) refl λ b e. let (r, n) = read-write_int16 v b e in (inl (longer 1 b n), r)

pub tinyint_Sound : (o : Options) → SoundType o tinyint
unfolding encode_value decode_value zero_length
tinyint_Sound o v solid =
    Sound-exact o (λ x. as_bytes (write_int8 x)) false (λ b. read_int8 b (pos 0)) v (write_int8 v)
      refl λ b e. let (r, n) = read-write_int8 v b e in (inl (longer 0 b n), r)

pub bigint_Sound : (o : Options) → SoundType o bigint
unfolding encode_value decode_value zero_length and_then
bigint_Sound o v solid =
    Sound-exact o (λ x. ok (bytes (encode_bigint x))) false decode_bigint v (ok (encode_bigint v))
      refl
      λ b e.
        let same = ok_injective _ _ e in
        (
          inl (longer 7 b (ap length (sym same) ∙ length-encode_bigint v)),
          ap decode_bigint (sym same) ∙ decode_bigint-encode_bigint v solid,
        )

pub varint_Sound : (o : Options) → SoundType o varint
unfolding encode_value decode_value zero_length and_then
varint_Sound o v solid =
    Sound-exact o (λ x. ok (bytes (encode_varint x))) false (λ b. ok (decode_varint b)) v
      (ok (encode_varint v)) refl
      λ b e.
        let same = ok_injective _ _ e in
        (
          inl (λ nothing. no_varint v (same ∙ nothing)),
          ap (λ x. ok (decode_varint x)) (sym same) ∙ ap ok (decode_varint-encode_varint v),
        )

pub blob_Sound : (o : Options) → SoundType o blob
unfolding encode_value decode_value zero_length and_then
blob_Sound o v solid =
    Sound-exact o (λ x. ok (bytes x)) true (λ b. ok b) v (ok v) refl λ b e. (inr refl, sym e)

pub boolean_Sound : (o : Options) → SoundType o boolean
unfolding encode_value decode_value zero_length and_then
boolean_Sound o true solid item h = (1 ∷ [], sym (ok_injective _ _ h), λ small. refl)
boolean_Sound o false solid item h = (0 ∷ [], sym (ok_injective _ _ h), λ small. refl)
