-- ===== src/Encoder/Solid.antt =====
-- lib/encoder.js: the values that keep what they are, and the bytes that are written for them.
use mathlib.Core.Path.{subst}
use integration_hell.Common.{
  ℕ, suc, ◌^◌, ◌<◌, ◌≡◌, ◌≢◌, refl, sym, ap, ◌∙◌, ◌⊎◌, inl, inr, arith, Bool, true, Option, none,
  some, List, [], ◌∷◌, ◌++◌, length, length-append, All,
}
use integration_hell.Common.Int.{pos}
use integration_hell.Encoder.Buffer.{
  get_length_buffer, Run, ok, and_then, ok_injective, fits, write_int32, length-write_int32,
  LengthSize, two, four, decode_collection_length,
}
use integration_hell.Encoder.Types.{
  Cql, boolean, int, smallint, tinyint, bigint, varint, blob, list_of, map_of, tuple_of, udt_of,
  vector_of, Cqls, no_types, cons, Input, undefined, null, unset, given, Val, Elements, Fields,
}
use integration_hell.Encoder.Sizes.{Gives, Fixed}
use integration_hell.Encoder.Encode.{
  concat, list_parts, map_parts, Encoded, null_bytes, undefined_bytes, bytes, Options, as_bytes,
  encode_list, encode_map, field_part,
}
use integration_hell.Encoder.Decode.{decode_with, decode_list, decode_map}
use integration_hell.Encoder.Collections.{then_inverse, bytes_injective, Reads, ReadsItem}
use integration_hell.Encoder.Fields.{Sound, SoundField}
use integration_hell.Encoder.Vectors.{ReadsElement}

abbrev pub Item : {A : Type 0} → (A → Type 0) → Input A → Type 0
Item P undefined = ⊥
Item P null = ⊥
Item P unset = ⊥
Item P (given v) = P v

abbrev pub Field : {A : Type 0} → (A → Type 0) → Input A → Type 0
Field P undefined = ⊥
Field P null = Unit
Field P unset = ⊥
Field P (given v) = P v

abbrev pub Entry : {A B : Type 0} → (A → Type 0) → (B → Type 0) → Input A × Input B → Type 0
Entry P Q entry = Item P entry.0 × Item Q entry.1

-- The values that keep what they are: a 64-bit integer is in range; a list has an item; the items of
-- collections and vectors are given; a tuple or a user-defined type has at least one field, and all its
-- fields are there, given or null.
abbrev mutual
  pub Solid : (t : Cql) → Val t → Type 0
  Solid boolean v = Unit
  Solid int v = Unit
  Solid smallint v = Unit
  Solid tinyint v = Unit
  Solid bigint v = fits (2 ^ 63) v ≡ true
  Solid varint v = Unit
  Solid blob v = Unit
  Solid (list_of t) xs = (xs ≢ []) × All (Item (Solid t)) xs
  Solid (map_of k t) entries = All (Entry (Solid k) (Solid t)) entries
  Solid (tuple_of no_types) v = ⊥
  Solid (tuple_of (cons t ts)) none = ⊥
  Solid (tuple_of (cons t ts)) (some (x, v)) = Field (Solid t) x × SolidElements ts v
  Solid (udt_of no_types) v = ⊥
  Solid (udt_of (cons t ts)) (x, v) = Field (Solid t) x × SolidFields ts v
  Solid (vector_of t n) xs = All (Item (Solid t)) xs

  pub SolidElements : (ts : Cqls) → Elements ts → Type 0
  SolidElements no_types v = Unit
  SolidElements (cons t ts) none = ⊥
  SolidElements (cons t ts) (some (x, v)) = Field (Solid t) x × SolidElements ts v

  pub SolidFields : (ts : Cqls) → Fields ts → Type 0
  SolidFields no_types v = Unit
  SolidFields (cons t ts) (x, v) = Field (Solid t) x × SolidFields ts v

-- `decode` of bytes that are not empty, or of a type that may be.
pub with_value {ℓ} :
    {A : Type ℓ} (supported : Bool) (f : List ℕ → Run A) (b : List ℕ) (v : A)
    → (b ≢ []) ⊎ (supported ≡ true)
    → f b ≡ ok v
    → decode_with supported f b ≡ ok (given v)
unfolding decode_with and_then
with_value supported f [] v (inl some_bytes) h = absurd (some_bytes refl)
with_value supported f [] v (inr yes_supported) h = rw (yes_supported, h) refl
with_value supported f (x ∷ b) v e h = rw h refl

pub longer : (n : ℕ) (b : List ℕ) → length b ≡ suc n → b ≢ []
longer n [] h = ground arith
longer n (x ∷ b) h = ground arith

pub no_list {ℓ} :
    {A : Type ℓ} (s : LengthSize) (g : List ℕ → Run (Input A)) (b : List ℕ) (xs : List (Input A))
    → decode_list s g b ≡ ok xs
    → b ≢ []
unfolding decode_list decode_collection_length and_then
no_list two g [] xs h = ground arith
no_list four g [] xs h = ground arith
no_list s g (x ∷ b) xs h = ground arith

pub no_map {ℓ κ} :
    {A : Type ℓ} {B : Type κ} (s : LengthSize) (g : List ℕ → Run (Input A))
    (g' : List ℕ → Run (Input B)) (b : List ℕ) (xs : List (Input A × Input B))
    → decode_map s g g' b ≡ ok xs
    → b ≢ []
unfolding decode_map decode_collection_length and_then
no_map two g g' [] xs h = ground arith
no_map four g g' [] xs h = ground arith
no_map s g g' (x ∷ b) xs h = ground arith

pub as_bytes_inverse :
    (r : Run (List ℕ)) (item : Encoded)
    → as_bytes r ≡ ok item
    → (b : List ℕ) × (r ≡ ok b) × (item ≡ bytes b)
unfolding and_then
as_bytes_inverse r item h =
    let (b, e, f) = then_inverse r (λ x. ok (bytes x)) item h in (b, e, sym (ok_injective _ _ f))

pub list_Gives {ℓ} :
    {A : Type ℓ} (s : LengthSize) (f : A → Run Encoded) (xs : List (Input A))
    → xs ≢ []
    → Gives (encode_list s f xs)
unfolding encode_list
list_Gives s f [] some_items item h = absurd (some_items refl)
list_Gives s f (x ∷ xs) some_items item h =
    let (size, se, h1) = then_inverse (get_length_buffer s (length (x ∷ xs))) _ item h in
    let (parts, pe, h2) = then_inverse (list_parts s f (x ∷ xs)) _ item h1 in
    let (b, e, i) = as_bytes_inverse (concat (bytes size ∷ parts)) item h2 in (b, i)

pub map_Gives {ℓ κ} :
    {A : Type ℓ} {B : Type κ} (s : LengthSize) (f : A → Run Encoded) (g : B → Run Encoded)
    (entries : List (Input A × Input B))
    → Gives (encode_map s f g entries)
unfolding encode_map
map_Gives s f g entries item h =
    let (parts, pe, h1) = then_inverse (map_parts s f g entries) _ item h in
    let (size, se, h2) = then_inverse (get_length_buffer s (length entries)) _ item h1 in
    let (b, e, i) = as_bytes_inverse (concat (bytes size ∷ parts)) item h2 in (b, i)

field_some : (item : Encoded) (part : List ℕ) → field_part item ≡ ok part → part ≢ []
unfolding field_part
field_some null_bytes part h e = ground (arith, ok_injective _ _ h)
field_some undefined_bytes part h e = ground (arith, ok_injective _ _ h)
field_some (bytes b) part h e =
    let (size, se, f) = then_inverse (write_int32 (pos (length b))) (λ y. ok (y ++ b)) part h in
    let whole : size ++ b ≡ part = ok_injective _ _ f in
    let total = length-append size b in
    let four_bytes = length-write_int32 (pos (length b)) size se in
    let none_left : length (size ++ b) ≡ 0 = ap length (whole ∙ e) in omega arith

some_front : (a b : List ℕ) → a ≢ [] → (a ++ b) ≢ []
some_front [] b h = absurd (h refl)
some_front (x ∷ a) b h = λ e. ground arith

-- The first field and what follows it.
pub fields_inverse :
    (r : Run Encoded) (more : Run (List ℕ)) (b : List ℕ)
    → (and_then r
        λ item. and_then (field_part item) λ part. and_then more λ rest. ok (part ++ rest))
      ≡ ok b
    → (item : Encoded) × (part : List ℕ) × (rest : List ℕ) × (r ≡ ok item)
      × (field_part item ≡ ok part)
      × (more ≡ ok rest)
      × (b ≡ part ++ rest)
      × (b ≢ [])
fields_inverse r more b h =
    let (item, ie, h1) = then_inverse r _ b h in
    let (part, pe, h2) = then_inverse (field_part item) _ b h1 in
    let (rest, re, h3) = then_inverse more _ b h2 in
    let whole : part ++ rest ≡ b = ok_injective _ _ h3 in
    (
      item,
      part,
      rest,
      ie,
      pe,
      re,
      sym whole,
      λ e. some_front part rest (field_some item part pe) (whole ∙ e),
    )

module _ {A : Type 0} (o : Options) (f : A → Run Encoded) (g : List ℕ → Run (Input A)) where
  pub Sound-Reads : (v : A) → Sound o f g v → Reads f g v
  Sound-Reads v sound b e small =
      let (c, ie, read) = sound (bytes b) e in
      let same : b ≡ c = bytes_injective b c ie in
      subst (λ x. g x ≡ ok (given v)) (sym same)
        (read (subst (λ x. length x < 2147483648) same small))

  pub Sound-not_null : (v : A) → Sound o f g v → f v ≢ ok null_bytes
  Sound-not_null v sound e =
      let (c, ie, read) = sound null_bytes e in
      let wrong : null_bytes ≡ bytes c = ie in ground arith

  module _ (P : A → Type 0) (all_Sound : (v : A) → P v → Sound o f g v) where
    pub Item-Reads : (x : Input A) → Item P x → ReadsItem f g x
    Item-Reads undefined h = h
    Item-Reads null h = h
    Item-Reads unset h = h
    Item-Reads (given v) h = Sound-Reads v (all_Sound v h)

    pub Item-Element :
        (size : Option ℕ)
        → ((v : A) → P v → Fixed o f size v)
        → (x : Input A) → Item P x
        → ReadsElement o f g size x
    Item-Element size fixed undefined h = h
    Item-Element size fixed null h = h
    Item-Element size fixed unset h = h
    Item-Element size fixed (given v) h = (Sound-Reads v (all_Sound v h), fixed v h)

    pub Field-Sound : (x : Input A) → Field P x → SoundField o f g x
    Field-Sound undefined h = h
    Field-Sound null h = h
    Field-Sound unset h = h
    Field-Sound (given v) h = all_Sound v h
