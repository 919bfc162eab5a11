-- ===== src/Encoder/Errors.antt =====
-- lib/encoder.js: what the encoder does not take, or writes as something else.
use integration_hell.Common.{
  ℕ, ◌≤◌, ◌≡◌, ◌≢◌, refl, ap, ◌∙◌, arith, true, List, [], ◌∷◌, ◌++◌, length, leb,
}
use integration_hell.Encoder.Buffer.{Run, ok, and_then, ok_injective, LengthSize, get_length_buffer}
use integration_hell.Encoder.Types.{
  Cql, list_of, Cqls, cons, Input, undefined, null, unset, given, Val, Fields,
}
use integration_hell.Encoder.Encode.{
  Encoded, null_bytes, bytes, Options, length_size, length_of, concat, encode_input, not_null,
  list_parts, encode_list, field_part, encode_value, encode_udt, encode,
}
use integration_hell.Encoder.Collections.{then_inverse, concat_sized}
use integration_hell.Encoder.Solid.{as_bytes_inverse}

-- The value is encoded, and to bytes.
abbrev pub HasBytes : {A : Type 0} → (A → Run Encoded) → Input A → Type 0
HasBytes f undefined = ⊥
HasBytes f null = ⊥
HasBytes f unset = ⊥
HasBytes f (given v) = (b : List ℕ) × (f v ≡ ok (bytes b))

parts_HasBytes :
    {A : Type 0} (s : LengthSize) (f : A → Run Encoded) (before : List (Input A)) (x : Input A)
    (after : List (Input A)) (parts : List Encoded) (b : List ℕ)
    → list_parts s f (before ++ x ∷ after) ≡ ok parts
    → concat parts ≡ ok b
    → HasBytes f x
unfolding list_parts and_then not_null
parts_HasBytes s f [] undefined after parts b hp hc = ground arith
parts_HasBytes s f [] null after parts b hp hc = ground arith
parts_HasBytes s f [] unset after parts b hp hc = ground arith
parts_HasBytes s f [] (given v) after parts b hp hc =
    let (item, fe, h1) = then_inverse (f v) _ parts hp in
    let (size, se, h2) = then_inverse (get_length_buffer s (length_of item)) _ parts h1 in
    let (rest, re, h3) = then_inverse (list_parts s f after) _ parts h2 in
    let (ib, rb, ie, ce, be) =
      concat_sized size item rest b (ap concat (ok_injective _ _ h3) ∙ hc) in
    (ib, fe ∙ ap ok ie)
parts_HasBytes s f (y ∷ before) x after parts b hp hc =
    let (v, ve, h0) = then_inverse (not_null y) _ parts hp in
    let (item, fe, h1) = then_inverse (f v) _ parts h0 in
    let (size, se, h2) = then_inverse (get_length_buffer s (length_of item)) _ parts h1 in
    let (rest, re, h3) = then_inverse (list_parts s f (before ++ x ∷ after)) _ parts h2 in
    let (ib, rb, ie, ce, be) =
      concat_sized size item rest b (ap concat (ok_injective _ _ h3) ∙ hc) in
    parts_HasBytes s f before x after rest rb re ce

whole_HasBytes :
    {A : Type 0} (s : LengthSize) (f : A → Run Encoded) (before : List (Input A)) (x : Input A)
    (after ys : List (Input A)) (item : Encoded)
    → before ++ x ∷ after ≡ ys
    → ys ≢ []
    → encode_list s f ys ≡ ok item
    → HasBytes f x
unfolding encode_list concat
whole_HasBytes s f before x after [] item e there h = absurd (there refl)
whole_HasBytes s f before x after (y ∷ ys) item e there h =
    let (size, se, h1) = then_inverse (get_length_buffer s (length (y ∷ ys))) _ item h in
    let (parts, pe, h2) = then_inverse (list_parts s f (y ∷ ys)) _ item h1 in
    let (b, be, i) = as_bytes_inverse (concat (bytes size ∷ parts)) item h2 in
    let (rest, re, h3) = then_inverse (concat parts) _ b be in
    parts_HasBytes s f before x after parts rest (ap (list_parts s f) e ∙ pe) re

not_empty {ℓ} : {A : Type ℓ} (before : List A) (x : A) (after : List A) → before ++ x ∷ after ≢ []
not_empty [] x after h = ground arith
not_empty (y ∷ before) x after h = ground arith

-- A list is encoded only where each of its items is given and is encoded to bytes.
pub encode_list-HasBytes :
    {A : Type 0} (s : LengthSize) (f : A → Run Encoded) (before : List (Input A)) (x : Input A)
    (after : List (Input A)) (item : Encoded)
    → encode_list s f (before ++ x ∷ after) ≡ ok item
    → HasBytes f x
encode_list-HasBytes s f before x after item h =
    whole_HasBytes s f before x after (before ++ x ∷ after) item refl (not_empty before x after) h

empty_list : (o : Options) (t : Cql) → ¬ (HasBytes (encode_value o (list_of t)) (given []))
unfolding encode_value encode_list
empty_list o t h =
    let (b, e) = h in let wrong : null_bytes ≡ bytes b = ok_injective _ _ e in ground arith

-- A list of lists, one of which is empty, is never encoded.
pub nested_empty_list :
    (o : Options) (t : Cql) (before after : List (Input (Val (list_of t)))) (item : Encoded)
    → encode o (list_of (list_of t)) (given (before ++ given [] ∷ after)) ≢ ok item
unfolding encode encode_input encode_value
nested_empty_list o t before after item h = empty_list o t (
    encode_list-HasBytes (length_size o) (encode_value o (list_of t)) before (given []) after item
      h)

-- From version 4 of the protocol on, a field of a user-defined type that is unset is written as one
-- that is null.
pub encode_udt-unset :
    (o : Options) (t : Cql) (ts : Cqls) (v : Fields ts)
    → 4 ≤ o.protocol_version
    → encode_udt o (cons t ts) (unset, v) ≡ encode_udt o (cons t ts) (null, v)
unfolding encode_udt encode_input field_part and_then
encode_udt-unset o t ts v h =
    let recent : leb 4 o.protocol_version ≡ true = ground arith in rw recent refl
