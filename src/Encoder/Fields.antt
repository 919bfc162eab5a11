-- ===== src/Encoder/Fields.antt =====
-- lib/encoder.js: the fields of a user-defined type and the elements of a tuple are read back.
use mathlib.Core.List.{append_assoc}
use integration_hell.Common.{
  ℕ, zero, suc, ◌+◌, ◌<◌, ◌≡◌, refl, sym, ap, ◌∙◌, arith, true, List, [], ◌∷◌, ◌++◌, length, drop,
  ltb,
}
use integration_hell.Common.Int.{pos}
use integration_hell.Encoder.Buffer.{
  Run, ok, and_then, ok_injective, slice_item, drop_item, read_int32, write_int32, read-write_int32,
  write_int32-bound, length-write_int32,
}
use integration_hell.Encoder.Types.{Input, undefined, null, unset, given}
use integration_hell.Encoder.Encode.{Encoded, bytes, Options, encode_input, field_part}
use integration_hell.Encoder.Decode.{decode_field}
use integration_hell.Encoder.Collections.{then_inverse}

-- A list that starts with something, at an offset inside the bytes.
pub before_end :
    (o : ℕ) (all : List ℕ) (y : ℕ) (rest : List ℕ)
    → drop o all ≡ y ∷ rest
    → ltb o (length all) ≡ true
before_end zero [] y rest h = ground arith
before_end zero (x ∷ all) y rest h = ground arith
before_end (suc o) [] y rest h = ground arith
before_end (suc o) (x ∷ all) y rest h = let more = before_end o all y rest h in ground arith

before_sized :
    (o : ℕ) (all size rest : List ℕ)
    → length size ≡ 4
    → drop o all ≡ size ++ rest
    → ltb o (length all) ≡ true
before_sized o all [] rest h at = ground arith
before_sized o all (y ∷ size) rest h at = before_end o all y (size ++ rest) at

module _ {A : Type 0} (o : Options) (f : A → Run Encoded) (g : List ℕ → Run (Input A)) where
  -- What is encoded is bytes, and they are read back.
  abbrev pub Sound : A → Type 0
  Sound v =
      (item : Encoded)
      → f v ≡ ok item
      → (b : List ℕ) × (item ≡ bytes b) × (length b < 2147483648 → g b ≡ ok (given v))

  -- A field may be null, but not undefined or unset.
  abbrev pub SoundField : Input A → Type 0
  SoundField undefined = ⊥
  SoundField null = Unit
  SoundField unset = ⊥
  SoundField (given v) = Sound v

  -- The field at the offset, and what follows it.
  abbrev pub FieldAt : Input A → List ℕ → ℕ → List ℕ → Type 0
  FieldAt x all off tail =
      (off' : ℕ) × (decode_field g all off ≡ ok (x, off'))
      × (drop off' all ≡ tail)
      × (ltb off (length all) ≡ true)

  given_field :
      (v : A) (size b all tail : List ℕ) (off : ℕ)
      → write_int32 (pos (length b)) ≡ ok size
      → g b ≡ ok (given v)
      → drop off all ≡ size ++ (b ++ tail)
      → FieldAt (given v) all off tail
  unfolding decode_field and_then
  given_field v size b all tail off hs read at =
      let (r, after) = read-write_int32 (pos (length b)) size off all (b ++ tail) hs at in
      let cut = slice_item (off + 4) all b tail after in
      (
        off + 4 + length b,
        rw (r, cut, read) refl,
        drop_item (off + 4) all b tail after,
        before_sized off all size (b ++ tail) (length-write_int32 _ size hs) at,
      )

  null_field :
      (all tail : List ℕ) (off : ℕ)
      → drop off all ≡ 255 ∷ 255 ∷ 255 ∷ 255 ∷ tail
      → FieldAt null all off tail
  unfolding decode_field and_then read_int32
  null_field all tail off at = (
    off + 4,
    rw at refl,
    drop_item off all (255 ∷ 255 ∷ 255 ∷ 255 ∷ []) tail at,
    before_end off all 255 _ at,
  )

  pub field_lem :
      (x : Input A) (item : Encoded) (part all tail : List ℕ) (off : ℕ)
      → SoundField x
      → encode_input o f x ≡ ok item
      → field_part item ≡ ok part
      → drop off all ≡ part ++ tail
      → FieldAt x all off tail
  unfolding encode_input field_part and_then
  field_lem undefined item part all tail off sound he hp at = absurd sound
  field_lem unset item part all tail off sound he hp at = absurd sound
  field_lem null item part all tail off sound he hp at =
      let item_null = ok_injective _ _ he in
      let e = ok_injective _ _ (ap field_part item_null ∙ hp) in
      null_field all tail off (at ∙ ap (λ y. y ++ tail) (sym e))
  field_lem (given v) item part all tail off sound he hp at =
      let (b, ib, read) = sound item he in
      let hp' = ap field_part (sym ib) ∙ hp in
      let (size, se, h) = then_inverse (write_int32 (pos (length b))) (λ y. ok (y ++ b)) part hp' in
      let e = ok_injective _ _ h in
      given_field v size b all tail off se (read (write_int32-bound (length b) size se))
        (at ∙ ap (λ y. y ++ tail) (sym e) ∙ append_assoc size b tail)
