-- ===== src/Encoder/Sizes.antt =====
-- lib/encoder.js: the bytes of a type whose size `serializationSizeIfFixed` knows.
use integration_hell.Common.{
  ℕ, ◌+◌, ◌*◌, ◌≡◌, sym, ap, ◌∙◌, arith, Bool-cases, inl, inr, Option, none, some, List, [], ◌∷◌,
  length, length-append, ◌==◌, All,
}
use integration_hell.Encoder.Buffer.{Run, ok, and_then, ok_injective}
use integration_hell.Encoder.Types.{Input, undefined, null, unset, given}
use integration_hell.Encoder.Encode.{
  Encoded, bytes, Options, concat, encode_input, vector_parts, encode_vector,
}
use integration_hell.Encoder.Collections.{then_inverse, concat_inverse, bytes_injective}

-- A run that ends with bytes.
abbrev pub Gives : Run Encoded → Type 0
Gives r = (item : Encoded) → r ≡ ok item → (b : List ℕ) × (item ≡ bytes b)

module _ {A : Type 0} (o : Options) (f : A → Run Encoded) where
  abbrev pub Fixed : Option ℕ → A → Type 0
  Fixed none v = Unit
  Fixed (some k) v = (b : List ℕ) → f v ≡ ok (bytes b) → length b ≡ k

  abbrev pub FixedItem : Option ℕ → Input A → Type 0
  FixedItem size undefined = ⊥
  FixedItem size null = ⊥
  FixedItem size unset = ⊥
  FixedItem size (given v) = Fixed size v

  length_parts :
      (k : ℕ) (xs : List (Input A)) (parts : List Encoded) (b : List ℕ)
      → All (FixedItem (some k)) xs
      → vector_parts (some k) o f xs ≡ ok parts
      → concat parts ≡ ok b
      → length b ≡ k * length xs
  unfolding vector_parts encode_input and_then concat
  length_parts k [] parts b fixed hp hc =
      let e = ok_injective _ _ (ap concat (ok_injective _ _ hp) ∙ hc) in omega (arith, ap length e)
  length_parts k (undefined ∷ xs) parts b fixed hp hc = absurd fixed.0
  length_parts k (null ∷ xs) parts b fixed hp hc = absurd fixed.0
  length_parts k (unset ∷ xs) parts b fixed hp hc = absurd fixed.0
  length_parts k (given v ∷ xs) parts b fixed hp hc =
      let (item, fe, h1) = then_inverse (f v) _ parts hp in
      let (rest, re, h2) = then_inverse (vector_parts (some k) o f xs) _ parts h1 in
      let (ib, rb, ie, ce, be) =
        concat_inverse item rest b (ap concat (ok_injective _ _ h2) ∙ hc) in
      let one : length ib ≡ k = fixed.0 ib (fe ∙ ap ok ie) in
      let more : length rb ≡ k * length xs = length_parts k xs rest rb fixed.1 re ce in
      let total : length b ≡ length ib + length rb = ap length be ∙ length-append ib rb in
      grind arith

  -- What a vector that is encoded went through.
  pub vector_inverse :
      (size : Option ℕ) (n : ℕ) (xs : List (Input A)) (item : Encoded)
      → encode_vector size n o f xs ≡ ok item
      → (parts : List Encoded) × (b : List ℕ) × (length xs ≡ n)
        × (vector_parts size o f xs ≡ ok parts)
        × (concat parts ≡ ok b)
        × (item ≡ bytes b)
  unfolding encode_vector and_then
  vector_inverse size n xs item h = elim (Bool-cases (length xs == n)) [
    | inr other ↦ let e = rw other at h in ground arith
    | inl same ↦
        let h1 = rw same at h in
        elim (Bool-cases (length xs == 0)) [
          | inl nothing ↦ let e = rw nothing at h1 in ground arith
          | inr more ↦
              let h2 = rw more at h1 in
              let (parts, pe, h3) = then_inverse (vector_parts size o f xs) _ item h2 in
              let (b, be, h4) = then_inverse (concat parts) (λ y. ok (bytes y)) item h3 in
              (parts, b, ground arith, pe, be, sym (ok_injective _ _ h4))
        ]
  ]

  pub vector_Gives :
      (size : Option ℕ) (n : ℕ) (xs : List (Input A)) → Gives (encode_vector size n o f xs)
  vector_Gives size n xs item h =
      let (parts, b, count, pe, be, e) = vector_inverse size n xs item h in (b, e)

  pub vector_fixed :
      (k n : ℕ) (xs : List (Input A)) (b : List ℕ)
      → All (FixedItem (some k)) xs
      → encode_vector (some k) n o f xs ≡ ok (bytes b)
      → length b ≡ k * n
  vector_fixed k n xs b fixed h =
      let (parts, c, count, pe, ce, e) = vector_inverse (some k) n xs (bytes b) h in
      ap length (bytes_injective b c e)
      ∙ length_parts k xs parts c fixed pe ce
      ∙ ap (λ x. k * x) count
