-- ===== src/Encoder/Vectors.antt =====
-- lib/encoder.js: vectors are read back from their bytes.
use mathlib.Core.Path.{subst}
use mathlib.Core.List.{append-nil}
use integration_hell.Common.{
  ℕ, suc, ◌+◌, ◌<◌, ◌≤◌, ◌≡◌, refl, sym, ap, ◌∙◌, arith, true, false, Option, none, some, List, [],
  ◌∷◌, ◌++◌, length, length-append, drop, ◌==◌, All,
}
use integration_hell.Common.Int.{pos, +ℤ_pos, ltb_ℤ}
use integration_hell.Encoder.Buffer.{
  not_a_buffer, Run, thrown, ok, and_then, ok_injective, slice, slice_item, drop_item,
}
use integration_hell.Encoder.Types.{Input, undefined, null, unset, given}
use integration_hell.Encoder.Encode.{
  Encoded, null_bytes, undefined_bytes, bytes, Options, concat, encode_input, packed, vector_parts,
  encode_vector,
}
use integration_hell.Encoder.Decode.{vector_items}
use integration_hell.Encoder.Collections.{
  then_inverse, concat_inverse, concat_sized, bytes_injective, Reads,
}
use integration_hell.Encoder.Sizes.{Fixed, vector_inverse}
use integration_hell.Utils.Uvint.{uvint_pack, uvint_unpack}
use integration_hell.Utils.Uvint.RoundTrip.{unpacked, unpacked-uvint_pack}

inside : (n e : ℕ) → e ≤ n → ltb_ℤ (pos n) (pos e) ≡ false
inside n e h = ground arith

exact : (off n : ℕ) → off ≡ n → (off == n) ≡ true
exact off n h = ground arith

some_value {ℓ} : {A : Type ℓ} → A → Option A → A
some_value d none = d
some_value d (some a) = a

some_injective {ℓ} : {A : Type ℓ} (a b : A) → some a ≡ some b → a ≡ b
unfolding some_value
some_injective a b h = ap (some_value a) h

packed_same :
    (item : Encoded) (ib size p : List ℕ)
    → item ≡ bytes ib
    → (elim item [
      | null_bytes ↦ thrown not_a_buffer
      | undefined_bytes ↦ thrown not_a_buffer
      | bytes c ↦ packed (uvint_pack (length c))
    ])
      ≡ ok size
    → uvint_pack (length ib) ≡ some p
    → p ≡ size
packed_same null_bytes ib size p ie se pe = ground arith
packed_same undefined_bytes ib size p ie se pe = ground arith
packed_same (bytes c) ib size p ie se pe =
    let same = bytes_injective c ib ie in
    ok_injective _ _ (sym (ap packed (ap (λ x. uvint_pack (length x)) same ∙ pe)) ∙ se)

module _ {A : Type 0} (o : Options) (f : A → Run Encoded) (g : List ℕ → Run (Input A)) where
  -- A given value that is read back, and has its size where that is fixed.
  abbrev pub ReadsElement : Option ℕ → Input A → Type 0
  ReadsElement size undefined = ⊥
  ReadsElement size null = ⊥
  ReadsElement size unset = ⊥
  ReadsElement size (given v) = Reads f g v × Fixed o f size v

  fixed_step :
      (k : ℕ) (all : List ℕ) (off n : ℕ) (v : A) (b tail : List ℕ) (xs : List (Input A))
      → length b ≡ k
      → drop off all ≡ b ++ tail
      → off + k ≤ length all
      → g b ≡ ok (given v)
      → (drop (off + k) all ≡ tail → vector_items (some k) g all n (pos (off + k)) ≡ ok xs)
      → vector_items (some k) g all (suc n) (pos off) ≡ ok (given v ∷ xs)
  unfolding vector_items and_then
  fixed_step k all off n v b tail xs size at fits read more =
      let end : off + length b ≡ off + k = ap (λ x. off + x) size in
      let cut : slice all (pos off) (pos (off + k)) ≡ b =
        ap (λ x. slice all (pos off) (pos x)) (sym end) ∙ slice_item off all b tail at in
      let rest = more (ap (λ x. drop x all) (sym end) ∙ drop_item off all b tail at) in
      rw (+ℤ_pos off k, inside (length all) (off + k) fits, cut, read, rest) refl

  fixed_items :
      (k : ℕ) (all : List ℕ) (xs : List (Input A)) (off : ℕ) (parts : List Encoded) (b : List ℕ)
      → length all < 2147483648
      → All (ReadsElement (some k)) xs
      → vector_parts (some k) o f xs ≡ ok parts
      → concat parts ≡ ok b
      → drop off all ≡ b
      → off + length b ≡ length all
      → vector_items (some k) g all (length xs) (pos off) ≡ ok xs
  unfolding vector_items vector_parts encode_input and_then concat
  fixed_items k all [] off parts b small reads hp hc at whole =
      let e = ok_injective _ _ (ap concat (ok_injective _ _ hp) ∙ hc) in
      let done : off ≡ length all = omega (arith, ap length e) in
      rw (exact off (length all) done) refl
  fixed_items k all (undefined ∷ xs) off parts b small reads hp hc at whole = absurd reads.0
  fixed_items k all (null ∷ xs) off parts b small reads hp hc at whole = absurd reads.0
  fixed_items k all (unset ∷ xs) off parts b small reads hp hc at whole = absurd reads.0
  fixed_items k all (given v ∷ xs) off parts b small reads hp hc at whole =
      let (item, fe, h1) = then_inverse (f v) _ parts hp in
      let (rest, re, h2) = then_inverse (vector_parts (some k) o f xs) _ parts h1 in
      let (ib, rb, ie, ce, be) =
        concat_inverse item rest b (ap concat (ok_injective _ _ h2) ∙ hc) in
      let fe' : f v ≡ ok (bytes ib) = fe ∙ ap ok ie in
      let size = reads.0.1 ib fe' in
      let total : length b ≡ length ib + length rb = ap length be ∙ length-append ib rb in
      fixed_step k all off (length xs) v ib rb xs size (at ∙ be) (omega arith)
        (reads.0.0 ib fe' (omega arith))
        (λ after. fixed_items k all xs (off + k) rest rb small reads.1 re ce after (omega arith))

  varied_step :
      (all : List ℕ) (off n count size : ℕ) (v : A) (l b tail : List ℕ) (xs : List (Input A))
      → slice all (pos off) (pos (length all)) ≡ l
      → unpacked l ≡ some (pos size, count)
      → length b ≡ size
      → drop (off + count) all ≡ b ++ tail
      → off + count + size ≤ length all
      → g b ≡ ok (given v)
      → (drop (off + count + size) all ≡ tail
          → vector_items none g all n (pos (off + count + size)) ≡ ok xs)
      → vector_items none g all (suc n) (pos off) ≡ ok (given v ∷ xs)
  unfolding vector_items and_then
  varied_step all off n count size v [] b tail xs cut un is at fits read more = ground arith
  varied_step all off n count size v (y ∷ l) b tail xs cut un is at fits read more =
      let pair : uvint_unpack y l ≡ (pos size, count) = some_injective _ _ un in
      let end : off + count + length b ≡ off + count + size = ap (λ x. off + count + x) is in
      let cut' : slice all (pos (off + count)) (pos (off + count + size)) ≡ b =
        ap (λ x. slice all (pos (off + count)) (pos x)) (sym end)
        ∙ slice_item (off + count) all b tail at in
      let rest = more (ap (λ x. drop x all) (sym end) ∙ drop_item (off + count) all b tail at) in
      rw
        (
          cut,
          pair,
          +ℤ_pos off count,
          +ℤ_pos (off + count) size,
          inside (length all) (off + count + size) fits,
          cut',
          read,
          rest,
        )
        refl

  varied_items :
      (all : List ℕ) (xs : List (Input A)) (off : ℕ) (parts : List Encoded) (b : List ℕ)
      → length all < 2147483648
      → All (ReadsElement none) xs
      → vector_parts none o f xs ≡ ok parts
      → concat parts ≡ ok b
      → drop off all ≡ b
      → off + length b ≡ length all
      → vector_items none g all (length xs) (pos off) ≡ ok xs
  unfolding vector_items vector_parts encode_input and_then concat
  varied_items all [] off parts b small reads hp hc at whole =
      let e = ok_injective _ _ (ap concat (ok_injective _ _ hp) ∙ hc) in
      let done : off ≡ length all = omega (arith, ap length e) in
      rw (exact off (length all) done) refl
  varied_items all (undefined ∷ xs) off parts b small reads hp hc at whole = absurd reads.0
  varied_items all (null ∷ xs) off parts b small reads hp hc at whole = absurd reads.0
  varied_items all (unset ∷ xs) off parts b small reads hp hc at whole = absurd reads.0
  varied_items all (given v ∷ xs) off parts b small reads hp hc at whole =
      let (item, fe, h1) = then_inverse (f v) _ parts hp in
      let (size, se, h2) =
        then_inverse
          (elim item [
            | null_bytes ↦ thrown not_a_buffer
            | undefined_bytes ↦ thrown not_a_buffer
            | bytes c ↦ packed (uvint_pack (length c))
          ])
          _ parts h1 in
      let (rest, re, h3) = then_inverse (vector_parts none o f xs) _ parts h2 in
      let (ib, rb, ie, ce, be) =
        concat_sized size item rest b (ap concat (ok_injective _ _ h3) ∙ hc) in
      let fe' : f v ≡ ok (bytes ib) = fe ∙ ap ok ie in
      let total : length b ≡ length size + (length ib + length rb) =
        ap length be
        ∙ length-append size (ib ++ rb)
        ∙ ap (λ x. length size + x) (length-append ib rb) in
      let (p, pe, un) = unpacked-uvint_pack (length ib) (ib ++ rb) (omega arith) in
      let same : p ≡ size = packed_same item ib size p ie se pe in
      let at' = at ∙ be in
      let cut : slice all (pos off) (pos (length all)) ≡ size ++ (ib ++ rb) =
        ap (λ x. slice all (pos off) (pos x)) (sym whole)
        ∙ slice_item off all b [] (at ∙ sym (append-nil b))
        ∙ be in
      varied_step all off (length xs) (length size) (length ib) v (size ++ (ib ++ rb)) ib rb xs cut
        (subst (λ x. unpacked (x ++ (ib ++ rb)) ≡ some (pos (length ib), length x)) same un) refl
        (drop_item off all size (ib ++ rb) at') (omega arith) (reads.0.0 ib fe' (omega arith))
        (λ after.
          varied_items all xs (off + length size + length ib) rest rb small reads.1 re ce after
            (omega arith))

  items :
      (size : Option ℕ) (xs : List (Input A)) (parts : List Encoded) (b : List ℕ)
      → length b < 2147483648
      → All (ReadsElement size) xs
      → vector_parts size o f xs ≡ ok parts
      → concat parts ≡ ok b
      → vector_items size g b (length xs) (pos 0) ≡ ok xs
  items none xs parts b small reads hp hc =
      varied_items b xs 0 parts b small reads hp hc refl (omega arith)
  items (some k) xs parts b small reads hp hc =
      fixed_items k b xs 0 parts b small reads hp hc refl (omega arith)

  pub vector_Reads :
      (size : Option ℕ) (n : ℕ) (xs : List (Input A)) (b : List ℕ)
      → All (ReadsElement size) xs
      → encode_vector size n o f xs ≡ ok (bytes b)
      → length b < 2147483648
      → vector_items size g b n (pos 0) ≡ ok xs
  vector_Reads size n xs b reads h small =
      let (parts, c, count, pe, ce, e) = vector_inverse o f size n xs (bytes b) h in
      subst (λ x. vector_items size g b x (pos 0) ≡ ok xs) count
        (items size xs parts b small reads pe (ce ∙ ap ok (sym (bytes_injective b c e))))
