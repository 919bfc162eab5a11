-- ===== src/Encoder/Collections.antt =====
-- lib/encoder.js: what follows from a run that ends well; lists are read back from their bytes, where their items are.
use mathlib.Core.List.{append_assoc, append-nil}
use integration_hell.Common.{
  ℕ, suc, ◌+◌, ◌<◌, ◌≡◌, refl, sym, ap, ◌∙◌, arith, List, [], ◌∷◌, ◌++◌, length, drop, All,
}
use integration_hell.Common.Int.{pos, +ℤ_pos}
use integration_hell.Encoder.Buffer.{
  Run, thrown, ok, and_then, ok_injective, slice_item, drop_item, LengthSize, size_of,
  get_length_buffer, decode-get_length, get_length-bound,
}
use integration_hell.Encoder.Types.{Input, undefined, null, unset, given}
use integration_hell.Encoder.Encode.{
  Encoded, null_bytes, undefined_bytes, bytes, concat, length_of, list_parts, encode_list,
}
use integration_hell.Encoder.Decode.{list_items, decode_list}

-- A chain that ends well has steps that end well.
pub then_inverse {ℓ κ} :
    {A : Type ℓ} {B : Type κ} (r : Run A) (f : A → Run B) (b : B)
    → and_then r f ≡ ok b
    → (a : A) × (r ≡ ok a) × (f a ≡ ok b)
unfolding and_then
then_inverse (thrown e) f b h = ground arith
then_inverse (ok a) f b h = (a, refl, h)

pub then_ok {ℓ κ} :
    {A : Type ℓ} {B : Type κ} (r : Run A) (f : A → Run B) (a : A) → r ≡ ok a → and_then r f ≡ f a
unfolding and_then
then_ok r f a e = ap (λ x. and_then x f) e

pub concat_inverse :
    (item : Encoded) (parts : List Encoded) (b : List ℕ)
    → concat (item ∷ parts) ≡ ok b
    → (a : List ℕ) × (rest : List ℕ) × (item ≡ bytes a) × (concat parts ≡ ok rest) × (b ≡ a ++ rest)
unfolding concat
concat_inverse null_bytes parts b h = ground arith
concat_inverse undefined_bytes parts b h = ground arith
concat_inverse (bytes a) parts b h =
    let r = then_inverse (concat parts) (λ rest. ok (a ++ rest)) b h in
    (a, r.0, refl, r.1, sym (ok_injective _ _ r.2))

abbrev payload : List ℕ → Encoded → List ℕ
payload d null_bytes = d
payload d undefined_bytes = d
payload d (bytes b) = b

pub bytes_injective : (a b : List ℕ) → bytes a ≡ bytes b → a ≡ b
bytes_injective a b h = ap (payload a) h

pub concat_sized :
    (size : List ℕ) (item : Encoded) (parts : List Encoded) (b : List ℕ)
    → concat (bytes size ∷ item ∷ parts) ≡ ok b
    → (a : List ℕ) × (rest : List ℕ) × (item ≡ bytes a)
      × (concat parts ≡ ok rest)
      × (b ≡ size ++ (a ++ rest))
unfolding concat
concat_sized size item parts b h =
    let (r, e, f) = then_inverse (concat (item ∷ parts)) (λ x. ok (size ++ x)) b h in
    let (a, rest, i, c, g) = concat_inverse item parts r e in
    (a, rest, i, c, sym (ok_injective _ _ f) ∙ ap (λ x. size ++ x) g)

-- The bytes read at an offset, in front of a tail.
pub sized_at :
    (size a rest tail : List ℕ) → (size ++ (a ++ rest)) ++ tail ≡ size ++ (a ++ (rest ++ tail))
sized_at size a rest tail =
    append_assoc size (a ++ rest) tail ∙ ap (λ x. size ++ x) (append_assoc a rest tail)

module _ {A : Type 0} (f : A → Run Encoded) (g : List ℕ → Run (Input A)) where
  -- The value is read back from its bytes.
  abbrev pub Reads : A → Type 0
  Reads v = (b : List ℕ) → f v ≡ ok (bytes b) → length b < 2147483648 → g b ≡ ok (given v)

  abbrev pub ReadsItem : Input A → Type 0
  ReadsItem undefined = ⊥
  ReadsItem null = ⊥
  ReadsItem unset = ⊥
  ReadsItem (given v) = Reads v

  -- One item of a list: its length and its bytes.
  item_step :
      (s : LengthSize) (all : List ℕ) (o n : ℕ) (v : A) (size ib tail : List ℕ)
      (xs : List (Input A))
      → get_length_buffer s (length ib) ≡ ok size
      → drop o all ≡ size ++ (ib ++ tail)
      → g ib ≡ ok (given v)
      → (drop (o + size_of s + length ib) all ≡ tail
          → list_items s g all n (pos (o + size_of s + length ib)) ≡ ok xs)
      → list_items s g all (suc n) (pos o) ≡ ok (given v ∷ xs)
  unfolding list_items and_then
  item_step s all o n v size ib tail xs hs at read more =
      let d = decode-get_length s (length ib) size o all (ib ++ tail) hs at in
      let cut = slice_item (o + size_of s) all ib tail d.1 in
      let rest = more (drop_item (o + size_of s) all ib tail d.1) in
      rw (d.0, +ℤ_pos o (size_of s), +ℤ_pos (o + size_of s) (length ib), cut, read, rest) refl

  list_items_lem :
      (s : LengthSize) (all : List ℕ) (xs : List (Input A)) (o : ℕ) (parts : List Encoded)
      (b : List ℕ) (tail : List ℕ)
      → All ReadsItem xs
      → list_parts s f xs ≡ ok parts
      → concat parts ≡ ok b
      → drop o all ≡ b ++ tail
      → list_items s g all (length xs) (pos o) ≡ ok xs
  unfolding list_items list_parts and_then
  list_items_lem s all [] o parts b tail reads hp hc at = refl
  list_items_lem s all (undefined ∷ xs) o parts b tail reads hp hc at = absurd reads.0
  list_items_lem s all (null ∷ xs) o parts b tail reads hp hc at = absurd reads.0
  list_items_lem s all (unset ∷ xs) o parts b tail reads hp hc at = absurd reads.0
  list_items_lem s all (given v ∷ xs) o parts b tail reads hp hc at =
      let (item, fe, h1) = then_inverse (f v) _ parts hp in
      let (size, se, h2) = then_inverse (get_length_buffer s (length_of item)) _ parts h1 in
      let (rest, re, h3) = then_inverse (list_parts s f xs) _ parts h2 in
      let hc' = ap concat (ok_injective _ _ h3) ∙ hc in
      let (ib, rb, ie, ce, be) = concat_sized size item rest b hc' in
      let size_ok = ap (λ x. get_length_buffer s (length_of x)) (sym ie) ∙ se in
      let at' = at ∙ ap (λ x. x ++ tail) be ∙ sized_at size ib rb tail in
      item_step s all o (length xs) v size ib (rb ++ tail) xs size_ok at'
        (reads.0 ib (fe ∙ ap ok ie) (get_length-bound s (length ib) size size_ok))
        (λ after.
          list_items_lem s all xs (o + size_of s + length ib) rest rb tail reads.1 re ce after)

  pub list_Reads :
      (s : LengthSize) (xs : List (Input A)) (b : List ℕ)
      → All ReadsItem xs
      → encode_list s f xs ≡ ok (bytes b)
      → decode_list s g b ≡ ok xs
  unfolding encode_list decode_list and_then concat
  list_Reads s [] b reads h = ground arith
  list_Reads s (x ∷ xs) b reads h =
      let (size, se, h1) = then_inverse (get_length_buffer s (length (x ∷ xs))) _ (bytes b) h in
      let (parts, pe, h2) = then_inverse (list_parts s f (x ∷ xs)) _ (bytes b) h1 in
      let (whole, we, h3) =
        then_inverse (concat (bytes size ∷ parts)) (λ y. ok (bytes y)) (bytes b) h2 in
      let (rest, re, h4) = then_inverse (concat parts) (λ y. ok (size ++ y)) whole we in
      let same : b ≡ size ++ rest =
        bytes_injective b whole (sym (ok_injective _ _ h3)) ∙ sym (ok_injective _ _ h4) in
      let d = decode-get_length s (length (x ∷ xs)) size 0 b rest se same in
      let start : 0 + size_of s ≡ size_of s = omega arith in
      let items =
        list_items_lem s b (x ∷ xs) (size_of s) parts rest [] reads pe re
          (ap (λ y. drop y b) (sym start) ∙ d.1 ∙ sym (append-nil rest)) in
      rw (d.0) items
