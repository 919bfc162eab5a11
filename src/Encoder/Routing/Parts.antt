-- ===== src/Encoder/Routing/Parts.antt =====
-- lib/encoder.js: the parts of a composite routing key are read back from it.
use mathlib.Core.List.{append_assoc, append-nil}
use integration_hell.Common.{
  ℕ, zero, suc, ◌+◌, ◌*◌, ◌/◌, ◌%◌, ◌≤◌, ◌<◌, ◌≡◌, refl, sym, ap, ◌∙◌, arith, true, false, Option,
  none, some, List, [], ◌∷◌, ◌++◌, map, length, length-append, take, drop, ltb, ◌==◌, All,
}
use integration_hell.Encoder.Buffer.{Run, ok, and_then, write_uint16, be2}
use integration_hell.Encoder.Encode.{Encoded, bytes}
use integration_hell.Encoder.Routing.{
  key, Execution, encode_parts, composite, concat_routing_key, with_key, set_from_indexes,
  set_routing_key_from_meta,
}

abbrev pub with_part : List ℕ → Option (List (List ℕ)) → Option (List (List ℕ))
with_part part none = none
with_part part (some parts) = some (part ∷ parts)

-- The parts of a composite key: two bytes for the length of each, the part, and a byte. The fuel is the
-- number of bytes.
unfoldable pub read_parts : ℕ → List ℕ → Option (List (List ℕ))
read_parts fuel [] = some []
read_parts zero (a ∷ more) = none
read_parts (suc fuel) (a ∷ []) = none
read_parts (suc fuel) (a ∷ b ∷ more) =
    with_part (take (a * 256 + b) more) (read_parts fuel (drop (suc (a * 256 + b)) more))

abbrev pub components : List ℕ → Option (List (List ℕ))
components b = read_parts (length b) b

abbrev pub IsShort : List ℕ → Type 0
IsShort part = length part < 65536

take_part : (part rest : List ℕ) → take (length part) (part ++ 0 ∷ rest) ≡ part
take_part [] rest = refl
take_part (b ∷ part) rest = ap (λ x. b ∷ x) (take_part part rest)

drop_part : (part rest : List ℕ) → drop (suc (length part)) (part ++ 0 ∷ rest) ≡ rest
drop_part [] rest = refl
drop_part (b ∷ part) rest = drop_part part rest

write_short : (n : ℕ) → n < 65536 → write_uint16 n ≡ ok (be2 n)
unfolding write_uint16
write_short n h = let small : ltb n 65536 ≡ true = ground arith in rw small refl

read_part :
    (fuel : ℕ) (part rest : List ℕ) (parts : List (List ℕ))
    → IsShort part
    → read_parts fuel rest ≡ some parts
    → read_parts (suc fuel) (be2 (length part) ++ (part ++ 0 ∷ rest)) ≡ some (part ∷ parts)
unfolding read_parts
read_part fuel part rest parts short h =
    let n : length part / 256 % 256 * 256 + length part % 256 ≡ length part = omega arith in
    let more = part ++ 0 ∷ rest in
    ap (λ m. with_part (take m more) (read_parts fuel (drop (suc m) more))) n
    ∙ ap (λ x. with_part x (read_parts fuel (drop (suc (length part)) more))) (take_part part rest)
    ∙ ap (λ x. with_part part (read_parts fuel x)) (drop_part part rest)
    ∙ ap (with_part part) h

composite-parts :
    (parts : List (List ℕ))
    → All IsShort parts
    → (b : List ℕ) × (composite parts ≡ ok b)
      × ((fuel : ℕ) → length b ≤ fuel → read_parts fuel b ≡ some parts)
unfolding composite and_then read_parts
composite-parts [] short = ([], refl, λ fuel h. refl)
composite-parts (part ∷ parts) short =
    let (rest, e, read) = composite-parts parts short.1 in
    let size = write_short (length part) short.0 in
    (be2 (length part) ++ (part ++ 0 ∷ rest), rw (size, e) refl, λ fuel. enough fuel rest read)
  where
    enough :
        (fuel : ℕ) (rest : List ℕ)
        → ((fuel' : ℕ) → length rest ≤ fuel' → read_parts fuel' rest ≡ some parts)
        → length (be2 (length part) ++ (part ++ 0 ∷ rest)) ≤ fuel
        → read_parts fuel (be2 (length part) ++ (part ++ 0 ∷ rest)) ≡ some (part ∷ parts)
    enough zero rest read h = absurd (omega arith)
    enough (suc fuel) rest read h =
        let total = length-append part (0 ∷ rest) in
        read_part fuel part rest parts short.0 (read fuel (omega arith))

module _ (f : ℕ → List ℕ) where
  abbrev total_of : List ℕ → ℕ
  total_of [] = 0
  total_of (i ∷ indexes) = length (f i) + 3 + total_of indexes

  encode-All :
      (encode_param : ℕ → Run Encoded) (indexes : List ℕ) (total : ℕ) (parts : List (List ℕ))
      → All (λ i. encode_param i ≡ ok (bytes (f i))) indexes
      → encode_parts (map (λ i. some i) indexes) encode_param total parts
        ≡ ok (total + total_of indexes, parts ++ map f indexes)
  unfolding encode_parts and_then
  encode-All encode_param [] total parts given =
      ap (λ n. ok (n, parts)) (omega arith) ∙ ap (λ x. ok (total + 0, x)) (sym (append-nil parts))
  encode-All encode_param (i ∷ indexes) total parts given = rw given.0 (
      encode-All encode_param indexes (total + (length (f i) + 3)) (parts ++ f i ∷ []) given.1
      ∙ ap (λ n. ok (n, (parts ++ f i ∷ []) ++ map f indexes)) (omega arith)
      ∙ ap (λ x. ok (total + (length (f i) + 3 + total_of indexes), x))
          (append_assoc parts (f i ∷ []) (map f indexes)))

  -- Where the routing key has more than one part, and the parameter at the index of each is encoded to
  -- fewer than 2 ^ 16 bytes, a key is set from which the bytes of all parts are read back, in order.
  pub set_routing_key_from_meta-components :
      {Name : Type 0} (e : Execution Name) (encode_param : ℕ → Run Encoded) (i j : ℕ)
      (indexes : List ℕ)
      → e.routing_indexes ≡ some (map (λ k. some k) (i ∷ j ∷ indexes))
      → All (λ k. encode_param k ≡ ok (bytes (f k))) (i ∷ j ∷ indexes)
      → All IsShort (map f (i ∷ j ∷ indexes))
      → (b : List ℕ) × (set_routing_key_from_meta e encode_param ≡ ok (with_key e (key b)))
        × (components b ≡ some (map f (i ∷ j ∷ indexes)))
  unfolding set_routing_key_from_meta set_from_indexes concat_routing_key and_then
  set_routing_key_from_meta-components e encode_param i j indexes set given short =
      let all_indexes = i ∷ j ∷ indexes in
      let (b, c, read) = composite-parts (map f all_indexes) short in
      let enc = encode-All encode_param all_indexes 0 [] given in
      let positive : (0 + total_of all_indexes == 0) ≡ false = ground arith in
      (b, rw (set, enc, positive, c) refl, read (length b) (omega arith))
