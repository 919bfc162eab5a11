-- ===== src/Encoder/Varint.antt =====
-- lib/encoder.js: `_encodeVarintFromBigInt` and `_decodeVarintAsBigInt`, and the 64-bit integers of
-- `_encodeBigIntFromBigInt` and `_decodeCqlLongAsBigInt`. A disjoint `|` of shifted bytes is a sum.
use native.Mathlib.Nat.{div-add-mod'}
use integration_hell.Common.{
  ℕ, zero, suc, ◌+◌, ◌-◌, ◌*◌, ◌/◌, ◌%◌, ◌^◌, ◌≤◌, ◌<◌, ◌≡◌, ◌≢◌, refl, ap, ◌∙◌, sym, arith, true,
  Bool-cases, inl, inr, List, [], ◌∷◌, ◌++◌, map, ltb, leb, ◌==◌, if◌then◌else◌, length,
}
use integration_hell.Common.Int.{ℤ, pos, negsuc}
use integration_hell.Encoder.Buffer.{
  Run, ok, and_then, be4, read_uint32, word4, word4-be4, of_word, fits, to_word, of_word-to_word,
}

-- The loops that put the low byte in front until none is left: `value >> 8` is a division that rounds
-- down. The bytes of a negative value -(m + 1) are those of m with each bit changed. The fuel is the
-- number itself, which each round makes smaller.
unfoldable pub loop_bytes : ℕ → ℕ → List ℕ → List ℕ
loop_bytes zero n parts = parts
loop_bytes (suc fuel) n parts =
    let rest = loop_bytes fuel (n / 256) (n % 256 ∷ parts) in if n == 0 then parts else rest

unfoldable pub loop_bytes_negative : ℕ → ℕ → List ℕ → List ℕ
loop_bytes_negative zero m parts = parts
loop_bytes_negative (suc fuel) m parts =
    let rest = loop_bytes_negative fuel (m / 256) ((255 - m % 256) ∷ parts) in
    if m == 0 then parts else rest

unfoldable pub pad_positive : List ℕ → List ℕ
pad_positive [] = []
pad_positive (b ∷ parts) = if ltb 127 b then 0 ∷ b ∷ parts else b ∷ parts

unfoldable pub pad_negative : List ℕ → List ℕ
pad_negative [] = []
pad_negative (b ∷ parts) = if leb b 127 then 255 ∷ b ∷ parts else b ∷ parts

unfoldable pub encode_varint : ℤ → List ℕ
unfolding loop_bytes loop_bytes_negative pad_positive pad_negative
encode_varint (pos n) = if n == 0 then 0 ∷ [] else pad_positive (loop_bytes n n [])
encode_varint (negsuc m) = if m == 0 then 255 ∷ [] else pad_negative (loop_bytes_negative m m [])

abbrev pub sum_bytes : ℕ → List ℕ → ℕ
sum_bytes acc [] = acc
sum_bytes acc (b ∷ bytes) = sum_bytes (acc * 256 + b) bytes

unfoldable pub decode_varint : List ℕ → ℤ
decode_varint [] = negsuc 0
decode_varint (b ∷ bytes) =
    if leb b 127
    then pos (sum_bytes 0 (b ∷ bytes))
    else negsuc (sum_bytes 0 (map (λ x. 255 - x) (b ∷ bytes)))

loop-sum :
    (fuel n : ℕ) (parts : List ℕ)
    → n ≤ fuel
    → sum_bytes 0 (loop_bytes fuel n parts) ≡ sum_bytes n parts
unfolding loop_bytes
loop-sum zero n parts h = ap (λ x. sum_bytes x parts) (omega arith)
loop-sum (suc fuel) n parts h = elim (Bool-cases (n == 0)) [
  | inl nothing ↦ rw nothing (ap (λ x. sum_bytes x parts) (ground arith))
  | inr more ↦
      let some_left : 0 < n = ground arith in
      rw more (
        loop-sum fuel (n / 256) (n % 256 ∷ parts) (omega arith)
        ∙ ap (λ x. sum_bytes x parts) (div-add-mod' n 256))
]

abbrev flip : ℕ → ℕ
flip b = 255 - b

loop-flip :
    (fuel m : ℕ) (parts : List ℕ)
    → m ≤ fuel
    → sum_bytes 0 (map flip (loop_bytes_negative fuel m parts)) ≡ sum_bytes m (map flip parts)
unfolding loop_bytes_negative
loop-flip zero m parts h = ap (λ x. sum_bytes x (map flip parts)) (omega arith)
loop-flip (suc fuel) m parts h = elim (Bool-cases (m == 0)) [
  | inl nothing ↦ rw nothing (ap (λ x. sum_bytes x (map flip parts)) (ground arith))
  | inr more ↦
      let some_left : 0 < m = ground arith in
      rw more (
        loop-flip fuel (m / 256) ((255 - m % 256) ∷ parts) (omega arith)
        ∙ ap (λ x. sum_bytes x (map flip parts)) (omega arith))
]

decode-pad_positive :
    (n : ℕ) (parts : List ℕ)
    → 0 < n
    → sum_bytes 0 parts ≡ n
    → decode_varint (pad_positive parts) ≡ pos n
unfolding decode_varint pad_positive
decode-pad_positive n [] h e = absurd (omega arith)
decode-pad_positive n (b ∷ parts) h e = elim (Bool-cases (ltb 127 b)) [
  | inl large ↦ rw large (ap pos e)
  | inr small ↦ let fine : leb b 127 ≡ true = ground arith in rw (small, fine) (ap pos e)
]

decode-pad_negative :
    (m : ℕ) (parts : List ℕ)
    → 0 < m
    → sum_bytes 0 (map flip parts) ≡ m
    → decode_varint (pad_negative parts) ≡ negsuc m
unfolding decode_varint pad_negative
decode-pad_negative m [] h e = absurd (omega arith)
decode-pad_negative m (b ∷ parts) h e = elim (Bool-cases (leb b 127)) [
  | inl small ↦ rw small (ap negsuc e)
  | inr large ↦ rw (large, large) (ap negsuc e)
]

-- Every integer is read back from the bytes that are written for it as a varint.
pub decode_varint-encode_varint : (v : ℤ) → decode_varint (encode_varint v) ≡ v
unfolding encode_varint decode_varint
decode_varint-encode_varint (pos n) = elim (Bool-cases (n == 0)) [
  | inl nothing ↦ rw nothing (ap pos (ground arith))
  | inr more ↦
      rw more
        (decode-pad_positive n (loop_bytes n n []) (ground arith) (loop-sum n n [] (omega arith)))
]
decode_varint-encode_varint (negsuc m) = elim (Bool-cases (m == 0)) [
  | inl nothing ↦ rw nothing (ap negsuc (ground arith))
  | inr more ↦ rw more (
      decode-pad_negative m (loop_bytes_negative m m []) (ground arith)
        (loop-flip m m [] (omega arith)))
]

not_empty : (b : ℕ) (bytes : List ℕ) → b ∷ bytes ≢ []
not_empty b bytes h = ground arith

pub no_varint : (v : ℤ) → encode_varint v ≢ []
unfolding encode_varint decode_varint
no_varint v h =
    let last : negsuc 0 ≡ v = ap decode_varint (sym h) ∙ decode_varint-encode_varint v in
    not_empty 255 [] (ap encode_varint last ∙ h)

-- The words of a 64-bit integer: `value >> 32` and `value & 0xffffffff`, of a value whose bits from
-- the 64th on are dropped.
abbrev pub word64 : ℤ → ℕ
word64 (pos n) = n % 2 ^ 64
word64 (negsuc n) = 2 ^ 64 - 1 - n % 2 ^ 64

unfoldable pub encode_bigint : ℤ → List ℕ
encode_bigint v = be4 (word64 v / 2 ^ 32) ++ be4 (word64 v % 2 ^ 32)

unfoldable pub decode_bigint : List ℕ → Run ℤ
unfolding and_then
decode_bigint bytes =
    and_then (read_uint32 bytes (pos 0)) λ high.
      and_then (read_uint32 bytes (pos 4)) λ low. ok (of_word (2 ^ 63) (high * 2 ^ 32 + low))

word64-bound : (v : ℤ) → word64 v < 2 ^ 64
word64-bound (pos n) = omega arith
word64-bound (negsuc n) = omega arith

word64-to_word : (v : ℤ) → fits (2 ^ 63) v ≡ true → word64 v ≡ to_word (2 ^ 63) v
word64-to_word (pos n) h = ground arith
word64-to_word (negsuc n) h = ground arith

pub length-encode_bigint : (v : ℤ) → length (encode_bigint v) ≡ 8
unfolding encode_bigint
length-encode_bigint v = refl

-- An integer of 64 bits is read back from the 8 bytes that are written for it.
pub decode_bigint-encode_bigint :
    (v : ℤ) → fits (2 ^ 63) v ≡ true → decode_bigint (encode_bigint v) ≡ ok v
unfolding decode_bigint encode_bigint read_uint32 and_then
decode_bigint-encode_bigint v h =
    let high = word64 v / 2 ^ 32 in
    let low = word64 v % 2 ^ 32 in
    let bound : word64 v < 2 ^ 64 = word64-bound v in
    let e = word4-be4 high (be4 low) (omega arith) in
    let f = word4-be4 low [] (omega arith) in
    let whole : high * 2 ^ 32 + low ≡ word64 v = div-add-mod' (word64 v) (2 ^ 32) in
    ap
      (λ r.
        and_then r (λ x. and_then (word4 (be4 low)) (λ y. ok (of_word (2 ^ 63) (x * 2 ^ 32 + y)))))
      e
    ∙ ap (λ r. and_then r (λ y. ok (of_word (2 ^ 63) (high * 2 ^ 32 + y)))) f
    ∙ ap (λ x. ok (of_word (2 ^ 63) x)) (whole ∙ word64-to_word v h)
    ∙ ap ok (of_word-to_word (2 ^ 63) v h)
