-- ===== src/Encoder/Buffer.antt =====
-- What lib/encoder.js uses of Node's buffers: big-endian integers, slices and concatenation, and its
-- functions for the length of a collection or of an item. Bytes are numbers below 256.
use integration_hell.Common.{
  ℕ, zero, suc, ◌+◌, ◌-◌, ◌*◌, ◌/◌, ◌%◌, ◌<◌, ◌≡◌, refl, ap, ◌∙◌, sym, arith, Bool, true,
  Bool-cases, inl, inr, List, [], ◌∷◌, ◌++◌, take, drop, length, ltb, if◌then◌else◌,
}
use integration_hell.Common.Int.{ℤ, pos, negsuc}

-- The errors that are thrown: a number or an offset out of range, a value that Node does not take as
-- a buffer, and the encoder's own.
pub data Failure : Type 0 where
  out_of_range : Failure
  not_a_buffer : Failure
  unset_not_supported : Failure
  null_in_collection : Failure
  wrong_dimension : Failure
  empty_vector : Failure
  not_enough_bytes : Failure
  extra_bytes : Failure
  unexpected_routing_key : Failure

pub data Run {ℓ} (A : Type ℓ) : Type ℓ where
  thrown : Failure → Run A
  ok : A → Run A

unfoldable pub and_then {ℓ κ} : {A : Type ℓ} {B : Type κ} → Run A → (A → Run B) → Run B
and_then (thrown e) f = thrown e
and_then (ok a) f = f a

abbrev pub be1 : ℕ → List ℕ
be1 n = n % 256 ∷ []

abbrev pub be2 : ℕ → List ℕ
be2 n = n / 256 % 256 ∷ n % 256 ∷ []

abbrev pub be4 : ℕ → List ℕ
be4 n = n / 16777216 % 256 ∷ n / 65536 % 256 ∷ n / 256 % 256 ∷ n % 256 ∷ []

-- The two's complement of `2 * half` numbers, out of `half` for each sign.
abbrev pub fits : ℕ → ℤ → Bool
fits half (pos n) = ltb n half
fits half (negsuc n) = ltb n half

abbrev pub to_word : ℕ → ℤ → ℕ
to_word half (pos n) = n
to_word half (negsuc n) = 2 * half - 1 - n

abbrev pub of_word : ℕ → ℕ → ℤ
of_word half w = if ltb w half then pos w else negsuc (2 * half - 1 - w)

pub of_word-to_word : (half : ℕ) (v : ℤ) → fits half v ≡ true → of_word half (to_word half v) ≡ v
of_word-to_word half (pos n) h = ground arith
of_word-to_word half (negsuc n) h = ground arith

pub to_word-bound : (half : ℕ) (v : ℤ) → fits half v ≡ true → to_word half v < 2 * half
to_word-bound half (pos n) h = ground arith
to_word-bound half (negsuc n) h = ground arith

-- `buf.writeInt32BE(value, 0)` and its kin, on a new buffer of that size.
unfoldable pub write_int8 : ℤ → Run (List ℕ)
write_int8 v = if fits 128 v then ok (be1 (to_word 128 v)) else thrown out_of_range

unfoldable pub write_int16 : ℤ → Run (List ℕ)
write_int16 v = if fits 32768 v then ok (be2 (to_word 32768 v)) else thrown out_of_range

unfoldable pub write_int32 : ℤ → Run (List ℕ)
write_int32 v = if fits 2147483648 v then ok (be4 (to_word 2147483648 v)) else thrown out_of_range

unfoldable pub write_uint16 : ℕ → Run (List ℕ)
write_uint16 n = if ltb n 65536 then ok (be2 n) else thrown out_of_range

-- The bytes of a buffer from an offset on; an offset below 0 is out of range.
abbrev pub from_offset : List ℕ → ℤ → List ℕ
from_offset bytes (pos n) = drop n bytes
from_offset bytes (negsuc n) = []

abbrev pub word1 : List ℕ → Run ℕ
word1 [] = thrown out_of_range
word1 (a ∷ rest) = ok a

abbrev pub word2 : List ℕ → Run ℕ
word2 (a ∷ b ∷ rest) = ok (a * 256 + b)
word2 _ = thrown out_of_range

abbrev pub word4 : List ℕ → Run ℕ
word4 (a ∷ b ∷ c ∷ d ∷ rest) = ok (a * 16777216 + b * 65536 + c * 256 + d)
word4 _ = thrown out_of_range

abbrev pub signed_run : ℕ → Run ℕ → Run ℤ
signed_run half (ok w) = ok (of_word half w)
signed_run half (thrown e) = thrown e

abbrev pub unsigned_run : Run ℕ → Run ℤ
unsigned_run (ok w) = ok (pos w)
unsigned_run (thrown e) = thrown e

unfoldable pub read_int8 : List ℕ → ℤ → Run ℤ
read_int8 bytes offset = signed_run 128 (word1 (from_offset bytes offset))

unfoldable pub read_int16 : List ℕ → ℤ → Run ℤ
read_int16 bytes offset = signed_run 32768 (word2 (from_offset bytes offset))

unfoldable pub read_int32 : List ℕ → ℤ → Run ℤ
read_int32 bytes offset = signed_run 2147483648 (word4 (from_offset bytes offset))

unfoldable pub read_uint16 : List ℕ → ℤ → Run ℤ
read_uint16 bytes offset = unsigned_run (word2 (from_offset bytes offset))

unfoldable pub read_uint32 : List ℕ → ℤ → Run ℕ
read_uint32 bytes offset = word4 (from_offset bytes offset)

-- An index of `bytes.slice`, where a negative one counts from the end.
abbrev pub slice_index : List ℕ → ℤ → ℕ
slice_index bytes (pos n) = n
slice_index bytes (negsuc n) = length bytes - suc n

unfoldable pub slice : List ℕ → ℤ → ℤ → List ℕ
slice bytes start end =
    take (slice_index bytes end - slice_index bytes start) (drop (slice_index bytes start) bytes)

-- The size of a length, by the version of the protocol: 2 bytes up to version 2, and 4 from 3 on.
pub data LengthSize : Type 0 where
  two : LengthSize
  four : LengthSize

abbrev pub size_of : LengthSize → ℕ
size_of two = 2
size_of four = 4

-- `getLengthBuffer` of a number, or of a buffer of this length; 0 for null.
unfoldable pub get_length_buffer : LengthSize → ℕ → Run (List ℕ)
unfolding write_uint16 write_int32
get_length_buffer two n = write_uint16 n
get_length_buffer four n = write_int32 (pos n)

unfoldable pub decode_collection_length : LengthSize → List ℕ → ℤ → Run ℤ
unfolding read_uint16 read_int32
decode_collection_length two bytes offset = read_uint16 bytes offset
decode_collection_length four bytes offset = read_int32 bytes offset

word1-be1 : (n : ℕ) (rest : List ℕ) → n < 256 → word1 (be1 n ++ rest) ≡ ok n
word1-be1 n rest h = ap ok (omega arith)

word2-be2 : (n : ℕ) (rest : List ℕ) → n < 65536 → word2 (be2 n ++ rest) ≡ ok n
word2-be2 n rest h = ap ok (omega arith)

pub word4-be4 : (n : ℕ) (rest : List ℕ) → n < 4294967296 → word4 (be4 n ++ rest) ≡ ok n
word4-be4 n rest h = ap ok (omega arith)

-- A list read at an offset.
abbrev pub At : List ℕ → ℤ → List ℕ → Type 0
At bytes offset rest = from_offset bytes offset ≡ rest

drop_nil : (k : ℕ) → drop {A = ℕ} k [] ≡ []
drop_nil zero = refl
drop_nil (suc k) = refl

shift_suc : (o k : ℕ) → suc o + k ≡ suc (o + k)
shift_suc o k = omega arith

pub drop-drop : (k o : ℕ) (bytes : List ℕ) → drop (o + k) bytes ≡ drop k (drop o bytes)
drop-drop k zero bytes = ap (λ x. drop x bytes) (omega arith)
drop-drop k (suc o) [] = drop_nil (suc o + k) ∙ sym (drop_nil k)
drop-drop k (suc o) (b ∷ bytes) = ap (λ x. drop x (b ∷ bytes)) (shift_suc o k) ∙ drop-drop k o bytes

drop_length : (item rest : List ℕ) → drop (length item) (item ++ rest) ≡ rest
drop_length [] rest = refl
drop_length (b ∷ item) rest = drop_length item rest

pub take_length : (item rest : List ℕ) → take (length item) (item ++ rest) ≡ item
take_length [] rest = refl
take_length (b ∷ item) rest = ap (λ x. b ∷ x) (take_length item rest)

pub drop_item :
    (o : ℕ) (bytes item rest : List ℕ)
    → drop o bytes ≡ item ++ rest
    → drop (o + length item) bytes ≡ rest
drop_item o bytes item rest h =
    drop-drop (length item) o bytes ∙ ap (drop (length item)) h ∙ drop_length item rest

pub slice_item :
    (o : ℕ) (bytes item rest : List ℕ)
    → drop o bytes ≡ item ++ rest
    → slice bytes (pos o) (pos (o + length item)) ≡ item
unfolding slice
slice_item o bytes item rest h =
    let n : o + length item - o ≡ length item = omega arith in rw (n, h) (take_length item rest)

run_value {ℓ} : {A : Type ℓ} → A → Run A → A
run_value d (thrown e) = d
run_value d (ok a) = a

pub ok_injective {ℓ} : {A : Type ℓ} (a b : A) → ok a ≡ ok b → a ≡ b
unfolding run_value
ok_injective a b h = ap (run_value a) h

written4 :
    (v : ℤ) (b : List ℕ)
    → write_int32 v ≡ ok b
    → (fits 2147483648 v ≡ true) × (b ≡ be4 (to_word 2147483648 v))
unfolding write_int32
written4 v b h = elim (Bool-cases (fits 2147483648 v)) [
  | inl inside ↦ (inside, sym (ok_injective _ _ (rw inside at h)))
  | inr outside ↦ let e = rw outside at h in ground arith
]

pub read-write_int32 :
    (v : ℤ) (b : List ℕ) (o : ℕ) (bytes rest : List ℕ)
    → write_int32 v ≡ ok b
    → drop o bytes ≡ b ++ rest
    → (read_int32 bytes (pos o) ≡ ok v) × (drop (o + 4) bytes ≡ rest)
unfolding read_int32
read-write_int32 v b o bytes rest h at =
    let w = written4 v b h in
    let here : drop o bytes ≡ be4 (to_word 2147483648 v) ++ rest = at ∙ ap (λ x. x ++ rest) w.1 in
    let back = of_word-to_word 2147483648 v w.0 in
    let bound = to_word-bound 2147483648 v w.0 in
    let word = word4-be4 (to_word 2147483648 v) rest bound in
    (
      ap (signed_run 2147483648) (ap word4 here ∙ word) ∙ ap ok back,
      drop_item o bytes (be4 (to_word 2147483648 v)) rest here,
    )

written2 :
    (v : ℤ) (b : List ℕ)
    → write_int16 v ≡ ok b
    → (fits 32768 v ≡ true) × (b ≡ be2 (to_word 32768 v))
unfolding write_int16
written2 v b h = elim (Bool-cases (fits 32768 v)) [
  | inl inside ↦ (inside, sym (ok_injective _ _ (rw inside at h)))
  | inr outside ↦ let e = rw outside at h in ground arith
]

written1 :
    (v : ℤ) (b : List ℕ) → write_int8 v ≡ ok b → (fits 128 v ≡ true) × (b ≡ be1 (to_word 128 v))
unfolding write_int8
written1 v b h = elim (Bool-cases (fits 128 v)) [
  | inl inside ↦ (inside, sym (ok_injective _ _ (rw inside at h)))
  | inr outside ↦ let e = rw outside at h in ground arith
]

written_unsigned : (n : ℕ) (b : List ℕ) → write_uint16 n ≡ ok b → (ltb n 65536 ≡ true) × (b ≡ be2 n)
unfolding write_uint16
written_unsigned n b h = elim (Bool-cases (ltb n 65536)) [
  | inl inside ↦ (inside, sym (ok_injective _ _ (rw inside at h)))
  | inr outside ↦ let e = rw outside at h in ground arith
]

pub read-write_int16 :
    (v : ℤ) (b : List ℕ) → write_int16 v ≡ ok b → (read_int16 b (pos 0) ≡ ok v) × (length b ≡ 2)
unfolding read_int16
read-write_int16 v b h =
    let w = written2 v b h in
    let bound = to_word-bound 32768 v w.0 in
    (
      ap (λ x. signed_run 32768 (word2 x)) w.1
          ∙ ap (signed_run 32768) (word2-be2 (to_word 32768 v) [] bound)
          ∙ ap ok (of_word-to_word 32768 v w.0),
      ap length w.1,
    )

pub read-write_int8 :
    (v : ℤ) (b : List ℕ) → write_int8 v ≡ ok b → (read_int8 b (pos 0) ≡ ok v) × (length b ≡ 1)
unfolding read_int8
read-write_int8 v b h =
    let w = written1 v b h in
    let bound = to_word-bound 128 v w.0 in
    (
      ap (λ x. signed_run 128 (word1 x)) w.1
          ∙ ap (signed_run 128) (word1-be1 (to_word 128 v) [] bound)
          ∙ ap ok (of_word-to_word 128 v w.0),
      ap length w.1,
    )

pub length-write_int32 : (v : ℤ) (b : List ℕ) → write_int32 v ≡ ok b → length b ≡ 4
length-write_int32 v b h = ap length (written4 v b h).1

-- A length that was written is read back, and leaves what follows it.
pub decode-get_length :
    (s : LengthSize) (n : ℕ) (b : List ℕ) (o : ℕ) (bytes rest : List ℕ)
    → get_length_buffer s n ≡ ok b
    → drop o bytes ≡ b ++ rest
    → (decode_collection_length s bytes (pos o) ≡ ok (pos n)) × (drop (o + size_of s) bytes ≡ rest)
unfolding get_length_buffer decode_collection_length read_uint16
decode-get_length two n b o bytes rest h at =
    let w = written_unsigned n b h in
    let here : drop o bytes ≡ be2 n ++ rest = at ∙ ap (λ x. x ++ rest) w.1 in
    let bound : n < 65536 = ground arith in
    (ap unsigned_run (ap word2 here ∙ word2-be2 n rest bound), drop_item o bytes (be2 n) rest here)
decode-get_length four n b o bytes rest h at = read-write_int32 (pos n) b o bytes rest h at

pub get_length-bound :
    (s : LengthSize) (n : ℕ) (b : List ℕ) → get_length_buffer s n ≡ ok b → n < 2147483648
unfolding get_length_buffer
get_length-bound two n b h = let w = (written_unsigned n b h).0 in ground arith
get_length-bound four n b h = let w = (written4 (pos n) b h).0 in ground arith

pub write_int32-bound : (n : ℕ) (b : List ℕ) → write_int32 (pos n) ≡ ok b → n < 2147483648
write_int32-bound n b h = let w = (written4 (pos n) b h).0 in ground arith
