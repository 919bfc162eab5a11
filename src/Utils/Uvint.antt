-- ===== src/Utils/Uvint.antt =====
-- lib/utils.js: `uvintPack` and `uvintUnpack` of `VIntCoding`, for numbers below 2 ^ 31, the lengths
-- of buffers. `numBits` of the source goes below 0 where it stops at 0 here; no test tells them apart.
pub mod RoundTrip
use Prim.Native.Nat.{bit_or}
use integration_hell.Common.{
  ℕ, zero, suc, ◌+◌, ◌-◌, ◌*◌, ◌/◌, ◌%◌, ◌^◌, min, Bool, Option, none, some, List, [], ◌∷◌, ltb,
  ◌==◌, if◌then◌else◌, get_elem?,
}
use integration_hell.Common.Int.{ℤ, pos, negsuc}

unfoldable pub bit_length : ℕ → ℕ → ℕ
bit_length zero v = 0
bit_length (suc fuel) v = let rest = bit_length fuel (v / 2) in if v == 0 then 0 else suc rest

-- `v.toString(2).length` of a number below 2 ^ 64
unfoldable pub binary_length : ℕ → ℕ
binary_length v = if v == 0 then 1 else bit_length 64 v

-- The variables of the loop of `uvintPack`; `rv` is kept in the order after `rv.reverse()`.
pub record Packing : Type 0 where
  pub extra : ℕ
  pub bits : ℕ
  pub reserved : ℕ
  pub rv : List ℕ
  pub v : ℕ

-- Each round adds an extra byte and there are at most 8, so 9 rounds are enough.
unfoldable pub pack_loop : ℕ → Packing → Packing
pack_loop zero s = s
pack_loop (suc fuel) s =
    let next = pack_loop fuel (record {
      extra = s.extra + 1;
      bits = s.bits - 8;
      reserved = min (s.extra + 2) 8;
      rv = s.v % 256 ∷ s.rv;
      v = s.v / 256;
    }) in
    if ltb (8 - s.reserved) s.bits then next else s

-- The last byte pushed: `v |= (0xff >> n) << n` with n = 8 - numExtraBytes.
unfoldable pub finish : Packing → Option (List ℕ)
finish s =
    if ltb 8 s.extra
    then none
    else some (bit_or s.v (255 / 2 ^ (8 - s.extra) * 2 ^ (8 - s.extra)) ∷ s.rv)

-- `none` is the error for a value that is too big.
unfoldable pub uvint_pack : ℕ → Option (List ℕ)
unfolding pack_loop finish binary_length
uvint_pack v =
    if ltb v 128
    then some (v ∷ [])
    else finish
        (pack_loop 9 (record { extra = 0; bits = binary_length v; reserved = 1; rv = []; v = v }))

-- A byte past the end counts as 0.
abbrev byte : Option ℕ → ℕ
byte none = 0
byte (some b) = b % 256

-- The loop over the extra bytes from index `idx` on; `rv` is the word of a 32-bit integer.
unfoldable pub unpack_loop : List ℕ → ℕ → ℕ → ℕ → ℕ
unpack_loop bytes zero idx rv = rv
unpack_loop bytes (suc left) idx rv =
    unpack_loop bytes left (idx + 1) ((rv * 256 + byte (get_elem? bytes idx)) % 2 ^ 32)

abbrev pub signed32 : ℕ → ℤ
signed32 w = if ltb w (2 ^ 31) then pos w else negsuc (2 ^ 32 - 1 - w)

-- Of bytes that are not empty: the number, and how many bytes it takes.
unfoldable pub uvint_unpack : ℕ → List ℕ → ℤ × ℕ
unfolding unpack_loop binary_length
uvint_unpack first rest =
    if ltb first 128
    then (pos first, 1)
    else let extra = 8 - binary_length (255 - first) in
      (signed32 (unpack_loop (first ∷ rest) extra 1 (first % 2 ^ (8 - extra))), extra + 1)
