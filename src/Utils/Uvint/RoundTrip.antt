-- ===== src/Utils/Uvint/RoundTrip.antt =====
-- lib/utils.js: `uvintUnpack` of what `uvintPack` writes.
use mathlib.Core.Path.{subst}
use native.Mathlib.Nat.{pow-suc, pow-zero}
use integration_hell.Common.{
  ℕ, zero, suc, ◌+◌, ◌-◌, ◌*◌, ◌/◌, ◌%◌, ◌^◌, ◌≤◌, ◌<◌, ◌≡◌, sym, ap, ◌∙◌, ◌↔◌, arith, inl, inr,
  true, false, Bool-cases, ltb→lt, ge_of_ltb, Option, none, some, List, [], ◌∷◌, ◌++◌, ltb, ◌==◌,
  if◌then◌else◌, length,
}
use integration_hell.Common.Int.{ℤ, pos}
use integration_hell.Common.Bits.{bit_or_low_high, pow-pos}
use integration_hell.Utils.Uvint.{
  bit_length, binary_length, pack_loop, finish, uvint_pack, unpack_loop, signed32, uvint_unpack,
}

bit_length-range : (f k v : ℕ) → v < 2 ^ f → (k < bit_length f v) ↔ (2 ^ k ≤ v)
unfolding bit_length
bit_length-range zero k v h =
    let none_left : v ≡ 0 = omega (arith, pow-zero 2) in omega (arith, pow-pos k)
bit_length-range (suc f) zero v h = elim (Bool-cases (v == 0)) [
  | inl nothing ↦ rw nothing (ground (arith, pow-zero 2))
  | inr more ↦ rw more (ground (arith, pow-zero 2))
]
bit_length-range (suc f) (suc k) v h =
    let half = bit_length-range f k (v / 2) (omega (arith, pow-suc 2 f)) in
    elim (Bool-cases (v == 0)) [
      | inl nothing ↦ rw nothing (ground (arith, pow-pos (suc k)))
      | inr more ↦ rw more (ground (arith, pow-suc 2 k))
    ]

binary_length_pos : (v : ℕ) → 0 < v → binary_length v ≡ bit_length 64 v
unfolding binary_length
binary_length_pos v h =
    let some_left : (v == 0) ≡ false = ground arith in
    ap (λ b. if b then 1 else bit_length 64 v) some_left

-- How a number compares with the lengths that the loops test.
above : (k v : ℕ) → 0 < v → v < 2 ^ 31 → 2 ^ k ≤ v → k < binary_length v
above k v low h p =
    let r = bit_length-range 64 k v (omega arith) in
    subst (λ x. k < x) (sym (binary_length_pos v low)) (r.1 p)

within : (k v : ℕ) → 0 < v → v < 2 ^ 31 → v < 2 ^ k → binary_length v ≤ k
within k v low h p =
    let r = bit_length-range 64 k v (omega arith) in
    subst (λ x. x ≤ k) (sym (binary_length_pos v low))
      (elim (Bool-cases (ltb k (bit_length 64 v))) [
        | inl over ↦ absurd (let q = r.0 (ltb→lt k (bit_length 64 v) over) in omega arith)
        | inr fine ↦ ge_of_ltb k (bit_length 64 v) fine
      ])

pack1 : (v : ℕ) → 128 ≤ v → v < 2 ^ 14 → uvint_pack v ≡ some ((128 + v / 256) ∷ v % 256 ∷ [])
unfolding uvint_pack pack_loop finish
pack1 v low high =
    let positive : 0 < v = omega arith in
    let e : ltb v 128 ≡ false = ground arith in
    let e0 : ltb 7 (binary_length v) ≡ true =
      ground (arith, above 7 v positive (omega arith) low) in
    let e1 : ltb 6 (binary_length v - 8) ≡ false =
      ground (arith, within 14 v positive (omega arith) high) in
    rw (e, e0, e1) (ap (λ x. some (x ∷ v % 256 ∷ [])) (bit_or_low_high 7 1 (v / 256) (omega arith)))

pack2 :
    (v : ℕ)
    → 2 ^ 14 ≤ v
    → v < 2 ^ 21
    → uvint_pack v ≡ some ((192 + v / 256 / 256) ∷ v / 256 % 256 ∷ v % 256 ∷ [])
unfolding uvint_pack pack_loop finish
pack2 v low high =
    let positive : 0 < v = omega arith in
    let e : ltb v 128 ≡ false = ground arith in
    let e0 : ltb 7 (binary_length v) ≡ true =
      ground (arith, above 7 v positive (omega arith) (omega arith)) in
    let e1 : ltb 6 (binary_length v - 8) ≡ true =
      ground (arith, above 14 v positive (omega arith) (omega arith)) in
    let e2 : ltb 5 (binary_length v - 8 - 8) ≡ false =
      ground (arith, within 21 v positive (omega arith) (omega arith)) in
    rw (e, e0, e1, e2)
      (ap (λ x. some (x ∷ v / 256 % 256 ∷ v % 256 ∷ []))
        (bit_or_low_high 6 3 (v / 256 / 256) (omega arith)))

pack3 :
    (v : ℕ)
    → 2 ^ 21 ≤ v
    → v < 2 ^ 28
    → uvint_pack v
      ≡ some ((224 + v / 256 / 256 / 256) ∷ v / 256 / 256 % 256 ∷ v / 256 % 256 ∷ v % 256 ∷ [])
unfolding uvint_pack pack_loop finish
pack3 v low high =
    let positive : 0 < v = omega arith in
    let e : ltb v 128 ≡ false = ground arith in
    let e0 : ltb 7 (binary_length v) ≡ true =
      ground (arith, above 7 v positive (omega arith) (omega arith)) in
    let e1 : ltb 6 (binary_length v - 8) ≡ true =
      ground (arith, above 14 v positive (omega arith) (omega arith)) in
    let e2 : ltb 5 (binary_length v - 8 - 8) ≡ true =
      ground (arith, above 21 v positive (omega arith) (omega arith)) in
    let e3 : ltb 4 (binary_length v - 8 - 8 - 8) ≡ false =
      ground (arith, within 28 v positive (omega arith) (omega arith)) in
    rw (e, e0, e1, e2, e3)
      (ap (λ x. some (x ∷ v / 256 / 256 % 256 ∷ v / 256 % 256 ∷ v % 256 ∷ []))
        (bit_or_low_high 5 7 (v / 256 / 256 / 256) (omega arith)))

pack4 :
    (v : ℕ)
    → 2 ^ 28 ≤ v
    → v < 2 ^ 31
    → uvint_pack v
      ≡ some (
          (240 + v / 256 / 256 / 256 / 256)
          ∷ v / 256 / 256 / 256 % 256
          ∷ v / 256 / 256 % 256
          ∷ v / 256 % 256
          ∷ v % 256
          ∷ [])
unfolding uvint_pack pack_loop finish
pack4 v low high =
    let positive : 0 < v = omega arith in
    let e : ltb v 128 ≡ false = ground arith in
    let e0 : ltb 7 (binary_length v) ≡ true =
      ground (arith, above 7 v positive (omega arith) (omega arith)) in
    let e1 : ltb 6 (binary_length v - 8) ≡ true =
      ground (arith, above 14 v positive (omega arith) (omega arith)) in
    let e2 : ltb 5 (binary_length v - 8 - 8) ≡ true =
      ground (arith, above 21 v positive (omega arith) (omega arith)) in
    let e3 : ltb 4 (binary_length v - 8 - 8 - 8) ≡ true =
      ground (arith, above 28 v positive (omega arith) (omega arith)) in
    let e4 : ltb 3 (binary_length v - 8 - 8 - 8 - 8) ≡ false =
      ground (arith, within 31 v positive (omega arith) (omega arith)) in
    rw (e, e0, e1, e2, e3, e4)
      (ap
        (λ x.
          some (x ∷ v / 256 / 256 / 256 % 256 ∷ v / 256 / 256 % 256 ∷ v / 256 % 256 ∷ v % 256 ∷ []))
        (bit_or_low_high 4 15 (v / 256 / 256 / 256 / 256) (omega arith)))

signed_small : (w v : ℕ) → w ≡ v → v < 2 ^ 31 → signed32 w ≡ pos v
signed_small w v e h = ap signed32 e ∙ ground arith

-- The number of extra bytes by the first byte.
extra_bytes :
    (k n : ℕ) → 0 < n → n < 2 ^ 31 → 2 ^ k ≤ n → n < 2 ^ (k + 1) → 8 - binary_length n ≡ 7 - k
extra_bytes k n h bound low high =
    omega (arith, above k n h bound low, within (k + 1) n h bound high)

unpack1 :
    (v : ℕ) (rest : List ℕ)
    → v < 2 ^ 14
    → uvint_unpack (128 + v / 256) (v % 256 ∷ rest) ≡ (pos v, 2)
unfolding uvint_unpack unpack_loop
unpack1 v rest high =
    let large : ltb (128 + v / 256) 128 ≡ false = ground arith in
    let extra : 8 - binary_length (255 - (128 + v / 256)) ≡ 1 =
      extra_bytes 6 (255 - (128 + v / 256)) (omega arith) (omega arith) (omega arith)
        (omega arith) in
    rw (large, extra)
      (ap (λ x. (x, 2))
        (signed_small (((128 + v / 256) % 2 ^ 7 * 256 + v % 256 % 256) % 2 ^ 32) v (omega arith)
          (omega arith)))

unpack2 :
    (v : ℕ) (rest : List ℕ)
    → v < 2 ^ 21
    → uvint_unpack (192 + v / 256 / 256) (v / 256 % 256 ∷ v % 256 ∷ rest) ≡ (pos v, 3)
unfolding uvint_unpack unpack_loop
unpack2 v rest high =
    let large : ltb (192 + v / 256 / 256) 128 ≡ false = ground arith in
    let extra : 8 - binary_length (255 - (192 + v / 256 / 256)) ≡ 2 =
      extra_bytes 5 (255 - (192 + v / 256 / 256)) (omega arith) (omega arith) (omega arith)
        (omega arith) in
    rw (large, extra)
      (ap (λ x. (x, 3))
        (signed_small
          ((((192 + v / 256 / 256) % 2 ^ 6 * 256 + v / 256 % 256 % 256) % 2 ^ 32 * 256
              + v % 256 % 256)
            % 2 ^ 32)
          v (omega arith) (omega arith)))

unpack3 :
    (v : ℕ) (rest : List ℕ)
    → v < 2 ^ 28
    → uvint_unpack
        (224 + v / 256 / 256 / 256)
        (v / 256 / 256 % 256 ∷ v / 256 % 256 ∷ v % 256 ∷ rest)
      ≡ (pos v, 4)
unfolding uvint_unpack unpack_loop
unpack3 v rest high =
    let large : ltb (224 + v / 256 / 256 / 256) 128 ≡ false = ground arith in
    let extra : 8 - binary_length (255 - (224 + v / 256 / 256 / 256)) ≡ 3 =
      extra_bytes 4 (255 - (224 + v / 256 / 256 / 256)) (omega arith) (omega arith) (omega arith)
        (omega arith) in
    rw (large, extra)
      (ap (λ x. (x, 4))
        (signed_small
          (((((224 + v / 256 / 256 / 256) % 2 ^ 5 * 256 + v / 256 / 256 % 256 % 256) % 2 ^ 32 * 256
                  + v / 256 % 256 % 256)
                % 2 ^ 32
                * 256
              + v % 256 % 256)
            % 2 ^ 32)
          v (omega arith) (omega arith)))

unpack4 :
    (v : ℕ) (rest : List ℕ)
    → v < 2 ^ 31
    → uvint_unpack
        (240 + v / 256 / 256 / 256 / 256)
        (v / 256 / 256 / 256 % 256 ∷ v / 256 / 256 % 256 ∷ v / 256 % 256 ∷ v % 256 ∷ rest)
      ≡ (pos v, 5)
unfolding uvint_unpack unpack_loop
unpack4 v rest high =
    let large : ltb (240 + v / 256 / 256 / 256 / 256) 128 ≡ false = ground arith in
    let extra : 8 - binary_length (255 - (240 + v / 256 / 256 / 256 / 256)) ≡ 4 =
      extra_bytes 3 (255 - (240 + v / 256 / 256 / 256 / 256)) (omega arith) (omega arith)
        (omega arith) (omega arith) in
    rw (large, extra)
      (ap (λ x. (x, 5))
        (signed_small
          ((((((240 + v / 256 / 256 / 256 / 256) % 2 ^ 4 * 256 + v / 256 / 256 / 256 % 256 % 256)
                        % 2 ^ 32
                        * 256
                      + v / 256 / 256 % 256 % 256)
                    % 2 ^ 32
                    * 256
                  + v / 256 % 256 % 256)
                % 2 ^ 32
                * 256
              + v % 256 % 256)
            % 2 ^ 32)
          v (omega arith) (omega arith)))

-- What `uvintUnpack` gives for bytes, where there are any.
abbrev pub unpacked : List ℕ → Option (ℤ × ℕ)
unpacked [] = none
unpacked (b ∷ rest) = some (uvint_unpack b rest)

unpack0 : (v : ℕ) (rest : List ℕ) → v < 128 → uvint_unpack v rest ≡ (pos v, 1)
unfolding uvint_unpack
unpack0 v rest h = ground arith

pack0 : (v : ℕ) → v < 128 → uvint_pack v ≡ some (v ∷ [])
unfolding uvint_pack
pack0 v h = ground arith

-- A number below 2 ^ 31 is packed, and unpacked again with the number of its bytes, whatever follows
-- them.
pub unpacked-uvint_pack :
    (v : ℕ) (rest : List ℕ)
    → v < 2 ^ 31
    → (bytes : List ℕ) × (uvint_pack v ≡ some bytes)
      × (unpacked (bytes ++ rest) ≡ some (pos v, length bytes))
unpacked-uvint_pack v rest h = elim (Bool-cases (ltb v 128)) [
  | inl a ↦ (v ∷ [], pack0 v (ltb→lt v 128 a), ap some (unpack0 v rest (ltb→lt v 128 a)))
  | inr a ↦
      let a' = ge_of_ltb v 128 a in
      elim (Bool-cases (ltb v (2 ^ 14))) [
        | inl b ↦ let b' = ltb→lt v (2 ^ 14) b in (_, pack1 v a' b', ap some (unpack1 v rest b'))
        | inr b ↦
            let b' = ge_of_ltb v (2 ^ 14) b in
            elim (Bool-cases (ltb v (2 ^ 21))) [
              | inl c ↦
                  let c' = ltb→lt v (2 ^ 21) c in (_, pack2 v b' c', ap some (unpack2 v rest c'))
              | inr c ↦
                  let c' = ge_of_ltb v (2 ^ 21) c in
                  elim (Bool-cases (ltb v (2 ^ 28))) [
                    | inl d ↦
                        let d' = ltb→lt v (2 ^ 28) d in
                        (_, pack3 v c' d', ap some (unpack3 v rest d'))
                    | inr d ↦ (_, pack4 v (ge_of_ltb v (2 ^ 28) d) h, ap some (unpack4 v rest h))
                  ]
            ]
      ]
]
