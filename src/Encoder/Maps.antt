-- ===== src/Encoder/Maps.antt =====
-- lib/encoder.js: maps are read back from their bytes, where their keys and values are.
use mathlib.Core.List.{append-nil}
use integration_hell.Common.{
  ℕ, suc, ◌+◌, ◌≡◌, ◌≢◌, refl, sym, ap, ◌∙◌, arith, false, List, [], ◌∷◌, ◌++◌, length, drop, All,
}
use integration_hell.Common.Int.{pos, +ℤ_pos, ltb_ℤ}
use integration_hell.Encoder.Buffer.{
  Run, ok, and_then, ok_injective, slice_item, drop_item, LengthSize, size_of, get_length_buffer,
  decode-get_length, get_length-bound,
}
use integration_hell.Encoder.Types.{Input, undefined, null, unset, given}
use integration_hell.Encoder.Encode.{
  Encoded, null_bytes, undefined_bytes, bytes, concat, length_of, unless_null, map_parts,
  encode_map,
}
use integration_hell.Encoder.Decode.{map_entries, decode_map}
use integration_hell.Encoder.Collections.{
  then_inverse, bytes_injective, concat_sized, sized_at, ReadsItem, Reads,
}

module _ {A B : Type 0} (f : A → Run Encoded) (g : List ℕ → Run (Input A)) (f' : B → Run Encoded)
    (g' : List ℕ → Run (Input B)) where
  -- An entry whose key and value are read back, and whose value is not null.
  abbrev pub ReadsEntry : Input A × Input B → Type 0
  ReadsEntry (k, undefined) = ⊥
  ReadsEntry (k, null) = ⊥
  ReadsEntry (k, unset) = ⊥
  ReadsEntry (k, given v) = ReadsItem f g k × Reads f' g' v × (f' v ≢ ok null_bytes)

  entry_step :
      (s : LengthSize) (all : List ℕ) (o n : ℕ) (k : A) (v : B) (ks kb vs vb tail : List ℕ)
      (entries : List (Input A × Input B))
      → get_length_buffer s (length kb) ≡ ok ks
      → get_length_buffer s (length vb) ≡ ok vs
      → drop o all ≡ ks ++ (kb ++ (vs ++ (vb ++ tail)))
      → g kb ≡ ok (given k)
      → g' vb ≡ ok (given v)
      → ((o' : ℕ) → drop o' all ≡ tail → map_entries s g g' all n (pos o') ≡ ok entries)
      → map_entries s g g' all (suc n) (pos o) ≡ ok ((given k, given v) ∷ entries)
  unfolding map_entries and_then
  entry_step s all o n k v ks kb vs vb tail entries hk hv at readk readv more =
      let d = decode-get_length s (length kb) ks o all (kb ++ (vs ++ (vb ++ tail))) hk at in
      let o1 = o + size_of s in
      let cut = slice_item o1 all kb (vs ++ (vb ++ tail)) d.1 in
      let at1 = drop_item o1 all kb (vs ++ (vb ++ tail)) d.1 in
      let o2 = o1 + length kb in
      let e = decode-get_length s (length vb) vs o2 all (vb ++ tail) hv at1 in
      let o3 = o2 + size_of s in
      let cut' = slice_item o3 all vb tail e.1 in
      let rest = more (o3 + length vb) (drop_item o3 all vb tail e.1) in
      let positive : ltb_ℤ (pos (length vb)) (pos 0) ≡ false = ground arith in
      rw
        (
          d.0,
          +ℤ_pos o (size_of s),
          +ℤ_pos o1 (length kb),
          cut,
          readk,
          e.0,
          +ℤ_pos o2 (size_of s),
          +ℤ_pos o3 (length vb),
          positive,
          cut',
          readv,
          rest,
        )
        refl

  -- The value's part of an entry, where the value is not null.
  value_part :
      (item : Encoded) (rest : List Encoded)
      → item ≢ null_bytes
      → unless_null item rest ≡ item ∷ rest
  value_part null_bytes rest h = absurd (h refl)
  value_part undefined_bytes rest h = refl
  value_part (bytes b) rest h = refl

  map_entries_lem :
      (s : LengthSize) (all : List ℕ) (entries : List (Input A × Input B)) (o : ℕ)
      (parts : List Encoded) (b tail : List ℕ)
      → All ReadsEntry entries
      → map_parts s f f' entries ≡ ok parts
      → concat parts ≡ ok b
      → drop o all ≡ b ++ tail
      → map_entries s g g' all (length entries) (pos o) ≡ ok entries
  unfolding map_entries map_parts and_then
  map_entries_lem s all [] o parts b tail reads hp hc at = refl
  map_entries_lem s all ((k, undefined) ∷ entries) o parts b tail reads hp hc at = absurd reads.0
  map_entries_lem s all ((k, null) ∷ entries) o parts b tail reads hp hc at = absurd reads.0
  map_entries_lem s all ((k, unset) ∷ entries) o parts b tail reads hp hc at = absurd reads.0
  map_entries_lem s all ((undefined, given v) ∷ entries) o parts b tail reads hp hc at =
      absurd reads.0.0
  map_entries_lem s all ((null, given v) ∷ entries) o parts b tail reads hp hc at = absurd reads.0.0
  map_entries_lem s all ((unset, given v) ∷ entries) o parts b tail reads hp hc at =
      absurd reads.0.0
  map_entries_lem s all ((given k, given v) ∷ entries) o parts b tail reads hp hc at =
      let (key, ke, h1) = then_inverse (f k) _ parts hp in
      let (ks, kse, h2) = then_inverse (get_length_buffer s (length_of key)) _ parts h1 in
      let (value, ve, h3) = then_inverse (f' v) _ parts h2 in
      let (vs, vse, h4) = then_inverse (get_length_buffer s (length_of value)) _ parts h3 in
      let (rest, re, h5) = then_inverse (map_parts s f f' entries) _ parts h4 in
      let there : value ≢ null_bytes = λ e. reads.0.2 (ve ∙ ap ok e) in
      let whole : bytes ks ∷ key ∷ bytes vs ∷ value ∷ rest ≡ parts =
        ap (λ x. bytes ks ∷ key ∷ bytes vs ∷ x) (sym (value_part value rest there))
        ∙ ok_injective _ _ h5 in
      let (kb, r1, kie, c1, b1) =
        concat_sized ks key (bytes vs ∷ value ∷ rest) b (ap concat whole ∙ hc) in
      let (vb, r2, vie, c2, b2) = concat_sized vs value rest r1 c1 in
      let layout : (ks ++ (kb ++ r1)) ++ tail ≡ ks ++ (kb ++ (vs ++ (vb ++ (r2 ++ tail)))) =
        sized_at ks kb r1 tail
        ∙ ap (λ x. ks ++ (kb ++ x)) (ap (λ x. x ++ tail) b2 ∙ sized_at vs vb r2 tail) in
      let ks_ok : get_length_buffer s (length kb) ≡ ok ks =
        ap (λ x. get_length_buffer s (length_of x)) (sym kie) ∙ kse in
      let vs_ok : get_length_buffer s (length vb) ≡ ok vs =
        ap (λ x. get_length_buffer s (length_of x)) (sym vie) ∙ vse in
      entry_step s all o (length entries) k v ks kb vs vb (r2 ++ tail) entries ks_ok vs_ok
        (at ∙ ap (λ x. x ++ tail) b1 ∙ layout)
        (reads.0.0 kb (ke ∙ ap ok kie) (get_length-bound s (length kb) ks ks_ok))
        (reads.0.1 vb (ve ∙ ap ok vie) (get_length-bound s (length vb) vs vs_ok))
        (λ o' after. map_entries_lem s all entries o' rest r2 tail reads.1 re c2 after)

  pub map_Reads :
      (s : LengthSize) (entries : List (Input A × Input B)) (b : List ℕ)
      → All ReadsEntry entries
      → encode_map s f f' entries ≡ ok (bytes b)
      → decode_map s g g' b ≡ ok entries
  unfolding encode_map decode_map and_then concat
  map_Reads s entries b reads h =
      let (parts, pe, h1) = then_inverse (map_parts s f f' entries) _ (bytes b) h in
      let (size, se, h2) = then_inverse (get_length_buffer s (length entries)) _ (bytes b) h1 in
      let (whole, we, h3) =
        then_inverse (concat (bytes size ∷ parts)) (λ y. ok (bytes y)) (bytes b) h2 in
      let (rest, re, h4) = then_inverse (concat parts) (λ y. ok (size ++ y)) whole we in
      let same : b ≡ size ++ rest =
        bytes_injective b whole (sym (ok_injective _ _ h3)) ∙ sym (ok_injective _ _ h4) in
      let d = decode-get_length s (length entries) size 0 b rest se same in
      let start : 0 + size_of s ≡ size_of s = omega arith in
      let items =
        map_entries_lem s b entries (size_of s) parts rest [] reads pe re
          (ap (λ y. drop y b) (sym start) ∙ d.1 ∙ sym (append-nil rest)) in
      rw (d.0) items
