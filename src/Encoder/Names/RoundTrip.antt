-- ===== src/Encoder/Names/RoundTrip.antt =====
-- lib/encoder.js and lib/types/index.js: `parseTypeName` of the names that `getDataTypeNameByCode` gives.
use integration_hell.Common.{
  ℕ, zero, suc, ◌<◌, ◌≡◌, refl, sym, ap, ◌∙◌, arith, Bool, false, Option, [], ◌++◌, length,
}
use integration_hell.Encoder.Names.{Text, codes}
use integration_hell.Encoder.Names.Native.{
  Info, single, custom_of, list_of, set_of, map_of, tuple_of, udt_of, vector_of, Infos, no_infos,
  cons,
}
use integration_hell.Encoder.Names.Cql.{
  parsed, then_parsed, a_list, a_set, a_map, a_tuple, kind_at, one_inner, child_types, two_inner,
  some_inner, parse_whole, type_name, after_comma,
}
use integration_hell.Encoder.Names.Brackets.{between}
use integration_hell.Encoder.Names.Split.{split-last}
use integration_hell.Encoder.Names.Plain.{
  parse, text_of, IsPlain, ArePlain, type_IsPart, spaced, split_after, parse_step, parse_native,
  parse_user, params_between, inner_shorter, shorter, first_and_after, next_and_after,
}

module _ {U : Type 0} (parse_int : Text → Option ℕ) (udt_name : U → Text) (show : ℕ → Text)
    (resolve : Text → Option U) where
  parse_list :
      (fuel : ℕ) (frozen : Bool) (i : Info U)
      → frozen ≡ false
      → IsPlain parse_int udt_name show resolve i
      → parse parse_int udt_name show resolve fuel resolve
          (text_of parse_int udt_name show resolve i)
        ≡ parsed i
      → (parse parse_int udt_name show resolve)
          (suc fuel)
          resolve
          (between (codes "list") (text_of parse_int udt_name show resolve i))
        ≡ parsed (list_of frozen i)
  unfolding kind_at one_inner then_parsed
  parse_list fuel frozen i not_frozen h one =
      let p = text_of parse_int udt_name show resolve i in
      (parse_step parse_int udt_name show resolve) fuel (between (codes "list") p) a_list refl refl
        refl
      ∙ ap
          (λ ps.
            one_inner parse_int (parse parse_int udt_name show resolve fuel) resolve ps
              (list_of false))
          (params_between parse_int udt_name show resolve (codes "list") p 4 refl refl
            ∙ split-last p [] (type_IsPart parse_int udt_name show resolve i h).0)
      ∙ ap (λ r. then_parsed r (λ x. parsed (list_of false x))) one
      ∙ ap (λ f. parsed (list_of f i)) (sym not_frozen)

  parse_set :
      (fuel : ℕ) (frozen : Bool) (i : Info U)
      → frozen ≡ false
      → IsPlain parse_int udt_name show resolve i
      → parse parse_int udt_name show resolve fuel resolve
          (text_of parse_int udt_name show resolve i)
        ≡ parsed i
      → (parse parse_int udt_name show resolve)
          (suc fuel)
          resolve
          (between (codes "set") (text_of parse_int udt_name show resolve i))
        ≡ parsed (set_of frozen i)
  unfolding kind_at one_inner then_parsed
  parse_set fuel frozen i not_frozen h one =
      let p = text_of parse_int udt_name show resolve i in
      (parse_step parse_int udt_name show resolve) fuel (between (codes "set") p) a_set refl refl
        refl
      ∙ ap
          (λ ps.
            one_inner parse_int (parse parse_int udt_name show resolve fuel) resolve ps
              (set_of false))
          (params_between parse_int udt_name show resolve (codes "set") p 3 refl refl
            ∙ split-last p [] (type_IsPart parse_int udt_name show resolve i h).0)
      ∙ ap (λ r. then_parsed r (λ x. parsed (set_of false x))) one
      ∙ ap (λ f. parsed (set_of f i)) (sym not_frozen)

  parse_map :
      (fuel : ℕ) (frozen : Bool) (i j : Info U)
      → frozen ≡ false
      → IsPlain parse_int udt_name show resolve i
      → IsPlain parse_int udt_name show resolve j
      → parse parse_int udt_name show resolve fuel resolve
          (text_of parse_int udt_name show resolve i)
        ≡ parsed i
      → child_types parse_int
          (parse parse_int udt_name show resolve fuel)
          resolve
          (spaced parse_int udt_name show resolve (cons j no_infos))
        ≡ parsed (cons j no_infos)
      → parse parse_int udt_name show resolve (suc fuel) resolve (
          between (codes "map") (
            (text_of parse_int udt_name show resolve) i
            ++ after_comma udt_name show (cons j no_infos)))
        ≡ parsed (map_of frozen (cons i (cons j no_infos)))
  unfolding kind_at two_inner
  parse_map fuel frozen i j not_frozen h h' one more =
      let is = cons j no_infos in
      let p = text_of parse_int udt_name show resolve i ++ after_comma udt_name show is in
      (parse_step parse_int udt_name show resolve) fuel (between (codes "map") p) a_map refl refl
        refl
      ∙ ap
          (λ ps.
            two_inner parse_int (parse parse_int udt_name show resolve fuel) resolve ps
              (map_of false))
          (params_between parse_int udt_name show resolve (codes "map") p 3 refl refl
            ∙ split_after parse_int udt_name show resolve is
                (text_of parse_int udt_name show resolve i) [] (h', tt)
                (type_IsPart parse_int udt_name show resolve i h).0)
      ∙ ap (λ r. then_parsed r (λ x. parsed (map_of false x)))
          (first_and_after parse_int udt_name show resolve fuel i is h one more)
      ∙ ap (λ f. parsed (map_of f (cons i is))) (sym not_frozen)

  parse_tuple :
      (fuel : ℕ) (frozen : Bool) (i : Info U) (is : Infos U)
      → frozen ≡ false
      → IsPlain parse_int udt_name show resolve i
      → ArePlain parse_int udt_name show resolve is
      → parse parse_int udt_name show resolve fuel resolve
          (text_of parse_int udt_name show resolve i)
        ≡ parsed i
      → child_types parse_int
          (parse parse_int udt_name show resolve fuel)
          resolve
          (spaced parse_int udt_name show resolve is)
        ≡ parsed is
      → parse parse_int udt_name show resolve (suc fuel) resolve (
          between
            (codes "tuple")
            (text_of parse_int udt_name show resolve i ++ after_comma udt_name show is))
        ≡ parsed (tuple_of frozen (cons i is))
  unfolding kind_at some_inner
  parse_tuple fuel frozen i is not_frozen h hs one more =
      let p = text_of parse_int udt_name show resolve i ++ after_comma udt_name show is in
      (parse_step parse_int udt_name show resolve) fuel (between (codes "tuple") p) a_tuple refl
        refl refl
      ∙ ap
          (λ ps.
            some_inner parse_int (parse parse_int udt_name show resolve fuel) resolve ps
              (tuple_of false))
          (params_between parse_int udt_name show resolve (codes "tuple") p 5 refl refl
            ∙ split_after parse_int udt_name show resolve is
                (text_of parse_int udt_name show resolve i) [] hs
                (type_IsPart parse_int udt_name show resolve i h).0)
      ∙ ap (λ r. then_parsed r (λ x. parsed (tuple_of false x)))
          (first_and_after parse_int udt_name show resolve fuel i is h one more)
      ∙ ap (λ f. parsed (tuple_of f (cons i is))) (sym not_frozen)

  parse_none :
      (fuel : ℕ)
      → child_types parse_int (parse parse_int udt_name show resolve fuel) resolve []
        ≡ parsed no_infos
  unfolding child_types
  parse_none fuel = refl

  mutual
    unfolding type_name

    parse_plain :
        (i : Info U) (fuel : ℕ)
        → IsPlain parse_int udt_name show resolve i
        → length (text_of parse_int udt_name show resolve i) < fuel
        → parse parse_int udt_name show resolve fuel resolve
            (text_of parse_int udt_name show resolve i)
          ≡ parsed i
    parse_plain i zero h fits = absurd (omega arith)
    parse_plain (single c) (suc fuel) h fits =
        (parse_native parse_int udt_name show resolve) fuel c h
    parse_plain (custom_of info) (suc fuel) h fits = absurd h
    parse_plain (list_of frozen i) (suc fuel) h fits = parse_list fuel frozen i h.0 h.1 (
        parse_plain i fuel h.1 (
          (inner_shorter parse_int udt_name show resolve) (codes "list")
            (text_of parse_int udt_name show resolve i) fuel fits))
    parse_plain (set_of frozen i) (suc fuel) h fits = parse_set fuel frozen i h.0 h.1 (
        parse_plain i fuel h.1 (
          (inner_shorter parse_int udt_name show resolve) (codes "set")
            (text_of parse_int udt_name show resolve i) fuel fits))
    parse_plain (map_of frozen no_infos) (suc fuel) h fits = absurd h
    parse_plain (map_of frozen (cons i no_infos)) (suc fuel) h fits = absurd h
    parse_plain (map_of frozen (cons i (cons j no_infos))) (suc fuel) h fits =
        let bound =
          (shorter parse_int udt_name show resolve) (text_of parse_int udt_name show resolve i)
            (after_comma udt_name show (cons j no_infos)) fuel
            (inner_shorter parse_int udt_name show resolve (codes "map") _ fuel fits) in
        parse_map fuel frozen i j h.0 h.1 h.2 (parse_plain i fuel h.1 bound.0)
          (parse_after (cons j no_infos) fuel (h.2, tt) bound.1)
    parse_plain (map_of frozen (cons i (cons j (cons k is)))) (suc fuel) h fits = absurd h
    parse_plain (tuple_of frozen no_infos) (suc fuel) h fits = absurd h
    parse_plain (tuple_of frozen (cons i is)) (suc fuel) h fits =
        let bound =
          (shorter parse_int udt_name show resolve) (text_of parse_int udt_name show resolve i)
            (after_comma udt_name show is) fuel
            (inner_shorter parse_int udt_name show resolve (codes "tuple") _ fuel fits) in
        parse_tuple fuel frozen i is h.0 h.1 h.2 (parse_plain i fuel h.1 bound.0)
          (parse_after is fuel h.2 bound.1)
    parse_plain (udt_of frozen u) (suc fuel) h fits =
        (parse_user parse_int udt_name show resolve) fuel u h.1
        ∙ ap (λ f. parsed (udt_of f u)) (sym h.0)
    parse_plain (vector_of i n) (suc fuel) h fits = absurd h

    parse_after :
        (is : Infos U) (fuel : ℕ)
        → ArePlain parse_int udt_name show resolve is
        → length (after_comma udt_name show is) < fuel
        → child_types parse_int
            (parse parse_int udt_name show resolve fuel)
            resolve
            (spaced parse_int udt_name show resolve is)
          ≡ parsed is
    parse_after no_infos fuel h fits = parse_none fuel
    parse_after (cons i is) fuel h fits =
        let bound =
          (shorter parse_int udt_name show resolve) (text_of parse_int udt_name show resolve i)
            (after_comma udt_name show is) fuel (omega arith) in
        (next_and_after parse_int udt_name show resolve) fuel i is h.0
          (parse_plain i fuel h.0 bound.0) (parse_after is fuel h.1 bound.1)

  -- `parseTypeName` gives a type back for the name that `getDataTypeNameByCode` gives it, where nothing in
  -- it is frozen, a vector or custom, maps are of two types and tuples of at least one, and the name of a
  -- user-defined type stands alone, which is that it begins with no word of another kind of type and has
  -- no quotes, brackets, commas or white space, is not that of another type, and is resolved to it.
  pub parse_whole-type_name :
      (i : Info U)
      → IsPlain parse_int udt_name show resolve i
      → parse_whole parse_int resolve (text_of parse_int udt_name show resolve i) ≡ parsed i
  parse_whole-type_name i h =
      parse_plain i (suc (length (text_of parse_int udt_name show resolve i))) h (omega arith)
