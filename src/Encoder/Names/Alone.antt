-- ===== src/Encoder/Names/Alone.antt =====
-- lib/encoder.js and lib/types/index.js: names that `parseTypeName` takes for no composed ones.
use integration_hell.Common.{
  ℕ, ◌≡◌, refl, ap, ◌∙◌, arith, Bool, true, false, not, ◌&&◌, Bool-cases, inl, inr, some, [], ◌∷◌,
  if◌then◌else◌, All,
}
use integration_hell.Encoder.Names.{Text, codes, stands_at, is_space, trim_start, in_front}
use integration_hell.Encoder.Names.Native.{
  Code, custom, list, map, set, tuple, udt, ascii, bigint, blob, boolean, counter, decimal, double,
  float, int, text, timestamp, uuid, varchar, varint, timeuuid, inet, date, time, smallint, tinyint,
  duration, name_of, code_of,
}
use integration_hell.Encoder.Names.Cql.{
  Kind, a_list, a_set, a_map, a_tuple, a_vector, another, kind_at,
}
use integration_hell.Encoder.Names.Split.{is_plain, IsTrimmed}

abbrev pub is_another : Kind → Bool
is_another another = true
is_another _ = false

abbrev pub all_plain : Text → Bool
all_plain [] = true
all_plain (c ∷ name) = is_plain c && all_plain name

abbrev pub some_text : Text → Bool
some_text [] = false
some_text (c ∷ name) = true

-- A name that is not taken for a quoted, frozen or composed one: it starts with none of the words, which
-- is more than to be none of them, and has no white space, comma or bracket.
abbrev pub stands_alone : Text → Bool
stands_alone name =
    not (stands_at name 0 (codes "'"))
    && (not (stands_at name 0 (codes "frozen"))
        && (is_another (kind_at name 0)
            && (not (stands_at name 0 (codes "\"")) && (some_text name && all_plain name))))

pub both_true : (a b : Bool) → (a && b) ≡ true → (a ≡ true) × (b ≡ true)
both_true true true h = (refl, refl)
both_true true false h = ground arith
both_true false b h = ground arith

pub not-true : (a : Bool) → not a ≡ true → a ≡ false
not-true true h = ground arith
not-true false h = refl

pub another_lem : (k : Kind) → is_another k ≡ true → k ≡ another
another_lem another h = refl
another_lem a_list h = ground arith
another_lem a_set h = ground arith
another_lem a_map h = ground arith
another_lem a_tuple h = ground arith
another_lem a_vector h = ground arith

pub all_plain_lem : (name : Text) → all_plain name ≡ true → All (λ c. is_plain c ≡ true) name
all_plain_lem [] h = tt
all_plain_lem (c ∷ name) h =
    let (a, b) = both_true (is_plain c) (all_plain name) h in (a, all_plain_lem name b)

pub plain_space : (c : ℕ) → is_plain c ≡ true → is_space c ≡ false
plain_space c h = elim (Bool-cases (is_space c)) [
  | inr fine ↦ fine
  | inl space ↦ let e = rw space at h in ground arith
]

front_plain : (c : ℕ) (name : Text) → is_space c ≡ false → in_front c name ≡ c ∷ name
front_plain c [] h = ap (λ b. if b then [] else c ∷ []) h
front_plain c (d ∷ name) h = refl

pub plain-IsTrimmed : (name : Text) → All (λ c. is_plain c ≡ true) name → IsTrimmed name
plain-IsTrimmed [] h = (refl, refl)
plain-IsTrimmed (c ∷ name) h =
    let here = plain_space c h.0 in
    let more = plain-IsTrimmed name h.1 in
    (
      ap (λ b. if b then trim_start name else c ∷ name) here,
      ap (in_front c) more.1 ∙ front_plain c name here,
    )

-- The codes of types that have no others in them.
abbrev pub IsNative : Code → Type 0
IsNative custom = ⊥
IsNative list = ⊥
IsNative map = ⊥
IsNative set = ⊥
IsNative udt = ⊥
IsNative tuple = ⊥
IsNative _ = Unit

pub native_alone : (c : Code) → IsNative c → stands_alone (name_of c) ≡ true
unfolding kind_at
native_alone custom h = absurd h
native_alone list h = absurd h
native_alone map h = absurd h
native_alone set h = absurd h
native_alone udt h = absurd h
native_alone tuple h = absurd h
native_alone ascii h = refl
native_alone bigint h = refl
native_alone blob h = refl
native_alone boolean h = refl
native_alone counter h = refl
native_alone decimal h = refl
native_alone double h = refl
native_alone float h = refl
native_alone int h = refl
native_alone text h = refl
native_alone timestamp h = refl
native_alone uuid h = refl
native_alone varchar h = refl
native_alone varint h = refl
native_alone timeuuid h = refl
native_alone inet h = refl
native_alone date h = refl
native_alone time h = refl
native_alone smallint h = refl
native_alone tinyint h = refl
native_alone duration h = refl

pub code_of-name_of : (c : Code) → code_of (name_of c) ≡ some c
unfolding code_of
code_of-name_of custom = refl
code_of-name_of ascii = refl
code_of-name_of bigint = refl
code_of-name_of blob = refl
code_of-name_of boolean = refl
code_of-name_of counter = refl
code_of-name_of decimal = refl
code_of-name_of double = refl
code_of-name_of float = refl
code_of-name_of int = refl
code_of-name_of text = refl
code_of-name_of timestamp = refl
code_of-name_of uuid = refl
code_of-name_of varchar = refl
code_of-name_of varint = refl
code_of-name_of timeuuid = refl
code_of-name_of inet = refl
code_of-name_of date = refl
code_of-name_of time = refl
code_of-name_of smallint = refl
code_of-name_of tinyint = refl
code_of-name_of duration = refl
code_of-name_of list = refl
code_of-name_of map = refl
code_of-name_of set = refl
code_of-name_of udt = refl
code_of-name_of tuple = refl

-- What a name that stands alone is like.
pub alone_lem :
    (name : Text)
    → stands_alone name ≡ true
    → (stands_at name 0 (codes "'") ≡ false)
      × (stands_at name 0 (codes "frozen") ≡ false)
      × (kind_at name 0 ≡ another)
      × (stands_at name 0 (codes "\"") ≡ false)
      × (some_text name ≡ true)
      × All (λ c. is_plain c ≡ true) name
alone_lem name h =
    let (a, h1) = both_true (not (stands_at name 0 (codes "'"))) _ h in
    let (b, h2) = both_true (not (stands_at name 0 (codes "frozen"))) _ h1 in
    let (c, h3) = both_true (is_another (kind_at name 0)) _ h2 in
    let (d, h4) = both_true (not (stands_at name 0 (codes "\""))) _ h3 in
    let (e, f) = both_true (some_text name) (all_plain name) h4 in
    (
      not-true _ a,
      not-true _ b,
      another_lem (kind_at name 0) c,
      not-true _ d,
      e,
      all_plain_lem name f,
    )
