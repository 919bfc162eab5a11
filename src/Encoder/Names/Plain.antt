-- ===== src/Encoder/Names/Plain.antt =====
-- lib/encoder.js and lib/types/index.js: steps of `parseTypeName` on the names that `getDataTypeNameByCode` gives.
use mathlib.Core.List.{append-nil}
use integration_hell.Common.{
  ℕ, suc, ◌+◌, ◌-◌, ◌<◌, ◌≡◌, refl, ap, ◌∙◌, arith, true, false, Option, none, some, List, [], ◌∷◌,
  ◌++◌, length, length-append, drop, if◌then◌else◌,
}
use integration_hell.Common.Int.{pos}
use integration_hell.Encoder.Names.{Text, codes, substr, stands_at, same_text, parse_params}
use integration_hell.Encoder.Names.Native.{
  Code, name_of, code_of, Info, single, custom_of, list_of, set_of, map_of, tuple_of, udt_of,
  vector_of, Infos, no_infos, cons,
}
use integration_hell.Encoder.Names.Cql.{
  Parsed, parsed, then_parsed, Kind, another, kind_at, Cursor, unfreeze, params_at, unescape,
  bare_name, user_type, coded, named, child_types, parse_kind, parse_type_name, type_name,
  after_comma,
}
use integration_hell.Encoder.Names.Alone.{
  stands_alone, IsNative, native_alone, code_of-name_of, alone_lem,
}
use integration_hell.Encoder.Names.Brackets.{
  between, IsPart, alone_IsPart, between-IsPart, params_lem,
}
use integration_hell.Encoder.Names.Split.{
  rest_of, IsInner-nil, IsClosed, IsInner, IsInner-append, IsInner-IsClosed, IsInner-separator,
  split-comma, split-last, IsClosed-space, trim_lem,
}

abbrev pub plain_cursor : ℕ → Cursor
plain_cursor n = record { start = 0; length = n; frozen = false }

module _ {U : Type 0} (parse_int : Text → Option ℕ) (udt_name : U → Text) (show : ℕ → Text)
    (resolve : Text → Option U) where
  abbrev pub parse : ℕ → (Text → Option U) → Text → Parsed (Info U)
  parse fuel r name = parse_type_name parse_int fuel r name 0 0

  abbrev pub text_of : Info U → Text
  text_of = type_name udt_name show

  -- A user-defined type whose name stands alone, is not one of another type, and is resolved to it.
  abbrev pub IsUser : U → Type 0
  IsUser u =
      (stands_alone (udt_name u) ≡ true)
      × (code_of (udt_name u) ≡ none)
      × (same_text (udt_name u) (codes "duration") ≡ false)
      × (same_text (udt_name u) (codes "empty") ≡ false)
      × (resolve (udt_name u) ≡ some u)

  -- Types that are not frozen, without vectors and custom types; a map has two types and a tuple at
  -- least one.
  abbrev mutual
    pub IsPlain : Info U → Type 0
    IsPlain (single c) = IsNative c
    IsPlain (custom_of info) = ⊥
    IsPlain (list_of frozen i) = (frozen ≡ false) × IsPlain i
    IsPlain (set_of frozen i) = (frozen ≡ false) × IsPlain i
    IsPlain (map_of frozen (cons i (cons j no_infos))) = (frozen ≡ false) × IsPlain i × IsPlain j
    IsPlain (map_of frozen _) = ⊥
    IsPlain (tuple_of frozen no_infos) = ⊥
    IsPlain (tuple_of frozen (cons i is)) = (frozen ≡ false) × IsPlain i × ArePlain is
    IsPlain (udt_of frozen u) = (frozen ≡ false) × IsUser u
    IsPlain (vector_of i n) = ⊥

    pub ArePlain : Infos U → Type 0
    ArePlain no_infos = Unit
    ArePlain (cons i is) = IsPlain i × ArePlain is

  pub joined_IsInner : (p q : Text) → IsPart p → IsInner q → IsInner (p ++ q)
  joined_IsInner p q h hq = IsInner-append p q (IsInner-IsClosed p h.0) hq

  mutual
    unfolding type_name

    pub type_IsPart : (i : Info U) → IsPlain i → IsPart (text_of i)
    type_IsPart (single c) h = alone_IsPart (name_of c) (native_alone c h)
    type_IsPart (custom_of info) h = absurd h
    type_IsPart (list_of frozen i) h =
        between-IsPart (codes "list") (text_of i) (refl, (refl, (refl, (refl, tt)))) refl
          (IsInner-IsClosed (text_of i) (type_IsPart i h.1).0)
    type_IsPart (set_of frozen i) h =
        between-IsPart (codes "set") (text_of i) (refl, (refl, (refl, tt))) refl
          (IsInner-IsClosed (text_of i) (type_IsPart i h.1).0)
    type_IsPart (map_of frozen no_infos) h = absurd h
    type_IsPart (map_of frozen (cons i no_infos)) h = absurd h
    type_IsPart (map_of frozen (cons i (cons j no_infos))) h =
        between-IsPart (codes "map") _ (refl, (refl, (refl, tt))) refl
          (joined_IsInner (text_of i) _ (type_IsPart i h.1)
            (after_IsInner (cons j no_infos) (h.2, tt)))
    type_IsPart (map_of frozen (cons i (cons j (cons k is)))) h = absurd h
    type_IsPart (tuple_of frozen no_infos) h = absurd h
    type_IsPart (tuple_of frozen (cons i is)) h =
        between-IsPart (codes "tuple") _ (refl, (refl, (refl, (refl, (refl, tt))))) refl
          (joined_IsInner (text_of i) _ (type_IsPart i h.1) (after_IsInner is h.2))
    type_IsPart (udt_of frozen u) h = alone_IsPart (udt_name u) h.1.0
    type_IsPart (vector_of i n) h = absurd h

    pub after_IsInner : (is : Infos U) → ArePlain is → IsInner (after_comma udt_name show is)
    after_IsInner no_infos h = IsInner-nil
    after_IsInner (cons i is) h =
        IsInner-append (b',' ∷ 32 ∷ []) _ IsInner-separator
          (joined_IsInner (text_of i) _ (type_IsPart i h.0) (after_IsInner is h.1))

  -- The parameters behind the first.
  abbrev pub spaced : Infos U → List Text
  spaced no_infos = []
  spaced (cons i is) = (32 ∷ text_of i) ∷ spaced is

  pub split_after :
      (is : Infos U) (p current : Text)
      → ArePlain is
      → IsClosed p
      → rest_of (p ++ after_comma udt_name show is) (pos 0) current ≡ (current ++ p) ∷ spaced is
  unfolding type_name
  split_after no_infos p current h closed =
      ap (λ x. rest_of x (pos 0) current) (append-nil p) ∙ split-last p current closed
  split_after (cons i is) p current h closed =
      split-comma p (32 ∷ (text_of i ++ after_comma udt_name show is)) current closed
      ∙ ap (λ x. (current ++ p) ∷ x)
          (split_after is (32 ∷ text_of i) [] h.1
            (IsClosed-space (text_of i) (type_IsPart i h.0).0))

  -- The conditions that a name that is not quoted or frozen goes through.
  pub parse_step :
      (fuel : ℕ) (name : Text) (k : Kind)
      → stands_at name 0 (codes "'") ≡ false
      → stands_at name 0 (codes "frozen") ≡ false
      → kind_at name 0 ≡ k
      → parse (suc fuel) resolve name
        ≡ parse_kind parse_int (parse fuel) resolve k name (plain_cursor (length name))
  unfolding parse_type_name unfreeze
  parse_step fuel name k quoted frozen kind =
      let cursor : unfreeze name 0 (length name) ≡ plain_cursor (length name) =
        ap
          (λ b.
            if b
            then (record { start = 7; length = length name - 8; frozen = true })
            else plain_cursor (length name))
          frozen in
      ap
        (λ b.
          if b
          then parsed (custom_of (substr name 1 (length name - 2)))
          else parse_kind parse_int (parse fuel) resolve
              (kind_at name (unfreeze name 0 (length name)).start) name
              (unfreeze name 0 (length name)))
        quoted
      ∙ ap (λ c. parse_kind parse_int (parse fuel) resolve (kind_at name c.start) name c) cursor
      ∙ ap (λ k'. parse_kind parse_int (parse fuel) resolve k' name (plain_cursor (length name)))
          kind

  pub bare_plain :
      (name : Text) (n : ℕ)
      → stands_at name 0 (codes "\"") ≡ false
      → bare_name name (plain_cursor n) ≡ name
  unfolding bare_name
  bare_plain name n h = ap (λ b. if b then unescape (substr name 1 (n - 2)) else name) h

  pub parse_alone :
      (fuel : ℕ) (name : Text)
      → stands_alone name ≡ true
      → parse (suc fuel) resolve name ≡ named parse_int resolve false name
  parse_alone fuel name h =
      let (quoted, frozen, kind, double_quoted, some_letters, plain) = alone_lem name h in
      parse_step fuel name another quoted frozen kind
      ∙ ap (named parse_int resolve false) (bare_plain name (length name) double_quoted)

  pub parse_native :
      (fuel : ℕ) (c : Code) → IsNative c → parse (suc fuel) resolve (name_of c) ≡ parsed (single c)
  unfolding named
  parse_native fuel c h =
      parse_alone fuel (name_of c) (native_alone c h)
      ∙ ap (coded parse_int resolve false (name_of c)) (code_of-name_of c)

  pub parse_user :
      (fuel : ℕ) (u : U)
      → IsUser u
      → parse (suc fuel) resolve (udt_name u) ≡ parsed (udt_of false u)
  unfolding named
  parse_user fuel u (alone, no_code, no_duration, not_empty, resolved) =
      let name = udt_name u in
      parse_alone fuel name alone
      ∙ ap (coded parse_int resolve false name) no_code
      ∙ ap
          (λ b.
            if b
            then parsed (custom_of (codes "org.apache.cassandra.db.marshal.DurationType"))
            else if same_text name (codes "empty")
            then parsed (custom_of (codes "empty"))
            else user_type parse_int false (resolve name))
          no_duration
      ∙ ap
          (λ b.
            if b
            then parsed (custom_of (codes "empty"))
            else user_type parse_int false (resolve name))
          not_empty
      ∙ ap (user_type parse_int false) resolved

  -- The parameters of a composed name are those of what it has between its brackets.
  pub params_between :
      (word p : Text) (letters : ℕ)
      → length word ≡ letters
      → drop (letters + 1) (between word p) ≡ p ++ b'>' ∷ []
      → params_at (between word p) (plain_cursor (length (between word p))) letters
        ≡ rest_of p (pos 0) []
  params_between word p letters size at =
      let name = between word p in
      let end : length (p ++ b'>' ∷ []) ≡ length p + 1 = length-append p (b'>' ∷ []) in
      let whole : length name ≡ (letters + 1) + (length p + 1) =
        omega (arith, length-append word (b'<' ∷ (p ++ b'>' ∷ []))) in
      let n : length name - (letters + 2) ≡ length name - (letters + 1 + 1) = omega arith in
      let start : 0 + (letters + 1) ≡ letters + 1 = omega arith in
      ap (λ k. parse_params name k (length name - (letters + 2)) b'<' b'>') start
      ∙ ap (λ l. parse_params name (letters + 1) l b'<' b'>') n
      ∙ params_lem name p (letters + 1) at whole

  pub inner_shorter :
      (word p : Text) (fuel : ℕ) → length (between word p) < suc fuel → length p < fuel
  inner_shorter word p fuel h =
      omega (arith, length-append word (b'<' ∷ (p ++ b'>' ∷ [])), length-append p (b'>' ∷ []), h)

  pub shorter :
      (p q : Text) (fuel : ℕ) → length (p ++ q) < fuel → (length p < fuel) × (length q < fuel)
  shorter p q fuel h = let whole = length-append p q in (omega arith, omega arith)

  -- The first of several parameters, and the others.
  pub first_and_after :
      (fuel : ℕ) (i : Info U) (is : Infos U)
      → IsPlain i
      → parse fuel resolve (text_of i) ≡ parsed i
      → child_types parse_int (parse fuel) resolve (spaced is) ≡ parsed is
      → child_types parse_int (parse fuel) resolve (text_of i ∷ spaced is) ≡ parsed (cons i is)
  unfolding child_types then_parsed
  first_and_after fuel i is h one more =
      let (trimmed, spaced_one) = trim_lem (text_of i) (type_IsPart i h).1 in
      rw (trimmed, one, more) refl

  pub next_and_after :
      (fuel : ℕ) (i : Info U) (is : Infos U)
      → IsPlain i
      → parse fuel resolve (text_of i) ≡ parsed i
      → child_types parse_int (parse fuel) resolve (spaced is) ≡ parsed is
      → child_types parse_int (parse fuel) resolve (spaced (cons i is)) ≡ parsed (cons i is)
  unfolding child_types then_parsed
  next_and_after fuel i is h one more =
      let (trimmed, spaced_one) = trim_lem (text_of i) (type_IsPart i h).1 in
      rw (spaced_one, one, more) refl
