-- ===== src/Mapper/Cache/Operators.antt =====
-- lib/mapping/cache.js: operators in a key, read back.
use Prim.Native.String.{String}
use text.Mathlib.Text.{◌==◌}
use mathlib.Core.List.{append_assoc}
use integration_hell.Common.{
  ◌≡◌, refl, sym, ap, ◌∙◌, arith, Bool, true, false, ◌||◌, Option, none, some, List, [], ◌∷◌, ◌++◌,
  if◌then◌else◌,
}
use integration_hell.Mapper.Cache.{
  Item, word, flag, Operator, in_, gt, gte, lt, lte, not_eq, Value, plain, compared, both, assigned,
  key_of, yield_operators,
}

abbrev pub operator_of : String → Option Operator
operator_of x =
    if x == "IN"
    then some in_
    else if x == ">"
    then some gt
    else if x == ">="
    then some gte
    else if x == "<"
    then some lt
    else if x == "<="
    then some lte
    else if x == "!="
    then some not_eq
    else none

pub operator_of-key_of : (o : Operator) → operator_of (key_of o) ≡ some o
operator_of-key_of in_ = refl
operator_of-key_of gt = refl
operator_of-key_of gte = refl
operator_of-key_of lt = refl
operator_of-key_of lte = refl
operator_of-key_of not_eq = refl

abbrev pub is_operator : String → Bool
is_operator x =
    x == "IN" || x == ">" || x == ">=" || x == "<" || x == "<=" || x == "!=" || x == "AND"

abbrev pub is_mark : String → Bool
is_mark x =
    x == "|f|" || x == "|l|" || x == "|o|" || x == "|t|" || x == "|e|" || x == "|dc|" || x == "|/|"

-- A name of a property is none of the words that the keys use themselves.
abbrev pub IsName : String → Type 0
IsName x = (is_operator x ≡ false) × (is_mark x ≡ false)

-- A value without an assignment.
abbrev pub IsCondition : Value → Type 0
IsCondition plain = Unit
IsCondition (compared o) = Unit
IsCondition (both a b) = IsCondition a × IsCondition b
IsCondition (assigned sign inverted) = ⊥

abbrev pub starts_operator : List Item → Bool
starts_operator [] = false
starts_operator (word x ∷ items) = is_operator x
starts_operator (flag b ∷ items) = false

pub key_of-is_operator : (o : Operator) → is_operator (key_of o) ≡ true
key_of-is_operator in_ = refl
key_of-is_operator gt = refl
key_of-is_operator gte = refl
key_of-is_operator lt = refl
key_of-is_operator lte = refl
key_of-is_operator not_eq = refl

pub some_inj : {a b : Operator} → ◌≡◌ {A = Option Operator} (some a) (some b) → a ≡ b
some_inj h = cc h

pub operators_unique :
    (a b : Value) (r s : List Item)
    → IsCondition a
    → IsCondition b
    → starts_operator r ≡ false
    → starts_operator s ≡ false
    → yield_operators a ++ r ≡ yield_operators b ++ s
    → (a ≡ b) × (r ≡ s)
operators_unique plain plain r s ha hb hr hs e = (refl, e)
operators_unique plain (compared o) r s ha hb hr hs e =
    let at = sym hr ∙ ap starts_operator e ∙ key_of-is_operator o in absurd (ground arith)
operators_unique plain (both c d) r s ha hb hr hs e =
    let at = sym hr ∙ ap starts_operator e in absurd (ground arith)
operators_unique (compared o) plain r s ha hb hr hs e =
    let at = sym hs ∙ ap starts_operator (sym e) ∙ key_of-is_operator o in absurd (ground arith)
operators_unique (compared o) (compared p) r s ha hb hr hs e =
    let keys : key_of o ≡ key_of p = cc e in
    let same = some_inj (sym (operator_of-key_of o) ∙ ap operator_of keys ∙ operator_of-key_of p) in
    let rest : r ≡ s = cc e in (ap compared same, rest)
operators_unique (compared o) (both c d) r s ha hb hr hs e =
    let keys : key_of o ≡ "AND" = cc e in
    absurd (cc (sym (operator_of-key_of o) ∙ ap operator_of keys))
operators_unique (both a b) plain r s ha hb hr hs e =
    let at = sym hs ∙ ap starts_operator (sym e) in absurd (ground arith)
operators_unique (both a b) (compared o) r s ha hb hr hs e =
    let keys : key_of o ≡ "AND" = cc e in
    absurd (cc (sym (operator_of-key_of o) ∙ ap operator_of keys))
operators_unique (both a b) (both c d) r s ha hb hr hs e =
    let first : (yield_operators a ++ word "|/|" ∷ yield_operators b) ++ r
        ≡ (yield_operators c ++ word "|/|" ∷ yield_operators d) ++ s =
      cc e in
    let joined =
      sym (append_assoc (yield_operators a) (word "|/|" ∷ yield_operators b) r)
      ∙ first
      ∙ append_assoc (yield_operators c) (word "|/|" ∷ yield_operators d) s in
    let (left, rest) =
      operators_unique a c (word "|/|" ∷ (yield_operators b ++ r))
        (word "|/|" ∷ (yield_operators d ++ s)) ha.0 hb.0 refl refl joined in
    let tails : yield_operators b ++ r ≡ yield_operators d ++ s = cc rest in
    let (right, last) = operators_unique b d r s ha.1 hb.1 hr hs tails in (cc (left, right), last)
operators_unique plain (assigned g i) r s ha hb hr hs e = elim hb [ ]
operators_unique (compared o) (assigned g i) r s ha hb hr hs e = elim hb [ ]
operators_unique (both a b) (assigned g i) r s ha hb hr hs e = elim hb [ ]
operators_unique (assigned g i) b r s ha hb hr hs e = elim ha [ ]
