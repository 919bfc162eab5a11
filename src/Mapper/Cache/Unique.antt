-- ===== src/Mapper/Cache/Unique.antt =====
-- lib/mapping/cache.js: keys of different shapes differ.
use Prim.Native.String.{String}
use text.Mathlib.Text.{◌==◌}
use mathlib.Core.Path.{subst}
use mathlib.Core.List.{append_assoc}
use integration_hell.Common.{
  ◌≡◌, refl, sym, ap, ◌∙◌, arith, Bool, true, false, Option, none, some, List, [], ◌∷◌, ◌++◌, map,
  All,
}
use integration_hell.Mapper.Cache.{
  Item, word, flag, Entry, DocInfo, yield_operators, yield_key_and_operators, yield_fields, mark,
  yield_pairs, yield_order, get_select_doc_info, get_select_key,
}
use integration_hell.Mapper.Cache.Operators.{
  is_operator, is_mark, IsName, IsCondition, starts_operator, operators_unique,
}

-- What follows names: nothing, or a mark.
abbrev IsEnd : List Item → Type 0
IsEnd [] = Unit
IsEnd (word x ∷ items) = (is_mark x ≡ true) × (is_operator x ≡ false)
IsEnd (flag b ∷ items) = ⊥

abbrev pub IsAsked : Entry → Type 0
IsAsked e = IsName e.name × IsCondition e.value

same_entry : (f g : Entry) → f.name ≡ g.name → f.value ≡ g.value → f ≡ g
same_entry f g h k = cc (h, k)

same_pair : (x y : String × String) → x.0 ≡ y.0 → x.1 ≡ y.1 → x ≡ y
same_pair x y h k = cc (h, k)

not-IsEnd :
    (x : String) → IsName x → (items rest : List Item) → rest ≡ word x ∷ items → ¬ IsEnd rest
not-IsEnd x (a, b) items rest e h = let at : is_mark x ≡ true = (subst IsEnd e h).0 in ground arith

end_operator : (items : List Item) → IsEnd items → starts_operator items ≡ false
end_operator [] h = refl
end_operator (word x ∷ items) h = h.1
end_operator (flag b ∷ items) h = refl

entries_operator :
    (entries : List Entry) (r : List Item)
    → All IsAsked entries
    → IsEnd r
    → starts_operator (yield_key_and_operators entries ++ r) ≡ false
entries_operator [] r ha hr = end_operator r hr
entries_operator (e ∷ entries) r ha hr = ha.0.0.0

entries_unique :
    (entries others : List Entry) (r s : List Item)
    → All IsAsked entries
    → All IsAsked others
    → IsEnd r
    → IsEnd s
    → yield_key_and_operators entries ++ r ≡ yield_key_and_operators others ++ s
    → (entries ≡ others) × (r ≡ s)
entries_unique [] [] r s ha hb hr hs e = (refl, e)
entries_unique [] (f ∷ others) r s ha hb hr hs e = absurd (not-IsEnd f.name hb.0.0 _ r e hr)
entries_unique (f ∷ entries) [] r s ha hb hr hs e = absurd (not-IsEnd f.name ha.0.0 _ s (sym e) hs)
entries_unique (f ∷ entries) (g ∷ others) r s ha hb hr hs e =
    let names : f.name ≡ g.name = cc e in
    let tails : (yield_operators f.value ++ yield_key_and_operators entries) ++ r
        ≡ (yield_operators g.value ++ yield_key_and_operators others) ++ s =
      cc e in
    let joined =
      sym (append_assoc (yield_operators f.value) (yield_key_and_operators entries) r)
      ∙ tails
      ∙ append_assoc (yield_operators g.value) (yield_key_and_operators others) s in
    let (values, rest) =
      operators_unique f.value g.value _ _ ha.0.1 hb.0.1 (entries_operator entries r ha.1 hr)
        (entries_operator others s hb.1 hs) joined in
    let (more, last) = entries_unique entries others r s ha.1 hb.1 hr hs rest in
    (cc (same_entry f g names values, more), last)

names_unique :
    (names others : List String) (r s : List Item)
    → All IsName names
    → All IsName others
    → IsEnd r
    → IsEnd s
    → map word names ++ r ≡ map word others ++ s
    → (names ≡ others) × (r ≡ s)
names_unique [] [] r s ha hb hr hs e = (refl, e)
names_unique [] (f ∷ others) r s ha hb hr hs e = absurd (not-IsEnd f hb.0 _ r e hr)
names_unique (f ∷ names) [] r s ha hb hr hs e = absurd (not-IsEnd f ha.0 _ s (sym e) hs)
names_unique (f ∷ names) (g ∷ others) r s ha hb hr hs e =
    let first : f ≡ g = cc e in
    let tails : map word names ++ r ≡ map word others ++ s = cc e in
    let (more, last) = names_unique names others r s ha.1 hb.1 hr hs tails in
    (cc (first, more), last)

pairs_unique : (p q : List (String × String)) → yield_pairs p ≡ yield_pairs q → p ≡ q
pairs_unique [] [] e = refl
pairs_unique [] (y ∷ q) e = absurd (cc e)
pairs_unique (x ∷ p) [] e = absurd (cc e)
pairs_unique (x ∷ p) (y ∷ q) e =
    let names : x.0 ≡ y.0 = cc e in
    let orders : x.1 ≡ y.1 = cc e in
    let tails : yield_pairs p ≡ yield_pairs q = cc e in
    let rest = pairs_unique p q tails in cc (same_pair x y names orders, rest)

order-IsEnd : (order : Option (List (String × String))) → IsEnd (yield_order order)
order-IsEnd none = tt
order-IsEnd (some pairs) = (refl, refl)

order_unique : (o p : Option (List (String × String))) → yield_order o ≡ yield_order p → o ≡ p
order_unique none none e = refl
order_unique none (some q) e = absurd (cc e)
order_unique (some q) none e = absurd (cc e)
order_unique (some p) (some q) e =
    let tails : yield_pairs p ≡ yield_pairs q = cc e in ap (λ x. some x) (pairs_unique p q tails)

-- Whether a word is the first item.
abbrev starts_with : String → List Item → Bool
starts_with y [] = false
starts_with y (word x ∷ items) = x == y
starts_with y (flag b ∷ items) = false

mark-IsEnd :
    (there : Bool) (x : String) (r : List Item)
    → IsEnd (word x ∷ [])
    → IsEnd r
    → IsEnd (mark there x ++ r)
mark-IsEnd true x r h hr = h
mark-IsEnd false x r h hr = hr

mark_unique :
    (there other : Bool) (x : String) (r s : List Item)
    → (x == x) ≡ true
    → starts_with x r ≡ false
    → starts_with x s ≡ false
    → mark there x ++ r ≡ mark other x ++ s
    → (there ≡ other) × (r ≡ s)
mark_unique true true x r s hx hr hs e = (refl, cc e)
mark_unique false false x r s hx hr hs e = (refl, e)
mark_unique true false x r s hx hr hs e =
    let at = sym hx ∙ ap (starts_with x) e ∙ hs in absurd (ground arith)
mark_unique false true x r s hx hr hs e =
    let at = sym hr ∙ ap (starts_with x) e ∙ hx in absurd (ground arith)

-- The fields, where none and an empty list are the same.
abbrev pub listed : Option (List String) → List String
listed none = []
listed (some fields) = fields

fields_unique :
    (f g : Option (List String)) (r s : List Item)
    → All IsName (listed f)
    → All IsName (listed g)
    → IsEnd r
    → IsEnd s
    → starts_with "|f|" r ≡ false
    → starts_with "|f|" s ≡ false
    → yield_fields f ++ r ≡ yield_fields g ++ s
    → (listed f ≡ listed g) × (r ≡ s)
fields_unique none none r s ha hb hr hs nr ns e = (refl, e)
fields_unique none (some []) r s ha hb hr hs nr ns e = (refl, e)
fields_unique (some []) none r s ha hb hr hs nr ns e = (refl, e)
fields_unique (some []) (some []) r s ha hb hr hs nr ns e = (refl, e)
fields_unique none (some (y ∷ ys)) r s ha hb hr hs nr ns e =
    let at = sym nr ∙ ap (starts_with "|f|") e in absurd (ground arith)
fields_unique (some []) (some (y ∷ ys)) r s ha hb hr hs nr ns e =
    let at = sym nr ∙ ap (starts_with "|f|") e in absurd (ground arith)
fields_unique (some (x ∷ xs)) none r s ha hb hr hs nr ns e =
    let at = sym ns ∙ ap (starts_with "|f|") (sym e) in absurd (ground arith)
fields_unique (some (x ∷ xs)) (some []) r s ha hb hr hs nr ns e =
    let at = sym ns ∙ ap (starts_with "|f|") (sym e) in absurd (ground arith)
fields_unique (some (x ∷ xs)) (some (y ∷ ys)) r s ha hb hr hs nr ns e =
    let tails : map word (x ∷ xs) ++ r ≡ map word (y ∷ ys) ++ s = cc e in
    names_unique (x ∷ xs) (y ∷ ys) r s ha hb hr hs tails

fields-IsEnd : (f : Option (List String)) (r : List Item) → IsEnd r → IsEnd (yield_fields f ++ r)
fields-IsEnd none r h = h
fields-IsEnd (some []) r h = h
fields-IsEnd (some (x ∷ xs)) r h = (refl, refl)

no_mark :
    (y : String) (order : Option (List (String × String)))
    → ("|o|" == y) ≡ false
    → starts_with y (yield_order order) ≡ false
no_mark y none h = refl
no_mark y (some pairs) h = h

no_fields :
    (there : Bool) (order : Option (List (String × String)))
    → starts_with "|f|" (mark there "|l|" ++ yield_order order) ≡ false
no_fields true order = refl
no_fields false none = refl
no_fields false (some pairs) = refl

-- A key of a select statement tells the document's keys with the operators of their values, the fields,
-- whether there is a limit, and the order, where no name is one of the words that the keys use
-- themselves and no value is an assignment.
pub get_select_key_unique :
    (entries others : List Entry) (i j : DocInfo)
    → All IsAsked entries
    → All IsAsked others
    → All IsName (listed i.fields)
    → All IsName (listed j.fields)
    → get_select_key entries i ≡ get_select_key others j
    → (entries ≡ others)
      × (listed i.fields ≡ listed j.fields)
      × (i.limit ≡ j.limit)
      × (i.order_by ≡ j.order_by)
unfolding get_select_key
get_select_key_unique entries others i j ha hb hi hj e =
    let end_i =
      mark-IsEnd i.limit "|l|" (yield_order i.order_by) (refl, refl) (order-IsEnd i.order_by) in
    let end_j =
      mark-IsEnd j.limit "|l|" (yield_order j.order_by) (refl, refl) (order-IsEnd j.order_by) in
    let (documents, infos) =
      entries_unique entries others (get_select_doc_info i) (get_select_doc_info j) ha hb
        (fields-IsEnd i.fields _ end_i) (fields-IsEnd j.fields _ end_j) e in
    let (fields, rest) =
      fields_unique i.fields j.fields _ _ hi hj end_i end_j (no_fields i.limit i.order_by)
        (no_fields j.limit j.order_by) infos in
    let (limits, orders) =
      mark_unique i.limit j.limit "|l|" (yield_order i.order_by) (yield_order j.order_by) refl
        (no_mark "|l|" i.order_by refl) (no_mark "|l|" j.order_by refl) rest in
    (documents, fields, limits, order_unique i.order_by j.order_by orders)
