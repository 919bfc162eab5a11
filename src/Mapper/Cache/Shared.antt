-- ===== src/Mapper/Cache/Shared.antt =====
-- lib/mapping/cache.js: keys that different updates share.
use mathlib.Core.List.{append-nil, append_assoc}
use integration_hell.Mapper.Tree.{empty_tree, get_or_create}
use integration_hell.Mapper.Tree.Lookup.{same_items}
use integration_hell.Mapper.Tree.Store.{Call, call, after, given, get_or_create-first_given}
use integration_hell.Common.{
  ◌≡◌, ◌↔◌, refl, sym, ap, ◌∙◌, Bool, true, false, ◌&&◌, if◌then◌else◌, none, some, List, [], ◌∷◌,
  ◌++◌, All,
}
use integration_hell.Mapper.Cache.{
  Item, word, Value, plain, compared, both, assigned, Entry, DocInfo, no_info, yield_operators,
  yield_key_and_operators, yield_qs, yield_key_and_all_qs, get_update_key,
}
use integration_hell.Mapper.Cache.Operators.{IsCondition}

-- Nothing is said besides the document but conditions.
abbrev pub only_when : List Entry → DocInfo
only_when conditions = record {
  fields = none;
  limit = false;
  order_by = none;
  ttl = false;
  if_exists = false;
  if_not_exists = false;
  delete_only_columns = false;
  when = some conditions;
}

yield_qs_lem : (v : Value) → IsCondition v → yield_qs v ≡ yield_operators v
yield_qs_lem plain h = refl
yield_qs_lem (compared o) h = refl
yield_qs_lem (both a b) h = refl
yield_qs_lem (assigned g i) h = elim h [ ]

yield_all_lem :
    (entries conditions : List Entry)
    → All (λ e. IsCondition e.value) conditions
    → yield_key_and_all_qs (entries ++ conditions)
      ≡ yield_key_and_all_qs entries ++ yield_key_and_operators conditions
yield_all_lem [] [] h = refl
yield_all_lem [] (c ∷ conditions) h =
    ap (λ v. word c.name ∷ (v ++ yield_key_and_all_qs conditions)) (yield_qs_lem c.value h.0)
    ∙ ap (λ r. word c.name ∷ (yield_operators c.value ++ r)) (yield_all_lem [] conditions h.1)
yield_all_lem (e ∷ entries) conditions h =
    ap (λ r. word e.name ∷ (yield_qs e.value ++ r)) (yield_all_lem entries conditions h)
    ∙ ap (λ r. word e.name ∷ r)
        (sym (
          append_assoc (yield_qs e.value) (yield_key_and_all_qs entries)
            (yield_key_and_operators conditions)))

-- An update with conditions has the same key as an update of all these columns without conditions,
-- where no condition is an assignment.
pub get_update_key-shared :
    (entries conditions : List Entry)
    → All (λ e. IsCondition e.value) conditions
    → get_update_key entries (only_when conditions) ≡ get_update_key (entries ++ conditions) no_info
unfolding get_update_key
get_update_key-shared entries conditions h =
    sym (yield_all_lem entries conditions h)
    ∙ sym (append-nil (yield_key_and_all_qs (entries ++ conditions)))

module _ (same : Item → Item → Bool) (same_iff : (a b : Item) → (same a b ≡ true) ↔ (a ≡ b)) where
  same_items_self : (items : List Item) → same_items same items items ≡ true
  same_items_self [] = refl
  same_items_self (x ∷ items) =
      ap (λ b. b && same_items same items items) ((same_iff x x).1 refl) ∙ same_items_self items

  again :
      {V : Type 0} (c d : Call Item V)
      → c.first ∷ c.others ≡ d.first ∷ d.others
      → (call same same_iff (after same same_iff empty_tree (c ∷ [])) d).1 ≡ some c.value
  again c d e =
      get_or_create-first_given same same_iff (c ∷ []) d
      ∙ ap (λ b. some (given d.value (if b then some c.value else none)))
          (ap (λ k. same_items same (c.first ∷ c.others) k) (sym e)
            ∙ same_items_self (c.first ∷ c.others))

  -- In a new tree of prepared updates, what was prepared for an update with conditions, none of which is
  -- an assignment, is given for an update of all these columns without conditions.
  pub get_or_create-get_update_key :
      {V : Type 0} (e : Entry) (entries conditions : List Entry) (v w : V)
      → All (λ c. IsCondition c.value) conditions
      → (get_or_create same
          (get_or_create same empty_tree (get_update_key (e ∷ entries) (only_when conditions)) v).0
          (get_update_key ((e ∷ entries) ++ conditions) no_info)
          w).1
        ≡ some v
  unfolding get_update_key
  get_or_create-get_update_key e entries conditions v w h =
      again (record { first = word e.name; others = _; value = v })
        (record { first = word e.name; others = _; value = w })
        (get_update_key-shared (e ∷ entries) conditions h)
