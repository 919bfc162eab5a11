-- ===== src/Mapper/Cache/Tests.antt =====
-- lib/mapping/cache.js: tests of the keys.
use text.Mathlib.Text.{◌==◌}
use text.Mathlib.TextEquality.{eq_iff}
use integration_hell.Common.{
  ℕ, ◌≡◌, ◌↔◌, refl, sym, ap, arith, Bool, true, false, none, some, List, [], ◌∷◌, ◌++◌,
}
use integration_hell.Mapper.Tree.{empty_tree, get_or_create}
use integration_hell.Mapper.Cache.{
  Item, flag, word, gt, lte, plus, plain, compared, both, assigned, Entry, DocInfo, no_info,
  get_select_key, get_update_key,
}
use integration_hell.Mapper.Cache.Unique.{listed, get_select_key_unique}
use integration_hell.Mapper.Cache.Shared.{only_when, get_or_create-get_update_key}

abbrev asked : List Entry
asked =
    (record { name = "id"; value = plain })
    ∷ (record { name = "age"; value = both (compared gt) (compared lte) })
    ∷ []

abbrev info : DocInfo
info = record {
  fields = some ("id" ∷ "name" ∷ []);
  limit = true;
  order_by = some (("age", "desc") ∷ []);
  ttl = false;
  if_exists = false;
  if_not_exists = false;
  delete_only_columns = false;
  when = none;
}

key :
    get_select_key asked info
    ≡ word "id"
      ∷ word "age"
      ∷ word "AND"
      ∷ word ">"
      ∷ word "|/|"
      ∷ word "<="
      ∷ word "|f|"
      ∷ word "id"
      ∷ word "name"
      ∷ word "|l|"
      ∷ word "|o|"
      ∷ word "age"
      ∷ word "desc"
      ∷ []
unfolding get_select_key
key = refl

get_select_key_unique_example :
    (asked ≡ asked)
    × (listed info.fields ≡ listed info.fields)
    × (true ≡ true)
    × (info.order_by ≡ info.order_by)
get_select_key_unique_example =
    get_select_key_unique asked asked info info (((refl, refl), tt), (((refl, refl), (tt, tt)), tt))
      (((refl, refl), tt), (((refl, refl), (tt, tt)), tt)) ((refl, refl), ((refl, refl), tt))
      ((refl, refl), ((refl, refl), tt)) refl

abbrev row : List Entry
row =
    (record { name = "id"; value = plain })
    ∷ (record { name = "visits"; value = assigned plus false })
    ∷ []

abbrev same_flag : Bool → Bool → Bool
same_flag true b = b
same_flag false true = false
same_flag false false = true

not_same : true ≡ false → ⊥
not_same h = ground arith

abbrev same_item : Item → Item → Bool
same_item (word x) (word y) = x == y
same_item (word x) (flag b) = false
same_item (flag a) (word y) = false
same_item (flag a) (flag b) = same_flag a b

same_item_iff : (a b : Item) → (same_item a b ≡ true) ↔ (a ≡ b)
same_item_iff (word x) (word y) = ((λ h. ap word ((eq_iff x y).0 h)), λ e. (eq_iff x y).1 (cc e))
same_item_iff (word x) (flag b) = ((λ h. absurd (ground arith)), λ e. absurd (cc e))
same_item_iff (flag a) (word y) = ((λ h. absurd (ground arith)), λ e. absurd (cc e))
same_item_iff (flag true) (flag true) = ((λ h. refl), λ e. refl)
same_item_iff (flag true) (flag false) =
    ((λ h. absurd (ground arith)), λ e. absurd (not_same (cc e)))
same_item_iff (flag false) (flag true) =
    ((λ h. absurd (ground arith)), λ e. absurd (not_same (sym (cc e))))
same_item_iff (flag false) (flag false) = ((λ h. refl), λ e. refl)

abbrev first_prepared : ℕ
first_prepared = 1

abbrev second_prepared : ℕ
second_prepared = 2

get_or_create-get_update_key_example :
    (get_or_create same_item
      (get_or_create same_item empty_tree (get_update_key row (only_when asked)) first_prepared).0
      (get_update_key (row ++ asked) no_info)
      second_prepared).1
    ≡ some first_prepared
get_or_create-get_update_key_example =
    get_or_create-get_update_key same_item same_item_iff (record { name = "id"; value = plain })
      ((record { name = "visits"; value = assigned plus false }) ∷ []) asked first_prepared
      second_prepared (tt, ((tt, tt), tt))
