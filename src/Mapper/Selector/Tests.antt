-- ===== src/Mapper/Selector/Tests.antt =====
-- lib/mapping/object-selector.js: tests of the selection of tables.
use mathlib.Core.Path.{subst}
use integration_hell.Common.{
  ℕ, ◌≡◌, ◌≢◌, refl, sym, ap, ◌∙◌, inl, inr, Bool, true, false, Bool-cases, Option, none, some,
  List, [], ◌∷◌, ◌==◌, ==_iff, if◌then◌else◌, All,
}
use integration_hell.Mapper.Selector.{
  TableRef, Table, not_retrieved, selected, retrieve, get_for_select, get_for_insert,
  get_for_update, get_for_delete,
}
use integration_hell.Mapper.Selector.Select.{IsTable, Serves, Chosen, get_for_select-Chosen}
use integration_hell.Mapper.Selector.Change.{
  Gives, Inserts, HasKeys, get_for_insert-Gives, get_for_delete-Gives,
}
use integration_hell.Mapper.Selector.Update.{Updates, get_for_update-Updates}

abbrev same : ℕ → ℕ → Bool
same a b = a == b

-- Two tables with the partition key 10; the first has the clustering key 11 and the static column 13.
abbrev users : Table ℕ
users = record {
  name = 1;
  partition_keys = 10 ∷ [];
  clustering_keys = 11 ∷ [];
  columns_by_name = 10 ∷ 11 ∷ 12 ∷ 13 ∷ [];
  static_columns = false ∷ false ∷ false ∷ true ∷ [];
}

abbrev plain : Table ℕ
plain = record {
  name = 2;
  partition_keys = 10 ∷ [];
  clustering_keys = [];
  columns_by_name = 10 ∷ 12 ∷ [];
  static_columns = false ∷ false ∷ [];
}

abbrev get_table : ℕ → Option (Table ℕ)
get_table n = if n == 1 then some users else if n == 2 then some plain else none

abbrev refs : List (TableRef ℕ)
refs = (record { name = 1; is_view = false }) ∷ (record { name = 2; is_view = false }) ∷ []

some_inj : {a b : Table ℕ} → ◌≡◌ {A = Option (Table ℕ)} (some a) (some b) → a ≡ b
some_inj h = cc h

tables : (n : ℕ) (t : Table ℕ) → get_table n ≡ some t → IsTable same ==_iff t
tables n t h = elim (Bool-cases (n == 1)) [
  | inl one ↦
      subst (IsTable same ==_iff)
        (some_inj
          (sym (ap (λ b. if b then some users else if n == 2 then some plain else none) one) ∙ h))
        ((refl, tt), (refl, tt))
  | inr other ↦
      let rest =
        sym (ap (λ b. if b then some users else if n == 2 then some plain else none) other) ∙ h in
      elim (Bool-cases (n == 2)) [
        | inl two ↦
            subst (IsTable same ==_iff)
              (some_inj (sym (ap (λ b. if b then some plain else none) two) ∙ rest))
              ((refl, tt), tt)
        | inr neither ↦ absurd (cc (sym (ap (λ b. if b then some plain else none) neither) ∙ rest))
      ]
]

or_same : (b : Bool) (o : Option (Table ℕ)) → o ≡ (if b then o else o)
or_same true o = refl
or_same false o = refl

retrieved :
    (r : TableRef ℕ) (t : Table ℕ)
    → retrieve same get_table get_table r ≡ some t
    → IsTable same ==_iff t
retrieved r t h = tables r.name t (or_same r.is_view (get_table r.name) ∙ h)

get_for_select-Chosen_example :
    Chosen same ==_iff get_table get_table
      (Serves same ==_iff true (10 ∷ 11 ∷ []) (12 ∷ []) (11 ∷ []))
      refs
      (get_for_select same get_table get_table refs true (10 ∷ 11 ∷ []) (12 ∷ []) (11 ∷ []))
get_for_select-Chosen_example =
    get_for_select-Chosen same ==_iff get_table get_table refs true (10 ∷ 11 ∷ []) (12 ∷ [])
      (11 ∷ []) retrieved (refl, (refl, tt))

chosen :
    get_for_select same get_table get_table refs true (10 ∷ 11 ∷ []) (12 ∷ []) (11 ∷ [])
    ≡ selected 1
unfolding get_for_select
chosen = refl

get_for_insert-Gives_example :
    Gives same ==_iff get_table
      (Inserts same ==_iff (10 ∷ 13 ∷ []))
      refs
      (get_for_insert same get_table get_table refs (10 ∷ 13 ∷ []))
get_for_insert-Gives_example =
    get_for_insert-Gives same ==_iff (10 ∷ 13 ∷ []) (refl, (refl, tt)) get_table get_table refs
      tables

get_for_delete-Gives_example :
    Gives same ==_iff get_table
      (HasKeys same ==_iff (10 ∷ 11 ∷ []) (12 ∷ []))
      refs
      (get_for_delete same get_table get_table refs (10 ∷ 11 ∷ []) (12 ∷ []))
get_for_delete-Gives_example =
    get_for_delete-Gives same ==_iff (10 ∷ 11 ∷ []) get_table get_table refs (12 ∷ [])

updated :
    get_for_update same get_table get_table refs (10 ∷ 11 ∷ 12 ∷ []) []
    ≡ selected (users ∷ plain ∷ [])
unfolding get_for_update
updated = refl

get_for_update-Updates_example :
    (users ∷ plain ∷ [] ≢ [])
    × All
        (Updates same ==_iff (10 ∷ 11 ∷ 12 ∷ []) (refl, (refl, (refl, tt))) [])
        (users ∷ plain ∷ [])
get_for_update-Updates_example =
    get_for_update-Updates same ==_iff (10 ∷ 11 ∷ 12 ∷ []) (refl, (refl, (refl, tt))) get_table
      get_table [] tables refs (users ∷ plain ∷ []) updated

-- There is nothing to set in the first table, which has a static column.
nothing_to_set :
    get_for_update same get_table get_table refs (10 ∷ 11 ∷ []) [] ≡ selected (users ∷ [])
unfolding get_for_update
nothing_to_set = refl

-- The view 5 stands before the missing table 6: the error names the view.
wrong_name :
    get_for_insert same get_table get_table
      ((record { name = 5; is_view = true }) ∷ (record { name = 6; is_view = false }) ∷ [])
      (10 ∷ [])
    ≡ not_retrieved (some 5)
unfolding get_for_insert
wrong_name = refl
