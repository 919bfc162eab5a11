-- ===== src/Mapper/Selector/Update.antt =====
-- lib/mapping/object-selector.js: the tables that `getForUpdate` gives.
use mathlib.Core.Path.{subst}
use integration_hell.Common.{
  ℕ, suc, ◌+◌, ◌≤◌, ◌<◌, ◌≡◌, ◌≢◌, ◌↔◌, ◌⊎◌, refl, sym, ap, ◌∙◌, inl, inr, arith, Bool, true, false,
  not, ◌&&◌, ◌||◌, Bool-cases, Option, none, some, List, [], ◌∷◌, length, ltb→lt, if◌then◌else◌,
  All,
}
use integration_hell.Common.Counts.{count, keep, count-le-length}
use integration_hell.Mapper.Selector.{
  TableRef, Table, Selection, not_retrieved, no_match, selected, every, is_all, among,
  keys_are_included, has_column, is_primary, static_column_count, fits_update_clustering,
  has_columns_to_set, fits_update, filtered, filter_tables, at_least_one, get_for_update,
}
use integration_hell.Mapper.Selector.Keys.{IsDistinct, count-among, is_all-keys_are_included}
use integration_hell.Mapper.Selector.Select.{every_iff, IsAmong, IsTable}
use integration_hell.Mapper.Selector.Change.{Absent, count_zero, included-cases}

four_iff :
    (a b c d : Bool)
    → ((a && b && c && d) ≡ true) ↔ ((a ≡ true) × (b ≡ true) × (c ≡ true) × (d ≡ true))
four_iff true true true d = (λ h. (refl, refl, refl, h), λ h. h.3)
four_iff true true false d = (λ h. absurd (ground arith), λ h. h.2)
four_iff true false c d = (λ h. absurd (ground arith), λ h. h.1)
four_iff false b c d = (λ h. absurd (ground arith), λ h. h.0)

selected_inj : {N A : Type 0} {a b : A} → ◌≡◌ {A = Selection N A} (selected a) (selected b) → a ≡ b
selected_inj h = cc h

module _ {N : Type 0} (same : N → N → Bool)
    (same_iff : (a b : N) → (same a b ≡ true) ↔ (a ≡ b)) where
  -- A name of a list that passes one test and not another.
  abbrev pub Passes : List N → (N → Bool) → (N → Bool) → Type 0
  Passes xs p q = (x : N) × (among same xs x ≡ true) × (p x ≡ true) × (q x ≡ false)

  among_later : (x y : N) (ys : List N) → among same ys x ≡ true → among same (y ∷ ys) x ≡ true
  among_later x y ys h = ground arith

  among_first : (x : N) (ys : List N) → among same (x ∷ ys) x ≡ true
  among_first x ys = let at = (same_iff x x).1 refl in ground arith

  passes : (xs : List N) (p q : N → Bool) → count q xs < count p xs → Passes xs p q
  passes [] p q h = absurd (omega arith)
  passes (x ∷ xs) p q h = elim (Bool-cases (p x)) [
    | inl good ↦ elim (Bool-cases (q x)) [
      | inr apart ↦ (x, among_first x xs, good, apart)
      | inl both ↦
          let (y, found, good', bad') = passes xs p q (ground arith) in
          (y, among_later y x xs found, good', bad')
    ]
    | inr bad ↦
        let (y, found, good', bad') = passes xs p q (ground arith) in
        (y, among_later y x xs found, good', bad')
  ]

  count_either :
      (p q : N → Bool) (xs : List N) → count (λ x. p x || q x) xs ≤ count p xs + count q xs
  count_either p q [] = omega arith
  count_either p q (x ∷ xs) = ground (arith, count_either p q xs)

  module _ (properties : List N) (dp : IsDistinct same same_iff properties) where
    -- The properties have the partition keys and either the clustering keys or, if there is a static
    -- column, none of them. One of the properties is a column to set, which is not one of the keys; this
    -- is only left open where there are static columns and a clustering key is given.
    abbrev pub Updates : List N → Table N → Type 0
    Updates conditions t =
        All (IsAmong same same_iff properties) t.partition_keys
        × All (IsAmong same same_iff t.columns_by_name) conditions
        × (All (IsAmong same same_iff properties) t.clustering_keys
            ⊎ (Absent same same_iff properties dp t.clustering_keys × (0 < static_column_count t)))
        × ((static_column_count t ≡ 0) ⊎ Absent same same_iff properties dp t.clustering_keys
            → Passes properties (has_column same t) (is_primary same t))

    primary_count :
        (t : Table N)
        → IsTable same same_iff t
        → count (is_primary same t) properties
          ≤ length t.partition_keys + count (among same properties) t.clustering_keys
    primary_count t (dk, dc) =
        let either =
          count_either (among same t.partition_keys) (among same t.clustering_keys) properties in
        let first = count-among same same_iff t.partition_keys properties dk dp in
        let second = count-among same same_iff t.clustering_keys properties dc dp in
        let bound = count-le-length (among same properties) t.partition_keys in omega arith

    clustering_lem :
        (t : Table N)
        → IsTable same same_iff t
        → fits_update_clustering same t (keys_are_included same t.clustering_keys properties) ≡ true
        → All (IsAmong same same_iff properties) t.clustering_keys
          ⊎ (Absent same same_iff properties dp t.clustering_keys × (0 < static_column_count t))
    clustering_lem t (dk, dc) h =
        elim (included-cases same same_iff properties dp t.clustering_keys dc) [
          | inl (m, inside) ↦ inl inside
          | inr (inl (m, nothing, outside)) ↦
              inr (nothing, ltb→lt 0 _ (sym (ap (fits_update_clustering same t) m) ∙ h))
          | inr (inr (m, outside, more)) ↦
              let at = sym (ap (fits_update_clustering same t) m) ∙ h in absurd (ground arith)
        ]

    set_lem :
        (t : Table N)
        → IsTable same same_iff t
        → has_columns_to_set same properties t ≡ true
        → (static_column_count t ≡ 0) ⊎ Absent same same_iff properties dp t.clustering_keys
        → Passes properties (has_column same t) (is_primary same t)
    unfolding has_columns_to_set
    set_lem t tables h (inl nothing) =
        let bound = primary_count t tables in
        let more = count-le-length (among same properties) t.clustering_keys in
        passes properties (has_column same t) (is_primary same t) (ground arith)
    set_lem t tables h (inr nothing) =
        let bound = primary_count t tables in
        let zero_clustering =
          (count_zero same same_iff properties dp t.clustering_keys).1 nothing in
        passes properties (has_column same t) (is_primary same t) (ground arith)

    fits_update-Updates :
        (conditions : List N) (t : Table N)
        → IsTable same same_iff t
        → fits_update same properties conditions t ≡ true
        → Updates conditions t
    unfolding fits_update
    fits_update-Updates conditions t (dk, dc) h =
        let (first, second, third, fourth) =
          (four_iff (is_all (keys_are_included same t.partition_keys properties))
              (fits_update_clustering same t (keys_are_included same t.clustering_keys properties))
              (has_columns_to_set same properties t) (every (has_column same t) conditions)).0
            h in
        let keys = is_all-keys_are_included same same_iff t.partition_keys properties dk dp in
        (
          (every_iff (among same properties) t.partition_keys).0 (sym keys ∙ first),
          (every_iff (has_column same t) conditions).0 fourth,
          clustering_lem t (dk, dc) second,
          set_lem t (dk, dc) third,
        )

    module _ (get_table get_view : N → Option (Table N)) (conditions : List N)
        (tables : (n : N) (t : Table N) → get_table n ≡ some t → IsTable same same_iff t) where
      abbrev fits : Table N → Bool
      fits = fits_update same properties conditions

      abbrev if_kept : Table N → List (Table N) → Bool → Selection N (List (Table N))
      if_kept t more b = selected (if b then t ∷ more else more)

      filtered-Updates :
          (all : List (TableRef N)) (index : ℕ) (o : Option (Table N))
          (rest : Selection N (List (Table N)))
          → ((t : Table N) → o ≡ some t → IsTable same same_iff t)
          → ((ts : List (Table N)) → rest ≡ selected ts → All (Updates conditions) ts)
          → (ts : List (Table N))
          → filtered same get_table get_view all fits index o rest ≡ selected ts
          → All (Updates conditions) ts
      filtered-Updates all index none rest d f ts h = absurd (cc h)
      filtered-Updates all index (some t) (not_retrieved x) d f ts h = absurd (cc h)
      filtered-Updates all index (some t) no_match d f ts h = absurd (cc h)
      filtered-Updates all index (some t) (selected more) d f ts h = elim (Bool-cases (fits t)) [
        | inl good ↦
            let at : t ∷ more ≡ ts = selected_inj (sym (ap (if_kept t more) good) ∙ h) in
            subst (All (Updates conditions)) at
              (fits_update-Updates conditions t (d t refl) good, f more refl)
        | inr bad ↦
            let at : more ≡ ts = selected_inj (sym (ap (if_kept t more) bad) ∙ h) in
            subst (All (Updates conditions)) at (f more refl)
      ]

      filter_tables-Updates :
          (all refs : List (TableRef N)) (index : ℕ) (ts : List (Table N))
          → filter_tables same get_table get_view all fits index refs ≡ selected ts
          → All (Updates conditions) ts
      filter_tables-Updates all [] index ts h = subst (All (Updates conditions)) (selected_inj h) tt
      filter_tables-Updates all (r ∷ refs) index ts h =
          filtered-Updates all index (get_table r.name)
            (filter_tables same get_table get_view all fits (suc index) refs) (tables r.name)
            (filter_tables-Updates all refs (suc index)) ts h

      at_least_one-Updates :
          (r : Selection N (List (Table N))) (ts : List (Table N))
          → ((ks : List (Table N)) → r ≡ selected ks → All (Updates conditions) ks)
          → at_least_one same get_table get_view r ≡ selected ts
          → (ts ≢ []) × All (Updates conditions) ts
      at_least_one-Updates (not_retrieved x) ts f h = absurd (cc h)
      at_least_one-Updates no_match ts f h = absurd (cc h)
      at_least_one-Updates (selected []) ts f h = absurd (cc h)
      at_least_one-Updates (selected (t ∷ more)) ts f h =
          let at : t ∷ more ≡ ts = selected_inj h in
          subst (λ ks. (ks ≢ []) × All (Updates conditions) ks) at ((λ e. cc e), f (t ∷ more) refl)

      -- For properties of different columns and tables without a key twice, `getForUpdate` gives some
      -- table, if it gives a result, and of each the properties have the partition keys, and the clustering keys or, for static columns,
      -- none of them; the conditions are columns of it; and unless it has static columns and a clustering
      -- key is given, one of the properties is a column of it that is none of its keys.
      pub get_for_update-Updates :
          (refs : List (TableRef N)) (ts : List (Table N))
          → get_for_update same get_table get_view refs properties conditions ≡ selected ts
          → (ts ≢ []) × All (Updates conditions) ts
      unfolding get_for_update
      get_for_update-Updates refs ts h =
          at_least_one-Updates
            (filter_tables same get_table get_view refs fits 0 (keep (λ ref. not ref.is_view) refs))
            ts (filter_tables-Updates refs (keep (λ ref. not ref.is_view) refs) 0) h
