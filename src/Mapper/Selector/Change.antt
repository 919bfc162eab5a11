-- ===== src/Mapper/Selector/Change.antt =====
-- lib/mapping/object-selector.js: the tables that `getForInsert` and `getForDelete` give.
use integration_hell.Common.{
  ℕ, zero, suc, ◌+◌, ◌<◌, ◌≡◌, ◌≢◌, ◌↔◌, ◌⊎◌, refl, sym, ap, ◌∙◌, inl, inr, arith, Bool, true,
  false, not, Bool-cases, Option, none, some, List, [], ◌∷◌, ◌++◌, length, ==_iff, ltb, ltb→lt,
  lt→ltb, ◌==◌, All,
}
use integration_hell.Common.Counts.{count, keep, one_if}
use integration_hell.Mapper.Selector.{
  TableRef, Table, all_keys, no_key, some_keys, Selection, not_retrieved, no_match, selected, every,
  is_all, among, matches_of, keys_are_included, has_column, static_column_count,
  fits_insert_clustering, fits_insert, fits_delete, filtered, filter_tables, at_least_one,
  get_for_insert, get_for_delete,
}
use integration_hell.Mapper.Selector.Keys.{IsDistinct, count-among, is_all-keys_are_included}
use integration_hell.Mapper.Selector.Select.{and_iff, every_iff, IsAmong, IsTable}

module _ {N : Type 0} (same : N → N → Bool)
    (same_iff : (a b : N) → (same a b ≡ true) ↔ (a ≡ b)) where
  abbrev with_table : Table N → Selection N (List (Table N)) → Selection N (List (Table N))
  with_table t (selected ts) = selected (t ∷ ts)
  with_table t (not_retrieved x) = not_retrieved x
  with_table t no_match = no_match

  module _ (get_table : N → Option (Table N)) where
    abbrev pub KeptAt :
        (Table N → Type 0)
        → Option (Table N)
        → Selection N (List (Table N))
        → (Selection N (List (Table N)) → Type 0)
        → Type 0
    KeptAt P none r later = (x : Option N) × (r ≡ not_retrieved x)
    KeptAt P (some t) r later =
        (r' : Selection N (List (Table N))) × later r'
        × ((P t × (r ≡ with_table t r')) ⊎ ((¬ P t) × (r ≡ r')))

    -- All tables that have the property, in their order, unless a table could not be retrieved.
    abbrev pub Kept : (Table N → Type 0) → List (TableRef N) → Selection N (List (Table N)) → Type 0
    Kept P [] r = r ≡ selected []
    Kept P (ref ∷ refs) r = KeptAt P (get_table ref.name) r (λ r'. Kept P refs r')

    abbrev pub Gives :
        (Table N → Type 0) → List (TableRef N) → Selection N (List (Table N)) → Type 0
    Gives P refs r =
        (r' : Selection N (List (Table N))) × Kept P (keep (λ ref. not ref.is_view) refs) r'
        × (r ≡ at_least_one same get_table get_table r')

    module _ (get_view : N → Option (Table N)) (all : List (TableRef N)) (fits : Table N → Bool)
        (P : Table N → Type 0)
        (fits_iff : (n : N) (t : Table N) → get_table n ≡ some t → (fits t ≡ true) ↔ P t) where
      filtered-KeptAt :
          (index : ℕ) (o : Option (Table N)) (rest : Selection N (List (Table N)))
          (later : Selection N (List (Table N)) → Type 0)
          → ((t : Table N) → o ≡ some t → (fits t ≡ true) ↔ P t)
          → later rest
          → KeptAt P o (filtered same get_table get_view all fits index o rest) later
      filtered-KeptAt index none rest later h f = (_, refl)
      filtered-KeptAt index (some t) (selected ts) later h f = elim (Bool-cases (fits t)) [
        | inl good ↦ rw good (selected ts, f, inl ((h t refl).0 good, refl))
        | inr bad ↦
            rw bad (selected ts, f, inr ((λ p. let at = (h t refl).1 p in ground arith), refl))
      ]
      filtered-KeptAt index (some t) (not_retrieved x) later h f = (
        not_retrieved x,
        f,
        elim (Bool-cases (fits t)) [
          | inl good ↦ inl ((h t refl).0 good, refl)
          | inr bad ↦ inr ((λ p. let at = (h t refl).1 p in ground arith), refl)
        ],
      )
      filtered-KeptAt index (some t) no_match later h f = (
        no_match,
        f,
        elim (Bool-cases (fits t)) [
          | inl good ↦ inl ((h t refl).0 good, refl)
          | inr bad ↦ inr ((λ p. let at = (h t refl).1 p in ground arith), refl)
        ],
      )

      filter_tables-Kept :
          (refs : List (TableRef N)) (index : ℕ)
          → Kept P refs (filter_tables same get_table get_view all fits index refs)
      filter_tables-Kept [] index = refl
      filter_tables-Kept (r ∷ refs) index =
          filtered-KeptAt index (get_table r.name)
            (filter_tables same get_table get_view all fits (suc index) refs) (Kept P refs)
            (fits_iff r.name) (filter_tables-Kept refs (suc index))

  -- The statement has all keys of the table.
  abbrev pub HasKeys : List N → List N → Table N → Type 0
  HasKeys properties conditions t =
      All (IsAmong same same_iff properties) (t.partition_keys ++ t.clustering_keys)
      × All (IsAmong same same_iff t.columns_by_name) conditions

  -- It has all keys, or the partition keys and as many more as there are static columns.
  abbrev pub Inserts : List N → Table N → Type 0
  Inserts properties t =
      All (IsAmong same same_iff properties) t.partition_keys
      × (All (IsAmong same same_iff properties) t.clustering_keys
          ⊎ (All (λ k. among same properties k ≡ false) t.clustering_keys
              × (length properties ≡ length t.partition_keys + static_column_count t)
              × (0 < static_column_count t)))

  matches-cases :
      (size n : ℕ)
      → ((matches_of same size n ≡ all_keys) × (n ≡ size) × (0 < n))
        ⊎ ((matches_of same size n ≡ no_key) × (n ≡ 0))
        ⊎ ((matches_of same size n ≡ some_keys) × (n ≢ size) × (0 < n))
  matches-cases size zero = inr (inl (refl, refl))
  matches-cases size (suc n) = elim (Bool-cases (suc n == size)) [
    | inl equal ↦ rw equal (inl (refl, (==_iff (suc n) size).0 equal, omega arith))
    | inr apart ↦
        rw apart
          (inr (inr (refl, (λ e. let at = (==_iff (suc n) size).1 e in ground arith), omega arith)))
  ]

  module _ (properties : List N) (dp : IsDistinct same same_iff properties) where
    abbrev pub Absent : List N → Type 0
    Absent keys = All (λ k. among same properties k ≡ false) keys

    pub count_zero : (keys : List N) → (count (among same properties) keys ≡ 0) ↔ Absent keys
    count_zero [] = (λ h. tt, λ h. refl)
    count_zero (k ∷ keys) =
        let later = count_zero keys in
        elim (Bool-cases (among same properties k)) [
          | inl holds ↦ (
            λ h.
                let at = ap (λ b. one_if b + count (among same properties) keys) (sym holds) ∙ h in
                absurd (omega arith),
            λ h. let at = h.0 in ground arith,
          )
          | inr fails ↦
              (λ h. (fails, later.0 (ground arith)), λ h. let at = later.1 h.1 in ground arith)
        ]

    -- What `keysAreIncluded` tells of different keys.
    pub included-cases :
        (keys : List N)
        → IsDistinct same same_iff keys
        → ((keys_are_included same keys properties ≡ all_keys)
            × All (IsAmong same same_iff properties) keys)
          ⊎ ((keys_are_included same keys properties ≡ no_key)
              × Absent keys
              × (¬ All (IsAmong same same_iff properties) keys))
          ⊎ ((keys_are_included same keys properties ≡ some_keys)
              × (¬ All (IsAmong same same_iff properties) keys)
              × (¬ Absent keys))
    unfolding keys_are_included
    included-cases [] dk = inl (refl, tt)
    included-cases (k ∷ keys) dk =
        let sides = count-among same same_iff (k ∷ keys) properties dk dp in
        let whole = is_all-keys_are_included same same_iff (k ∷ keys) properties dk dp in
        let all_in = every_iff (among same properties) (k ∷ keys) in
        let zero_iff = count_zero (k ∷ keys) in
        elim (matches-cases (length (k ∷ keys)) (count (among same (k ∷ keys)) properties)) [
          | inl (m, size, positive) ↦ inl (m, all_in.0 (sym whole ∙ ap is_all m))
          | inr (inl (m, nothing)) ↦ inr (
              inl (
                m,
                zero_iff.0 (sym sides ∙ nothing),
                λ h. let at = sym (ap is_all m) ∙ whole ∙ all_in.1 h in ground arith,
              ))
          | inr (inr (m, differs, positive)) ↦ inr (
              inr (
                m,
                (λ h. let at = sym (ap is_all m) ∙ whole ∙ all_in.1 h in ground arith),
                λ h. let at = sides ∙ zero_iff.1 h in omega arith,
              ))
        ]

    abbrev Clustering : Table N → Type 0
    Clustering t =
        All (IsAmong same same_iff properties) t.clustering_keys
        ⊎ (Absent t.clustering_keys
            × (length properties ≡ length t.partition_keys + static_column_count t)
            × (0 < static_column_count t))

    fits_insert_clustering_iff :
        (t : Table N)
        → IsTable same same_iff t
        → (fits_insert_clustering same properties t
              (keys_are_included same t.clustering_keys properties)
            ≡ true)
          ↔ Clustering t
    fits_insert_clustering_iff t (dk, dc) =
        let statics =
          and_iff (length properties == length t.partition_keys + static_column_count t)
            (ltb 0 (static_column_count t)) in
        let equal = ==_iff (length properties) (length t.partition_keys + static_column_count t) in
        elim (included-cases t.clustering_keys dc) [
          | inl (m, inside) ↦ rw m (λ h. inl inside, λ h. refl)
          | inr (inl (m, nothing, outside)) ↦ rw m (
            λ h. inr (nothing, equal.0 (statics.0 h).0, ltb→lt 0 _ (statics.0 h).1),
            λ h. elim h [
              | inl inside ↦ absurd (outside inside)
              | inr (n, e, p) ↦ statics.1 (equal.1 e, lt→ltb 0 _ p)
            ],
          )
          | inr (inr (m, outside, not_nothing)) ↦ rw m (
            λ h. absurd (ground arith),
            λ h. elim h [
              | inl inside ↦ absurd (outside inside)
              | inr (n, e, p) ↦ absurd (not_nothing n)
            ],
          )
        ]

    fits_insert_iff :
        (t : Table N)
        → IsTable same same_iff t
        → (fits_insert same properties t ≡ true) ↔ Inserts properties t
    unfolding fits_insert
    fits_insert_iff t (dk, dc) =
        let keys = is_all-keys_are_included same same_iff t.partition_keys properties dk dp in
        let all_in = every_iff (among same properties) t.partition_keys in
        let both = and_iff (is_all (keys_are_included same t.partition_keys properties)) _ in
        let more = fits_insert_clustering_iff t (dk, dc) in
        (
          λ h. (all_in.0 (sym keys ∙ (both.0 h).0), more.0 (both.0 h).1),
          λ h. both.1 (keys ∙ all_in.1 h.0, more.1 h.1),
        )

    module _ (get_table get_view : N → Option (Table N)) where
      -- For properties of different columns and tables without a key twice, `getForInsert` gives the tables of which the properties have
      -- all keys, or the partition keys and no clustering key, with as many properties besides as there
      -- are static columns; it is an error if there is none, or if a table could not be retrieved.
      pub get_for_insert-Gives :
          (refs : List (TableRef N))
          → ((n : N) (t : Table N) → get_table n ≡ some t → IsTable same same_iff t)
          → Gives get_table
              (Inserts properties)
              refs
              (get_for_insert same get_table get_view refs properties)
      unfolding get_for_insert
      get_for_insert-Gives refs tables = (
        _,
        filter_tables-Kept get_table get_view refs (fits_insert same properties)
            (Inserts properties) (λ n t h. fits_insert_iff t (tables n t h))
            (keep (λ ref. not ref.is_view) refs) 0,
        refl,
      )

  module _ (properties : List N) where
    fits_delete_iff :
        (conditions : List N) (t : Table N)
        → (fits_delete same properties conditions t ≡ true) ↔ HasKeys properties conditions t
    unfolding fits_delete
    fits_delete_iff conditions t =
        let both =
          and_iff (every (among same properties) (t.partition_keys ++ t.clustering_keys))
            (every (has_column same t) conditions) in
        let keys = every_iff (among same properties) (t.partition_keys ++ t.clustering_keys) in
        let columns = every_iff (has_column same t) conditions in
        (
          λ h. (keys.0 (both.0 h).0, columns.0 (both.0 h).1),
          λ h. both.1 (keys.1 h.0, columns.1 h.1),
        )

    module _ (get_table get_view : N → Option (Table N)) where
      -- `getForDelete` gives the tables of which the properties have all keys, and which have the columns
      -- of the conditions.
      pub get_for_delete-Gives :
          (refs : List (TableRef N)) (conditions : List N)
          → Gives get_table
              (HasKeys properties conditions)
              refs
              (get_for_delete same get_table get_view refs properties conditions)
      unfolding get_for_delete
      get_for_delete-Gives refs conditions = (
        _,
        filter_tables-Kept get_table get_view refs (fits_delete same properties conditions)
            (HasKeys properties conditions) (λ n t h. fits_delete_iff conditions t)
            (keep (λ ref. not ref.is_view) refs) 0,
        refl,
      )
