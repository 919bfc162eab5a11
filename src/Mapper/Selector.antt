-- ===== src/Mapper/Selector.antt =====
-- lib/mapping/object-selector.js: which tables a statement of the mapper is for. A table is what the
-- metadata gives: the names of its keys, the names that `columnsByName` has, and for each of its
-- columns whether it is static. `get_table` and `get_view` stand for `getTable` and
-- `getMaterializedView` of the metadata in the keyspace; what they give is none where there is no such
-- table. The properties, the fields and the conditions of a statement are the names of their columns.
-- The messages of errors are left out but for the name of a table that is not retrieved.
pub mod Keys
pub mod Select
pub mod Change
pub mod Update
mod Tests
use integration_hell.Common.{
  ℕ, zero, suc, ◌+◌, Bool, true, false, not, ◌&&◌, ◌||◌, Option, none, some, List, [], ◌∷◌, ◌++◌,
  map, length, get_elem?, ltb, leb, ◌==◌, if◌then◌else◌,
}
use integration_hell.Common.Counts.{count, keep, one_if}

pub record TableRef (N : Type 0) : Type 0 where
  pub name : N
  pub is_view : Bool

pub record Table (N : Type 0) : Type 0 where
  pub name : N
  pub partition_keys : List N
  pub clustering_keys : List N
  pub columns_by_name : List N
  pub static_columns : List Bool

pub data KeyMatches : Type 0 where
  all_keys no_key some_keys : KeyMatches

-- A result, or an error: a table that could not be retrieved, or none that matches.
pub data Selection {ℓ} (N : Type 0) (A : Type ℓ) : Type ℓ where
  not_retrieved : Option N → Selection N A
  no_match : Selection N A
  selected : A → Selection N A

abbrev pub every {ℓ} : {A : Type ℓ} → (A → Bool) → List A → Bool
every p [] = true
every p (x ∷ xs) = p x && every p xs

abbrev pub is_all : KeyMatches → Bool
is_all all_keys = true
is_all no_key = false
is_all some_keys = false

module _ {N : Type 0} where
  abbrev pub static_column_count : Table N → ℕ
  static_column_count t = count (λ s. s) t.static_columns

  abbrev pub has_static_column : Table N → Bool
  has_static_column t = ltb 0 (static_column_count t)

  abbrev pub map_name : Option (TableRef N) → Option N
  map_name none = none
  map_name (some r) = some r.name

  module _ (same : N → N → Bool) where
    -- `contains`, with a comparison of names.
    abbrev pub among : List N → N → Bool
    among names x = ltb 0 (count (same x) names)

    abbrev pub matches_of : ℕ → ℕ → KeyMatches
    matches_of size zero = no_key
    matches_of size (suc n) = if suc n == size then all_keys else some_keys

    unfoldable pub keys_are_included : List N → List N → KeyMatches
    keys_are_included [] properties = all_keys
    keys_are_included (k ∷ keys) properties =
        matches_of (length (k ∷ keys)) (count (among (k ∷ keys)) properties)

    abbrev pub has_column : Table N → N → Bool
    has_column t x = among t.columns_by_name x

    abbrev pub is_primary : Table N → N → Bool
    is_primary t x = among t.partition_keys x || among t.clustering_keys x

    abbrev pub is_key_at : Option N → N → Bool
    is_key_at none x = false
    is_key_at (some k) x = same k x

    -- Each column of the order is the clustering key at its index.
    abbrev pub follows : List N → ℕ → List N → Bool
    follows keys index [] = true
    follows keys index (x ∷ order) =
        is_key_at (get_elem? keys index) x && follows keys (suc index) order

    -- The body of the loop of `getForSelect`: whether it does not go on with the next table.
    unfoldable pub fits_select : Bool → List N → List N → List N → Table N → Bool
    unfolding keys_are_included
    fits_select all_pks_defined properties fields order t =
        is_all (keys_are_included t.partition_keys properties)
        && (not all_pks_defined || is_all (keys_are_included t.clustering_keys properties))
        && (not (ltb (length t.partition_keys) (length properties))
            || every (is_primary t) properties)
        && every (has_column t) fields
        && follows t.clustering_keys 0 order

    -- The tests of the tables in the filters.
    abbrev pub fits_insert_clustering : List N → Table N → KeyMatches → Bool
    fits_insert_clustering properties t all_keys = true
    fits_insert_clustering properties t some_keys = false
    fits_insert_clustering properties t no_key =
        (length properties == length t.partition_keys + static_column_count t)
        && ltb 0 (static_column_count t)

    unfoldable pub fits_insert : List N → Table N → Bool
    unfolding keys_are_included
    fits_insert properties t =
        is_all (keys_are_included t.partition_keys properties)
        && fits_insert_clustering properties t (keys_are_included t.clustering_keys properties)

    abbrev pub fits_update_clustering : Table N → KeyMatches → Bool
    fits_update_clustering t all_keys = true
    fits_update_clustering t some_keys = false
    fits_update_clustering t no_key = has_static_column t

    unfoldable pub has_columns_to_set : List N → Table N → Bool
    has_columns_to_set properties t =
        let applicable = count (has_column t) properties in
        not (leb applicable (length t.partition_keys + length t.clustering_keys))
        || (has_static_column t && not (leb applicable (length t.partition_keys)))

    unfoldable pub fits_update : List N → List N → Table N → Bool
    unfolding keys_are_included has_columns_to_set
    fits_update properties conditions t =
        is_all (keys_are_included t.partition_keys properties)
        && fits_update_clustering t (keys_are_included t.clustering_keys properties)
        && has_columns_to_set properties t
        && every (has_column t) conditions

    unfoldable pub fits_delete : List N → List N → Table N → Bool
    fits_delete properties conditions t =
        every (among properties) (t.partition_keys ++ t.clustering_keys)
        && every (has_column t) conditions

    module _ (get_table get_view : N → Option (Table N)) where
      abbrev pub retrieve : TableRef N → Option (Table N)
      retrieve r = if r.is_view then get_view r.name else get_table r.name

      -- The loop of `getForSelect`, with what a table is tested by.
      abbrev pub first_fit :
          (Table N → Bool) → TableRef N → Option (Table N) → Selection N N → Selection N N
      first_fit fits r none rest = not_retrieved (some r.name)
      first_fit fits r (some t) rest = if fits t then selected t.name else rest

      abbrev pub select_first : (Table N → Bool) → List (TableRef N) → Selection N N
      select_first fits [] = no_match
      select_first fits (r ∷ refs) = first_fit fits r (retrieve r) (select_first fits refs)

      unfoldable pub get_for_select :
          List (TableRef N) → Bool → List N → List N → List N → Selection N N
      unfolding fits_select
      get_for_select refs all_pks_defined properties fields order =
          select_first (fits_select all_pks_defined properties fields order) refs

      -- The filter of the others: `all` are the tables of the model, and the index is that in the list
      -- without views.
      abbrev pub filtered :
          List (TableRef N)
          → (Table N → Bool)
          → ℕ
          → Option (Table N)
          → Selection N (List (Table N))
          → Selection N (List (Table N))
      filtered all fits index none rest = not_retrieved (map_name (get_elem? all index))
      filtered all fits index (some t) (selected ts) = selected (if fits t then t ∷ ts else ts)
      filtered all fits index (some t) (not_retrieved x) = not_retrieved x
      filtered all fits index (some t) no_match = no_match

      abbrev pub filter_tables :
          List (TableRef N)
          → (Table N → Bool)
          → ℕ
          → List (TableRef N)
          → Selection N (List (Table N))
      filter_tables all fits index [] = selected []
      filter_tables all fits index (r ∷ refs) =
          filtered all fits index (get_table r.name) (filter_tables all fits (suc index) refs)

      abbrev pub at_least_one : Selection N (List (Table N)) → Selection N (List (Table N))
      at_least_one (selected []) = no_match
      at_least_one (selected (t ∷ ts)) = selected (t ∷ ts)
      at_least_one (not_retrieved x) = not_retrieved x
      at_least_one no_match = no_match

      abbrev pub select_tables : (Table N → Bool) → List (TableRef N) → Selection N (List (Table N))
      select_tables fits refs =
          at_least_one (filter_tables refs fits 0 (keep (λ r. not r.is_view) refs))

      unfoldable pub get_for_insert : List (TableRef N) → List N → Selection N (List (Table N))
      unfolding fits_insert
      get_for_insert refs properties = select_tables (fits_insert properties) refs

      unfoldable pub get_for_update :
          List (TableRef N) → List N → List N → Selection N (List (Table N))
      unfolding fits_update
      get_for_update refs properties conditions =
          select_tables (fits_update properties conditions) refs

      unfoldable pub get_for_delete :
          List (TableRef N) → List N → List N → Selection N (List (Table N))
      unfolding fits_delete
      get_for_delete refs properties conditions =
          select_tables (fits_delete properties conditions) refs
