-- ===== src/Mapper/Selector/Select.antt =====
-- lib/mapping/object-selector.js: the table that `getForSelect` gives.
use integration_hell.Common.{
  ℕ, suc, ◌≤◌, ◌≡◌, ◌↔◌, ◌⊎◌, refl, sym, ap, ◌∙◌, inl, inr, arith, Bool, true, false, not, ◌&&◌,
  ◌||◌, Bool-cases, Option, none, some, List, [], ◌∷◌, ◌++◌, length, ==_iff, get_elem?, ltb,
  ge_of_ltb, All, All-imp,
}
use integration_hell.Common.Counts.{count, count-le-length}
use integration_hell.Mapper.Selector.{
  TableRef, Table, Selection, not_retrieved, no_match, selected, every, is_all, among,
  keys_are_included, has_column, is_primary, is_key_at, follows, fits_select, retrieve, first_fit,
  select_first, get_for_select,
}
use integration_hell.Mapper.Selector.Keys.{
  IsDistinct, count-among, every-count, is_all-keys_are_included,
}

pub and_iff : (a b : Bool) → ((a && b) ≡ true) ↔ ((a ≡ true) × (b ≡ true))
and_iff true b = (λ h. (refl, h), λ h. h.1)
and_iff false b = (λ h. (h, absurd (ground arith)), λ h. h.0)

five_iff :
    (a b c d e : Bool)
    → ((a && b && c && d && e) ≡ true)
      ↔ ((a ≡ true) × (b ≡ true) × (c ≡ true) × (d ≡ true) × (e ≡ true))
five_iff true true true true e = (λ h. (refl, refl, refl, refl, h), λ h. h.4)
five_iff true true true false e = (λ h. absurd (ground arith), λ h. h.3)
five_iff true true false d e = (λ h. absurd (ground arith), λ h. h.2)
five_iff true false c d e = (λ h. absurd (ground arith), λ h. h.1)
five_iff false b c d e = (λ h. absurd (ground arith), λ h. h.0)

implies_iff : (a b : Bool) → ((not a || b) ≡ true) ↔ (a ≡ true → b ≡ true)
implies_iff true b = (λ h e. h, λ f. f refl)
implies_iff false b = (λ h e. absurd (ground arith), λ f. refl)

pub every_iff {ℓ} :
    {A : Type ℓ} (p : A → Bool) (xs : List A) → (every p xs ≡ true) ↔ All (λ x. p x ≡ true) xs
every_iff p [] = (λ h. tt, λ h. refl)
every_iff p (x ∷ xs) = (
  λ h. let both = (and_iff (p x) (every p xs)).0 h in (both.0, (every_iff p xs).0 both.1),
  λ h. (and_iff (p x) (every p xs)).1 (h.0, (every_iff p xs).1 h.1),
)

module _ {N : Type 0} (same : N → N → Bool)
    (same_iff : (a b : N) → (same a b ≡ true) ↔ (a ≡ b)) where
  abbrev pub IsAmong : List N → N → Type 0
  IsAmong names x = among same names x ≡ true

  -- The order is by the first clustering keys, one after the other.
  abbrev pub IsOrder : List N → List N → Type 0
  IsOrder keys order = (rest : List N) × (keys ≡ order ++ rest)

  -- A table without a key twice among its partition keys or among its clustering keys.
  abbrev pub IsTable : Table N → Type 0
  IsTable t = IsDistinct same same_iff t.partition_keys × IsDistinct same same_iff t.clustering_keys

  -- What a table must have for a statement.
  pub record Serves (all_pks_defined : Bool) (properties fields order : List N) (t : Table N)
      : Type 0 where
    pub partition : All (IsAmong properties) t.partition_keys
    pub clustering : all_pks_defined ≡ true → All (IsAmong properties) t.clustering_keys
    pub primary : All (λ p. is_primary same t p ≡ true) properties
    pub contained : All (IsAmong t.columns_by_name) fields
    pub ordered : IsOrder t.clustering_keys order

  follows-suc :
      (k : N) (keys : List N) (i : ℕ) (order : List N)
      → follows same (k ∷ keys) (suc i) order ≡ follows same keys i order
  follows-suc k keys i [] = refl
  follows-suc k keys i (x ∷ order) =
      ap (λ b. is_key_at same (get_elem? keys i) x && b) (follows-suc k keys (suc i) order)

  follows_iff : (keys order : List N) → (follows same keys 0 order ≡ true) ↔ IsOrder keys order
  follows_iff keys [] = (λ h. (keys, refl), λ h. refl)
  follows_iff [] (x ∷ order) = (λ h. absurd (ground arith), λ h. absurd (cc (h.1)))
  follows_iff (k ∷ keys) (x ∷ order) =
      let step : follows same (k ∷ keys) 0 (x ∷ order) ≡ (same k x && follows same keys 0 order) =
        ap (λ b. same k x && b) (follows-suc k keys 0 order) in
      let both = and_iff (same k x) (follows same keys 0 order) in
      (
        λ h.
            let (first, later) = both.0 (sym step ∙ h) in
            let (rest, e) = (follows_iff keys order).0 later in
            let at = (same_iff k x).0 first in (rest, cc (at, e)),
        λ h.
            let (rest, e) = h in
            let at : k ≡ x = cc e in
            let later : keys ≡ order ++ rest = cc e in
            step ∙ both.1 ((same_iff k x).1 at, (follows_iff keys order).1 (rest, later)),
      )

  no_longer :
      (keys properties : List N)
      → IsDistinct same same_iff keys
      → IsDistinct same same_iff properties
      → length properties ≤ length keys
      → every (among same properties) keys ≡ true
      → every (among same keys) properties ≡ true
  no_longer keys properties dk dp short h =
      let everything = every-count same same_iff (among same properties) keys in
      let all_counted =
        (==_iff (count (among same properties) keys) (length keys)).0 (sym everything ∙ h) in
      let sides = count-among same same_iff keys properties dk dp in
      let bound = count-le-length (among same keys) properties in
      every-count same same_iff (among same keys) properties
      ∙ (==_iff (count (among same keys) properties) (length properties)).1 (omega arith)

  primary_by_partition :
      (t : Table N) (p : N) → IsAmong t.partition_keys p → is_primary same t p ≡ true
  primary_by_partition t p h = ground arith

  guarded :
      (t : Table N) (properties : List N)
      → IsTable t
      → IsDistinct same same_iff properties
      → every (among same properties) t.partition_keys ≡ true
      → (not (ltb (length t.partition_keys) (length properties))
          || every (is_primary same t) properties)
        ≡ every (is_primary same t) properties
  guarded t properties (dk, dc) dp h =
      elim (Bool-cases (ltb (length t.partition_keys) (length properties))) [
        | inl longer ↦ rw longer refl
        | inr short ↦
            let all_keys = no_longer t.partition_keys properties dk dp (ge_of_ltb _ _ short) h in
            let primary = (every_iff (is_primary same t) properties).1 (
              All-imp (IsAmong t.partition_keys) (λ p. is_primary same t p ≡ true)
                (primary_by_partition t) properties
                ((every_iff (among same t.partition_keys) properties).0 all_keys)) in
            rw (short, primary) refl
      ]

  -- The tests of `getForSelect`, in a description of their own.
  pub fits_select-Serves :
      (all_pks_defined : Bool) (properties fields order : List N) (t : Table N)
      → IsTable t
      → IsDistinct same same_iff properties
      → (fits_select same all_pks_defined properties fields order t ≡ true)
        ↔ Serves all_pks_defined properties fields order t
  unfolding fits_select
  fits_select-Serves all_pks_defined properties fields order t (dk, dc) dp =
      let keys = is_all-keys_are_included same same_iff t.partition_keys properties dk dp in
      let more_keys = is_all-keys_are_included same same_iff t.clustering_keys properties dc dp in
      let all_in = every_iff (among same properties) in
      let primary = every_iff (is_primary same t) properties in
      let columns = every_iff (has_column same t) fields in
      let ordered = follows_iff t.clustering_keys order in
      let five = five_iff (is_all (keys_are_included same t.partition_keys properties)) _ _ _ _ in
      let when_all =
        implies_iff all_pks_defined
          (is_all (keys_are_included same t.clustering_keys properties)) in
      (
        λ h.
            let (a, b, c, d, e) = five.0 h in
            let inside = sym keys ∙ a in
            record {
              partition = (all_in t.partition_keys).0 inside;
              clustering = λ on. (all_in t.clustering_keys).0 (sym more_keys ∙ when_all.0 b on);
              primary = primary.0 (sym (guarded t properties (dk, dc) dp inside) ∙ c);
              contained = columns.0 d;
              ordered = ordered.0 e;
            },
        λ s.
            let inside = (all_in t.partition_keys).1 s.partition in
            five.1 (
              keys ∙ inside,
              when_all.1 (λ on. more_keys ∙ (all_in t.clustering_keys).1 (s.clustering on)),
              guarded t properties (dk, dc) dp inside ∙ primary.1 s.primary,
              columns.1 s.contained,
              ordered.1 s.ordered,
            ),
      )

  module _ (get_table get_view : N → Option (Table N)) where
    abbrev pub ChosenAt :
        (Table N → Type 0) → TableRef N → Option (Table N) → Selection N N → Type 0 → Type 0
    ChosenAt P ref none r later = r ≡ not_retrieved (some ref.name)
    ChosenAt P ref (some t) r later = (P t × (r ≡ selected t.name)) ⊎ ((¬ P t) × later)

    -- The name of the first table that serves, unless one before it could not be retrieved.
    abbrev pub Chosen : (Table N → Type 0) → List (TableRef N) → Selection N N → Type 0
    Chosen P [] r = r ≡ no_match
    Chosen P (t ∷ refs) r = ChosenAt P t (retrieve same get_table get_view t) r (Chosen P refs r)

    module _ (fits : Table N → Bool) (P : Table N → Type 0) where
      first_fit-ChosenAt :
          (r : TableRef N) (o : Option (Table N)) (rest : Selection N N)
          (later : Selection N N → Type 0)
          → ((t : Table N) → o ≡ some t → (fits t ≡ true) ↔ P t)
          → later rest
          → let c = first_fit same get_table get_view fits r o rest in ChosenAt P r o c (later c)
      first_fit-ChosenAt r none rest later h f = refl
      first_fit-ChosenAt r (some t) rest later h f = elim (Bool-cases (fits t)) [
        | inl good ↦ rw good (inl ((h t refl).0 good, refl))
        | inr bad ↦ rw bad (inr ((λ p. let at = (h t refl).1 p in ground arith), f))
      ]

      select_first-Chosen :
          (refs : List (TableRef N))
          → ((r : TableRef N) (t : Table N)
              → retrieve same get_table get_view r ≡ some t
              → (fits t ≡ true) ↔ P t)
          → Chosen P refs (select_first same get_table get_view fits refs)
      select_first-Chosen [] h = refl
      select_first-Chosen (r ∷ refs) h =
          first_fit-ChosenAt r (retrieve same get_table get_view r)
            (select_first same get_table get_view fits refs) (Chosen P refs) (h r)
            (select_first-Chosen refs h)

    -- For properties of different columns and tables without a key twice, `getForSelect` gives the name of the first table that serves
    -- the statement: each of its partition keys is among the properties, and its clustering keys where
    -- they are asked for; each property is one of its keys; it has the fields; and the order is by its
    -- first clustering keys. A table before that could not be retrieved is an error, and so is no table.
    pub get_for_select-Chosen :
        (refs : List (TableRef N)) (all_pks_defined : Bool) (properties fields order : List N)
        → ((r : TableRef N) (t : Table N) → retrieve same get_table get_view r ≡ some t → IsTable t)
        → IsDistinct same same_iff properties
        → Chosen
            (Serves all_pks_defined properties fields order)
            refs
            (get_for_select same get_table get_view refs all_pks_defined properties fields order)
    unfolding get_for_select
    get_for_select-Chosen refs all_pks_defined properties fields order tables dp =
        select_first-Chosen (fits_select same all_pks_defined properties fields order)
          (Serves all_pks_defined properties fields order) refs
          (λ r t h. fits_select-Serves all_pks_defined properties fields order t (tables r t h) dp)
