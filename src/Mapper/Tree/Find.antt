-- ===== src/Mapper/Tree/Find.antt =====
-- lib/mapping/tree.js: the values that a tree holds, by their items, and how `getOrCreate` changes them.
use mathlib.Core.Path.{subst}
use mathlib.Core.List.{append-nil}
use integration_hell.Common.{
  ◌≡◌, ◌↔◌, refl, sym, ap, ◌∙◌, inl, inr, arith, Bool, true, false, ◌&&◌, Bool-cases, Option, none,
  some, List, [], ◌∷◌, ◌++◌, if◌then◌else◌,
}
use integration_hell.Mapper.Tree.{
  Node, node, Edges, no_edges, edge, Alignment, matched, branched, Created, further, align,
  found_value, leaf, in_edge, behind, get_aligned, get_in, get_on,
}
use integration_hell.Mapper.Tree.Lookup.{strip, same_items, find_rest, find, find_on}

module _ {K : Type 0} (same : K → K → Bool)
    (same_iff : (a b : K) → (same a b ≡ true) ↔ (a ≡ b)) where
  abbrev left_of : (List K → Bool) → Option (List K) → Bool
  left_of f none = false
  left_of f (some rest) = f rest

  same_items-strip :
      (key rest items : List K)
      → same_items same (key ++ rest) items ≡ left_of (same_items same rest) (strip same key items)
  same_items-strip [] rest items = refl
  same_items-strip (y ∷ key) rest [] = refl
  same_items-strip (y ∷ key) rest (x ∷ items) = elim (Bool-cases (same y x)) [
    | inl equal ↦ rw equal (same_items-strip key rest items)
    | inr apart ↦ rw apart refl
  ]

  abbrev pub strip_more : List K → Option (List K) → Option (List K)
  strip_more key none = none
  strip_more key (some rest) = strip same key rest

  pub strip-append :
      (key more items : List K)
      → strip same (key ++ more) items ≡ strip_more more (strip same key items)
  strip-append [] more items = refl
  strip-append (y ∷ key) more [] = refl
  strip-append (y ∷ key) more (x ∷ items) = elim (Bool-cases (same y x)) [
    | inl equal ↦ rw equal (strip-append key more items)
    | inr apart ↦ rw apart refl
  ]

  symmetric : (a b : K) → same a b ≡ false → same b a ≡ false
  symmetric a b h = elim (Bool-cases (same b a)) [
    | inr fine ↦ fine
    | inl equal ↦
        let at : same a b ≡ true = (same_iff a b).1 (sym ((same_iff b a).0 equal)) in
        let wrong : true ≡ false = sym at ∙ h in ground arith
  ]

  -- An alignment tells what the key and the items are.
  abbrev pub Differs : K → List K → Type 0
  Differs y [] = Unit
  Differs y (x ∷ rest) = same y x ≡ false

  abbrev pub IsAlignment : List K → List K → Alignment K → Type 0
  IsAlignment key items (matched rest) = items ≡ key ++ rest
  IsAlignment key items (branched common y more rest) =
      (key ≡ common ++ y ∷ more) × (items ≡ common ++ rest) × Differs y rest

  further-IsAlignment :
      (y x : K) (key items : List K) (a : Alignment K)
      → y ≡ x
      → IsAlignment key items a
      → IsAlignment (y ∷ key) (x ∷ items) (further same y a)
  further-IsAlignment y x key items (matched rest) e h = cc (e, h)
  further-IsAlignment y x key items (branched common z more rest) e (p, q, d) =
      (ap (λ k. y ∷ k) p, cc (e, q), d)

  pub align_lem : (key items : List K) → IsAlignment key items (align same key items)
  align_lem [] items = refl
  align_lem (y ∷ key) [] = (refl, refl, tt)
  align_lem (y ∷ key) (x ∷ items) = elim (Bool-cases (same y x)) [
    | inl equal ↦ rw equal (
        further-IsAlignment y x key items (align same key items) ((same_iff y x).0 equal)
          (align_lem key items))
    | inr apart ↦ rw apart (refl, refl, apart)
  ]

  module _ {V : Type 0} where
    leaf_rest :
        (v : V) (o : Option (List K))
        → find_rest same {V = V} (some v) (λ x rest. none) o
          ≡ (if left_of (same_items same []) o then some v else none)
    leaf_rest v none = refl
    leaf_rest v (some []) = refl
    leaf_rest v (some (x ∷ rest)) = refl

    find-leaf :
        (key items : List K) (v : V)
        → find same (leaf same key v) items ≡ (if same_items same key items then some v else none)
    unfolding find
    find-leaf key items v =
        leaf_rest v (strip same key items)
        ∙ ap (λ b. if b then some v else none)
            (sym (same_items-strip key [] items)
              ∙ ap (λ k. same_items same k items) (append-nil key))

    -- What is found on edges after something was created on them.
    abbrev pub IsFoundOn : Edges K V → V → Type 0
    IsFoundOn edges v =
        (x : K) (items : List K) (x' : K) (items' : List K)
        → find_on same (get_on same edges x items v).left x' items' ≡ (
            if same x x' && same_items same items items'
            then (get_on same edges x items v).value
            else find_on same edges x' items')

    module _ (value : Option V) (edges : Edges K V) (v : V) (edges_lem : IsFoundOn edges v) where
      abbrev on : K → List K → Option V
      on x rest = find_on same edges x rest

      abbrev create_on : K → List K → Created (Edges K V) V
      create_on x rest = get_on same edges x rest v

      none_left :
          (o : Option (List K))
          → find_rest same (found_value same value edges v) on o ≡ (
              if left_of (same_items same []) o
              then found_value same value edges v
              else find_rest same value on o)
      none_left none = refl
      none_left (some []) = refl
      none_left (some (x ∷ rest)) = refl

      some_left :
          (x : K) (rest : List K) (o : Option (List K))
          → find_rest same value (λ x' rest'. find_on same (create_on x rest).left x' rest') o ≡ (
              if left_of (same_items same (x ∷ rest)) o
              then (create_on x rest).value
              else find_rest same value on o)
      some_left x rest none = refl
      some_left x rest (some []) = refl
      some_left x rest (some (x' ∷ rest')) = edges_lem x rest x' rest'

      branch_done :
          (y : K) (more : List K) (o : Option (List K))
          → find_rest same
              (some v)
              (λ x rest. find_on same (edge y (node more value edges) no_edges) x rest)
              o
            ≡ (if left_of (same_items same []) o
                then some v
                else find_rest same value on (strip_more (y ∷ more) o))
      unfolding find
      branch_done y more none = refl
      branch_done y more (some []) = refl
      branch_done y more (some (x ∷ rest)) = elim (Bool-cases (same y x)) [
        | inl equal ↦ rw equal refl
        | inr apart ↦ rw apart refl
      ]

      branch_left :
          (y : K) (more : List K) (x : K) (rest : List K) (o : Option (List K))
          → same y x ≡ false
          → find_rest same none
              (λ x' rest'.
                find_on same
                  (edge y (node more value edges) (edge x (leaf same rest v) no_edges))
                  x'
                  rest')
              o
            ≡ (if left_of (same_items same (x ∷ rest)) o
                then some v
                else find_rest same value on (strip_more (y ∷ more) o))
      unfolding find
      branch_left y more x rest none d = refl
      branch_left y more x rest (some []) d = refl
      branch_left y more x rest (some (x' ∷ rest')) d = elim (Bool-cases (same y x')) [
        | inl equal ↦
            let at = (same_iff y x').0 equal in
            let other : same x x' ≡ false = ap (same x) (sym at) ∙ symmetric y x d in
            rw (equal, other) refl
        | inr apart ↦ elim (Bool-cases (same x x')) [
          | inl equal ↦ rw (apart, equal) (find-leaf rest rest' v)
          | inr other ↦ rw (apart, other) refl
        ]
      ]

      -- Items that begin with a key are compared behind it.
      behind_key :
          (key rest items items' : List K)
          → items ≡ key ++ rest
          → left_of (same_items same rest) (strip same key items') ≡ same_items same items items'
      behind_key key rest items items' e =
          sym (same_items-strip key rest items') ∙ ap (λ k. same_items same k items') (sym e)

      aligned_lem :
          (tail items : List K) (a : Alignment K)
          → IsAlignment tail items a
          → (items' : List K)
          → find same (get_aligned same tail value edges create_on v a).left items' ≡ (
              if same_items same items items'
              then (get_aligned same tail value edges create_on v a).value
              else find same (node tail value edges) items')
      unfolding find
      aligned_lem tail items (matched []) e items' =
          none_left (strip same tail items')
          ∙ ap
              (λ b.
                if b
                then found_value same value edges v
                else find_rest same value on (strip same tail items'))
              (behind_key tail [] items items' e)
      aligned_lem tail items (matched (x ∷ rest)) e items' =
          some_left x rest (strip same tail items')
          ∙ ap
              (λ b.
                if b
                then (create_on x rest).value
                else find_rest same value on (strip same tail items'))
              (behind_key tail (x ∷ rest) items items' e)
      aligned_lem tail items (branched common y more []) (p, q, d) items' =
          branch_done y more (strip same common items')
          ∙ ap
              (λ b.
                if b
                then some v
                else find_rest same value on (strip_more (y ∷ more) (strip same common items')))
              (behind_key common [] items items' q)
          ∙ ap (λ o. if same_items same items items' then some v else find_rest same value on o)
              (sym (strip-append common (y ∷ more) items') ∙ ap (λ k. strip same k items') (sym p))
      aligned_lem tail items (branched common y more (x ∷ rest)) (p, q, d) items' =
          branch_left y more x rest (strip same common items') d
          ∙ ap
              (λ b.
                if b
                then some v
                else find_rest same value on (strip_more (y ∷ more) (strip same common items')))
              (behind_key common (x ∷ rest) items items' q)
          ∙ ap (λ o. if same_items same items items' then some v else find_rest same value on o)
              (sym (strip-append common (y ∷ more) items') ∙ ap (λ k. strip same k items') (sym p))

    on_new :
        (x : K) (items : List K) (v : V)
        → (x' : K) (items' : List K)
        → find_on same (get_on same no_edges x items v).left x' items'
          ≡ (if same x x' && same_items same items items' then some v else none)
    unfolding find get_in
    on_new x items v x' items' = elim (Bool-cases (same x x')) [
      | inl equal ↦ rw equal (find-leaf items items' v)
      | inr apart ↦ rw apart refl
    ]

    abbrev IsFoundBy : Edges K V → K → List K → K → List K → Created (Edges K V) V → Type 0
    IsFoundBy edges x items x' items' c = find_on same c.left x' items' ≡ (
        if same x x' && same_items same items items' then c.value else find_on same edges x' items')

    pub get_on-same :
        (y : K) (n : Node K V) (edges : Edges K V) (x : K) (items : List K) (v : V)
        → same y x ≡ true
        → get_on same (edge y n edges) x items v ≡ in_edge same y edges (get_in same n items v)
    unfolding get_in
    get_on-same y n edges x items v h =
        ap
          (λ b. elim b as (λ b. Created (Edges K V) V) [
            | true ↦ in_edge same y edges (get_in same n items v)
            | false ↦ behind same y n (get_on same edges x items v)
          ])
          h

    pub get_on_other :
        (y : K) (n : Node K V) (edges : Edges K V) (x : K) (items : List K) (v : V)
        → same y x ≡ false
        → get_on same (edge y n edges) x items v ≡ behind same y n (get_on same edges x items v)
    unfolding get_in
    get_on_other y n edges x items v h =
        ap
          (λ b. elim b as (λ b. Created (Edges K V) V) [
            | true ↦ in_edge same y edges (get_in same n items v)
            | false ↦ behind same y n (get_on same edges x items v)
          ])
          h

    edge_lem :
        (y : K) (n : Node K V) (edges : Edges K V) (x : K) (items : List K) (x' : K)
        (items' : List K) (v : V)
        → find same (get_in same n items v).left items' ≡ (
            if same_items same items items'
            then (get_in same n items v).value
            else find same n items')
        → find_on same (get_on same edges x items v).left x' items' ≡ (
            if same x x' && same_items same items items'
            then (get_on same edges x items v).value
            else find_on same edges x' items')
        → find_on same (get_on same (edge y n edges) x items v).left x' items' ≡ (
            if same x x' && same_items same items items'
            then (get_on same (edge y n edges) x items v).value
            else find_on same (edge y n edges) x' items')
    unfolding find
    edge_lem y n edges x items x' items' v here later = elim (Bool-cases (same y x)) [
      | inl equal ↦
          subst (IsFoundBy (edge y n edges) x items x' items')
            (sym (get_on-same y n edges x items v equal))
            (elim (Bool-cases (same y x')) [
              | inl equal' ↦
                  let at : same x x' ≡ true =
                    (same_iff x x').1 (sym ((same_iff y x).0 equal) ∙ (same_iff y x').0 equal') in
                  rw (equal', at) here
              | inr apart ↦
                  let at : same x x' ≡ false =
                    ap (λ k. same k x') (sym ((same_iff y x).0 equal)) ∙ apart in
                  rw (apart, at) refl
            ])
      | inr apart ↦
          subst (IsFoundBy (edge y n edges) x items x' items')
            (sym (get_on_other y n edges x items v apart))
            (elim (Bool-cases (same y x')) [
              | inl equal' ↦
                  let at : same x x' ≡ false =
                    ap (same x) (sym ((same_iff y x').0 equal')) ∙ symmetric y x apart in
                  rw (equal', at) refl
              | inr apart' ↦ rw apart' later
            ])
    ]

    mutual
      unfolding find get_in

      pub find-get_in :
          (n : Node K V) (items items' : List K) (v : V)
          → find same (get_in same n items v).left items' ≡ (
              if same_items same items items'
              then (get_in same n items v).value
              else find same n items')
      find-get_in (node tail value edges) items items' v =
          aligned_lem value edges v (λ x rest x' rest'. find_on-get_on edges x rest x' rest' v) tail
            items (align same tail items) (align_lem tail items) items'

      pub find_on-get_on :
          (edges : Edges K V) (x : K) (items : List K) (x' : K) (items' : List K) (v : V)
          → find_on same (get_on same edges x items v).left x' items' ≡ (
              if same x x' && same_items same items items'
              then (get_on same edges x items v).value
              else find_on same edges x' items')
      find_on-get_on no_edges x items x' items' v = on_new x items v x' items'
      find_on-get_on (edge y n edges) x items x' items' v =
          edge_lem y n edges x items x' items' v (find-get_in n items items' v)
            (find_on-get_on edges x items x' items' v)
