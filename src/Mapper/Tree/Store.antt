-- ===== src/Mapper/Tree/Store.antt =====
-- lib/mapping/tree.js: a tree is a map from items to values. Each call of `getOrCreate` gives the value
-- that the first call with the same items gave.
use integration_hell.Common.{
  ◌≡◌, ◌↔◌, refl, sym, ap, ◌∙◌, inl, inr, arith, Bool, true, false, ◌&&◌, Bool-cases, Option, none,
  some, List, [], ◌∷◌, ◌++◌, if◌then◌else◌,
}
use integration_hell.Mapper.Tree.{
  Node, node, Edges, no_edges, edge, Alignment, matched, branched, Tree, empty_tree, Created, align,
  found_value, get_aligned, get_in, get_on, get_or_create,
}
use integration_hell.Mapper.Tree.Lookup.{strip, same_items, find_rest, find, find_on}
use integration_hell.Mapper.Tree.Find.{
  strip-append, strip_more, Differs, IsAlignment, align_lem, find-get_in, get_on-same, get_on_other,
}

-- A call of `getOrCreate`: its items, and what its handler gives.
pub record Call (K V : Type 0) : Type 0 where
  pub first : K
  pub others : List K
  pub value : V

module _ {V : Type 0} where
  abbrev pub either : Option V → Option V → Option V
  either (some w) o = some w
  either none o = o

  abbrev pub given : V → Option V → V
  given v none = v
  given v (some w) = w

  either-given : (k o : Option V) (v : V) → either (some (given v k)) o ≡ either k (some v)
  either-given none o v = refl
  either-given (some w) o v = refl

  either-none : (o : Option V) → o ≡ either o none
  either-none none = refl
  either-none (some w) = refl

  abbrev HasContent : {K : Type 0} → Option V → Edges K V → Type 0
  HasContent (some w) edges = Unit
  HasContent none no_edges = ⊥
  HasContent none (edge x n edges) = Unit

  abbrev IsMore : {K : Type 0} → Edges K V → Type 0
  IsMore no_edges = ⊥
  IsMore (edge x n edges) = Unit

module _ {K V : Type 0} where
  -- Every node below has a value or an edge.
  unfoldable mutual
    IsFull : Node K V → Type 0
    IsFull (node tail value edges) = HasContent value edges × AreFull edges

    AreFull : Edges K V → Type 0
    AreFull no_edges = Unit
    AreFull (edge x n edges) = IsFull n × AreFull edges

module _ {K : Type 0} (same : K → K → Bool)
    (same_iff : (a b : K) → (same a b ≡ true) ↔ (a ≡ b)) where
  strip-prefix : (key rest : List K) → strip same key (key ++ rest) ≡ some rest
  strip-prefix [] rest = refl
  strip-prefix (y ∷ key) rest = rw ((same_iff y y).1 refl) (strip-prefix key rest)

  strip-apart :
      (y : K) (more rest : List K)
      → Differs same same_iff y rest
      → strip same (y ∷ more) rest ≡ none
  strip-apart y more [] d = refl
  strip-apart y more (x ∷ rest) d = rw d refl

  nothing_at :
      (common : List K) (y : K) (more rest tail items : List K)
      → tail ≡ common ++ y ∷ more
      → items ≡ common ++ rest
      → Differs same same_iff y rest
      → strip same tail items ≡ none
  nothing_at common y more rest tail items p q d =
      rw (p, q)
        (strip-append same same_iff common (y ∷ more) (common ++ rest)
          ∙ ap (strip_more same same_iff (y ∷ more)) (strip-prefix common rest)
          ∙ strip-apart y more rest d)

  same_items_lem : (key items : List K) → same_items same key items ≡ true → key ≡ items
  same_items_lem [] [] h = refl
  same_items_lem [] (x ∷ items) h = ground arith
  same_items_lem (y ∷ key) [] h = ground arith
  same_items_lem (y ∷ key) (x ∷ items) h = elim (Bool-cases (same y x)) [
    | inl equal ↦
        let e = (same_iff y x).0 equal in
        let later =
          same_items_lem key items (sym (ap (λ b. b && same_items same key items) equal) ∙ h) in
        cc (e, later)
    | inr apart ↦ ground arith
  ]

  module _ {V : Type 0} where
    -- What a call leaves and gives, where the value that was there is known.
    abbrev Keeps : Created (Edges K V) V → Option V → V → Type 0
    Keeps c known v = AreFull c.left × IsMore c.left × (c.value ≡ some (given v known))

    abbrev KeepsNode : Created (Node K V) V → Option V → V → Type 0
    KeepsNode c known v = IsFull c.left × (c.value ≡ some (given v known))

    found_lem :
        (tail : List K) (value : Option V) (edges : Edges K V) (v : V)
        → HasContent value edges
        → AreFull edges
        → KeepsNode
            (record {
              left = node tail (found_value same value edges v) edges;
              value = found_value same value edges v;
              added = false;
            })
            value
            v
    unfolding IsFull
    found_lem tail (some w) edges v h full = ((tt, full), refl)
    found_lem tail none no_edges v h full = elim h [ ]
    found_lem tail none (edge x n edges) v h full = ((tt, full), refl)

    more_content : (value : Option V) (edges : Edges K V) → IsMore edges → HasContent value edges
    more_content (some w) edges h = tt
    more_content none no_edges h = h
    more_content none (edge x n edges) h = tt

    module _ (value : Option V) (edges : Edges K V) (v : V) (h : HasContent value edges)
        (full : AreFull edges)
        (on_lem : (x : K) (rest : List K)
          → Keeps (get_on same edges x rest v) (find_on same edges x rest) v) where
      aligned-Keeps :
          (tail items : List K) (a : Alignment K)
          → IsAlignment same same_iff tail items a
          → KeepsNode
              (get_aligned same tail value edges (λ x rest. get_on same edges x rest v) v a)
              (find_rest same value (λ x rest. find_on same edges x rest) (strip same tail items))
              v
      unfolding IsFull find
      aligned-Keeps tail items (matched []) e =
          rw (e, strip-prefix tail []) (found_lem tail value edges v h full)
      aligned-Keeps tail items (matched (x ∷ rest)) e =
          let (kept, more, result) = on_lem x rest in
          rw (e, strip-prefix tail (x ∷ rest)) ((more_content value _ more, kept), result)
      aligned-Keeps tail items (branched common y more []) (p, q, d) =
          rw (nothing_at common y more [] tail items p q d) ((tt, ((h, full), tt)), refl)
      aligned-Keeps tail items (branched common y more (x ∷ rest)) (p, q, d) =
          rw (nothing_at common y more (x ∷ rest) tail items p q d)
            ((tt, ((h, full), ((tt, tt), tt))), refl)

    on_new-Keeps :
        (x : K) (rest : List K) (v : V)
        → Keeps (get_on same no_edges x rest v) (find_on same no_edges x rest) v
    unfolding IsFull find get_in
    on_new-Keeps x rest v = (((tt, tt), tt), tt, refl)

    edge-Keeps :
        (y : K) (n : Node K V) (edges : Edges K V) (x : K) (rest : List K) (v : V)
        → IsFull n
        → AreFull edges
        → KeepsNode (get_in same n rest v) (find same n rest) v
        → Keeps (get_on same edges x rest v) (find_on same edges x rest) v
        → Keeps (get_on same (edge y n edges) x rest v) (find_on same (edge y n edges) x rest) v
    unfolding IsFull find
    edge-Keeps y n edges x rest v here later in_here in_later = elim (Bool-cases (same y x)) [
      | inl equal ↦
          rw (get_on-same same same_iff y n edges x rest v equal, equal)
            ((in_here.0, later), tt, in_here.1)
      | inr apart ↦
          rw (get_on_other same same_iff y n edges x rest v apart, apart)
            ((here, in_later.0), tt, in_later.2)
    ]

    mutual
      unfolding IsFull find get_in

      get_in-Keeps :
          (n : Node K V) (items : List K) (v : V)
          → IsFull n
          → KeepsNode (get_in same n items v) (find same n items) v
      get_in-Keeps (node tail value edges) items v (h, full) =
          aligned-Keeps value edges v h full (λ x rest. get_on-Keeps edges x rest v full) tail items
            (align same tail items) (align_lem same same_iff tail items)

      get_on-Keeps :
          (edges : Edges K V) (x : K) (rest : List K) (v : V)
          → AreFull edges
          → Keeps (get_on same edges x rest v) (find_on same edges x rest) v
      get_on-Keeps no_edges x rest v full = on_new-Keeps x rest v
      get_on-Keeps (edge y n edges) x rest v (here, later) =
          edge-Keeps y n edges x rest v here later (get_in-Keeps n rest v here)
            (get_on-Keeps edges x rest v later)

    -- A tree: its root has no key, no value and nodes that are full.
    abbrev IsRoot : Node K V → Type 0
    IsRoot (node [] none edges) = AreFull edges
    IsRoot (node [] (some w) edges) = ⊥
    IsRoot (node (y ∷ tail) value edges) = ⊥

    abbrev pub call : Tree K V → Call K V → Tree K V × Option V
    call t c = get_or_create same t (c.first ∷ c.others) c.value

    abbrev pub after : Tree K V → List (Call K V) → Tree K V
    after t [] = t
    after t (c ∷ calls) = after (call t c).0 calls

    -- The value of the first call with the items.
    abbrev pub first_given : List (Call K V) → List K → Option V
    first_given [] items = none
    first_given (c ∷ calls) items =
        if same_items same (c.first ∷ c.others) items then some c.value else first_given calls items

    get_in-IsRoot :
        (n : Node K V) (x : K) (rest : List K) (v : V)
        → IsRoot n
        → IsRoot (get_in same n (x ∷ rest) v).left
          × ((get_in same n (x ∷ rest) v).value ≡ some (given v (find same n (x ∷ rest))))
    unfolding find get_in
    get_in-IsRoot (node [] none edges) x rest v full =
        let (kept, more, result) = get_on-Keeps edges x rest v full in (kept, result)
    get_in-IsRoot (node [] (some w) edges) x rest v h = elim h [ ]
    get_in-IsRoot (node (y ∷ tail) value edges) x rest v h = elim h [ ]

    after_call :
        (n : Node K V) (c : Call K V) (calls : List (Call K V)) (items : List K)
        → (get_in same n (c.first ∷ c.others) c.value).value
          ≡ some (given c.value (find same n (c.first ∷ c.others)))
        → either
            (find same (get_in same n (c.first ∷ c.others) c.value).left items)
            (first_given calls items)
          ≡ either (find same n items) (first_given (c ∷ calls) items)
    after_call n c calls items result =
        ap (λ o. either o (first_given calls items))
          (find-get_in same same_iff n (c.first ∷ c.others) items c.value)
        ∙ elim (Bool-cases (same_items same (c.first ∷ c.others) items)) [
          | inl equal ↦
              let at = same_items_lem (c.first ∷ c.others) items equal in
              rw (equal, result, at)
                (either-given (find same n items) (first_given calls items) c.value)
          | inr apart ↦ rw apart refl
        ]

    -- Calls from a tree on: what it holds then, and that it still is one.
    after_lem :
        (t : Tree K V) (calls : List (Call K V))
        → IsRoot t.root
        → IsRoot (after t calls).root
          × ((items : List K)
              → find same (after t calls).root items
                ≡ either (find same t.root items) (first_given calls items))
    unfolding get_or_create
    after_lem t [] h = (h, λ items. either-none (find same t.root items))
    after_lem t (c ∷ calls) h =
        let (kept, result) = get_in-IsRoot t.root c.first c.others c.value h in
        let (root, found) = after_lem (call t c).0 calls kept in
        (root, λ items. found items ∙ after_call t.root c calls items result)

    -- After any calls on an empty tree, a call gives the value that the first call with the same items
    -- gave, and what its own handler gives where there was none.
    pub get_or_create-first_given :
        (calls : List (Call K V)) (c : Call K V)
        → (call (after empty_tree calls) c).1
          ≡ some (given c.value (first_given calls (c.first ∷ c.others)))
    unfolding get_or_create find IsFull
    get_or_create-first_given calls c =
        let (root, found) = after_lem empty_tree calls tt in
        (get_in-IsRoot (after empty_tree calls).root c.first c.others c.value root).1
        ∙ ap (λ o. some (given c.value o)) (found (c.first ∷ c.others))
