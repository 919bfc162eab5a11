-- ===== src/Mapper/Tree/Lookup.antt =====
-- lib/mapping/tree.js: the values that a tree holds, by their items.
use integration_hell.Common.{
  Bool, true, false, ◌&&◌, Option, none, some, List, [], ◌∷◌, if◌then◌else◌,
}
use integration_hell.Mapper.Tree.{Node, node, Edges, no_edges, edge}

module _ {K : Type 0} (same : K → K → Bool) where
  -- What follows a key in a list of items.
  abbrev pub strip : List K → List K → Option (List K)
  strip [] items = some items
  strip (y ∷ key) [] = none
  strip (y ∷ key) (x ∷ items) = if same y x then strip key items else none

  abbrev pub same_items : List K → List K → Bool
  same_items [] [] = true
  same_items [] (x ∷ items) = false
  same_items (y ∷ key) [] = false
  same_items (y ∷ key) (x ∷ items) = same y x && same_items key items

  module _ {V : Type 0} where
    abbrev pub find_rest : Option V → (K → List K → Option V) → Option (List K) → Option V
    find_rest value on none = none
    find_rest value on (some []) = value
    find_rest value on (some (x ∷ items)) = on x items

    -- The value that the tree holds for items: along the first edge with the next item, each time.
    unfoldable mutual
      pub find : Node K V → List K → Option V
      find (node tail value edges) items =
          find_rest value (λ x rest. find_on edges x rest) (strip tail items)

      pub find_on : Edges K V → K → List K → Option V
      find_on no_edges x items = none
      find_on (edge y n edges) x items = if same y x then find n items else find_on edges x items
