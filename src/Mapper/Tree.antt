-- ===== src/Mapper/Tree.antt =====
-- lib/mapping/tree.js: the radix tree. A node that hangs on an edge has a key whose first item stands
-- with the edge here, and `tail` is what follows it; the root's key is empty, and so is its tail. Items
-- are compared by `===`, which is `same`. A value is never null where it is there; what the handler of
-- the value gives is `v`, taken where the handler is called. `added` tells whether `_onItemAdded` is
-- called.
pub mod Lookup
pub mod Find
pub mod Store
mod Tests
use integration_hell.Common.{
  ℕ, ◌+◌, Bool, true, false, Option, none, some, List, [], ◌∷◌, if◌then◌else◌,
}

mutual
  pub data Node (K V : Type 0) : Type 0 where
    node : List K → Option V → Edges K V → Node K V

  pub data Edges (K V : Type 0) : Type 0 where
    no_edges : Edges K V
    edge : K → Node K V → Edges K V → Edges K V

-- How the items go along the tail of a key: to its end, or up to an item of the tail that they do not
-- have next, with what is common, that item, the tail after it, and the items that are left.
pub data Alignment (K : Type 0) : Type 0 where
  matched : List K → Alignment K
  branched : List K → K → List K → List K → Alignment K

pub record Tree (K V : Type 0) : Type 0 where
  pub root : Node K V
  pub length : ℕ
  pub emitted : List ℕ

abbrev pub empty_tree : {K V : Type 0} → Tree K V
empty_tree = record { root = node [] none no_edges; length = 0; emitted = [] }

-- What `getOrCreate` leaves in place of a part of the tree, gives, and tells of itself.
pub record Created (A V : Type 0) : Type 0 where
  pub left : A
  pub value : Option V
  pub added : Bool

module _ {K : Type 0} (same : K → K → Bool) where
  abbrev pub further : K → Alignment K → Alignment K
  further y (matched rest) = matched rest
  further y (branched common z more rest) = branched (y ∷ common) z more rest

  -- The loop over the keys at position 1 and above.
  abbrev pub align : List K → List K → Alignment K
  align [] items = matched items
  align (y ∷ tail) [] = branched [] y tail []
  align (y ∷ tail) (x ∷ items) =
      if same y x then further y (align tail items) else branched [] y tail (x ∷ items)

  module _ {V : Type 0} where
    abbrev pub no_more : Edges K V → Bool
    no_more no_edges = true
    no_more (edge x n edges) = false

    -- The value of a node that is found: it may be missing where the node only holds a branch.
    abbrev pub found_value : Option V → Edges K V → V → Option V
    found_value (some w) edges v = some w
    found_value none no_edges v = none
    found_value none (edge x n edges) v = some v

    abbrev pub leaf : List K → V → Node K V
    leaf items v = node items (some v) no_edges

    abbrev pub in_node : List K → Option V → Created (Edges K V) V → Created (Node K V) V
    in_node tail value c = record {
      left = node tail value c.left;
      value = c.value;
      added = c.added;
    }

    abbrev pub in_edge : K → Edges K V → Created (Node K V) V → Created (Edges K V) V
    in_edge x edges c = record { left = edge x c.left edges; value = c.value; added = c.added }

    abbrev pub behind : K → Node K V → Created (Edges K V) V → Created (Edges K V) V
    behind x n c = record { left = edge x n c.left; value = c.value; added = c.added }

    -- `_createBranch`, and the leaf that is pushed where there are items left.
    abbrev pub create_branch :
        List K → K → List K → Option V → Edges K V → List K → V → Created (Node K V) V
    create_branch common y more value edges [] v = record {
      left = node common (some v) (edge y (node more value edges) no_edges);
      value = some v;
      added = true;
    }
    create_branch common y more value edges (x ∷ items) v = record {
      left = node common none (edge y (node more value edges) (edge x (leaf items v) no_edges));
      value = some v;
      added = true;
    }

    -- At the end of a key: the node is found, or one of its edges goes on.
    abbrev pub get_rest :
        List K
        → Option V
        → Edges K V
        → (K → List K → Created (Edges K V) V)
        → List K
        → V
        → Created (Node K V) V
    get_rest tail value edges on [] v = record {
      left = node tail (found_value value edges v) edges;
      value = found_value value edges v;
      added = false;
    }
    get_rest tail value edges on (x ∷ items) v = in_node tail value (on x items)

    abbrev pub get_aligned :
        List K
        → Option V
        → Edges K V
        → (K → List K → Created (Edges K V) V)
        → V
        → Alignment K
        → Created (Node K V) V
    get_aligned tail value edges on v (matched rest) = get_rest tail value edges on rest v
    get_aligned tail value edges on v (branched common y more rest) =
        create_branch common y more value edges rest v

    unfoldable mutual
      pub get_in : Node K V → List K → V → Created (Node K V) V
      get_in (node tail value edges) items v =
          get_aligned tail value edges (λ x rest. get_on edges x rest v) v (align tail items)

      pub get_on : Edges K V → K → List K → V → Created (Edges K V) V
      get_on no_edges x items v = record {
        left = edge x (leaf items v) no_edges;
        value = some v;
        added = true;
      }
      get_on (edge y n edges) x items v = elim (same y x) [
        | true ↦ in_edge y edges (get_in n items v)
        | false ↦ behind y n (get_on edges x items v)
      ]

    unfoldable pub get_or_create : Tree K V → List K → V → Tree K V × Option V
    unfolding get_in
    get_or_create t items v =
        let c = get_in t.root items v in
        (
          record {
            root = c.left;
            length = if c.added then t.length + 1 else t.length;
            emitted = if c.added then (t.length + 1) ∷ t.emitted else t.emitted;
          },
          c.value,
        )
