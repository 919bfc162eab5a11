-- ===== src/Encoder/Routing.antt =====
-- lib/encoder.js: the routing key of a request, `setRoutingKeyFromUser` and `setRoutingKeyFromMeta`.
-- `encode_param` gives what `encode` does for the parameter at an index. In `concatRoutingKey` each part
-- is written behind the one before, and the total length is the size of the buffer.
pub mod Parts
use integration_hell.Common.{
  ℕ, ◌+◌, Bool, true, false, Option, none, some, List, [], ◌∷◌, ◌++◌, map, length, ◌==◌,
  if◌then◌else◌,
}
use integration_hell.Encoder.Buffer.{
  Failure, unexpected_routing_key, Run, thrown, ok, and_then, write_uint16,
}
use integration_hell.Encoder.Encode.{Encoded, null_bytes, undefined_bytes, bytes}

-- What the options hold for a routing key: nothing, a buffer, an array of buffers some of which may be
-- missing, a token or a range of tokens, or something else.
pub data RoutingKey : Type 0 where
  no_key : RoutingKey
  key : List ℕ → RoutingKey
  several : List (Option (List ℕ)) → RoutingKey
  token : RoutingKey
  other : RoutingKey

-- What is used of the execution options; names of parameters are of any type.
pub record Execution (Name : Type 0) : Type 0 where
  pub routing_key : RoutingKey
  pub routing_indexes : Option (List (Option ℕ))
  pub routing_names : Option (List Name)

-- `_encodeRoutingKeyParts`, with the parts so far.
unfoldable pub encode_parts :
    List (Option ℕ) → (ℕ → Run Encoded) → ℕ → List (List ℕ) → Run (ℕ × List (List ℕ))
encode_parts [] encode_param total parts = ok (total, parts)
encode_parts (none ∷ indexes) encode_param total parts = ok (0, parts)
encode_parts (some i ∷ indexes) encode_param total parts = and_then (encode_param i) λ item.
    elim item [
      | null_bytes ↦ ok (0, parts)
      | undefined_bytes ↦ ok (0, parts)
      | bytes b ↦ encode_parts indexes encode_param (total + (length b + 3)) (parts ++ b ∷ [])
    ]

-- An error leaves the total length at 0.
abbrev pub caught : Run (ℕ × List (List ℕ)) → ℕ × List (List ℕ)
caught (thrown e) = (0, [])
caught (ok r) = r

unfoldable pub composite : List (List ℕ) → Run (List ℕ)
composite [] = ok []
composite (item ∷ parts) =
    and_then (write_uint16 (length item))
      λ size. and_then (composite parts) λ rest. ok (size ++ (item ++ 0 ∷ rest))

abbrev pub joined : List (List ℕ) → Run RoutingKey
joined (item ∷ []) = ok (key item)
joined parts = and_then (composite parts) λ b. ok (key b)

unfoldable pub concat_routing_key : List (List ℕ) → ℕ → Run RoutingKey
unfolding composite
concat_routing_key parts total = if total == 0 then ok no_key else joined parts

-- The items of the user's key, or none where one is missing, and their total length.
abbrev pub user_items : List (Option (List ℕ)) → ℕ → List (List ℕ) → Option (ℕ × List (List ℕ))
user_items [] total parts = some (total, parts)
user_items (none ∷ items) total parts = none
user_items (some item ∷ items) total parts =
    user_items items (total + (length item + 3)) (parts ++ item ∷ [])

abbrev pub only_item : Option (List ℕ) → RoutingKey
only_item none = no_key
only_item (some b) = key b

unfoldable pub user_key : List (Option (List ℕ)) → Run RoutingKey
unfolding concat_routing_key
user_key (item ∷ []) = ok (only_item item)
user_key items = elim (user_items items 0 []) [
  | none ↦ ok no_key
  | some (total, parts) ↦ concat_routing_key parts total
]

module _ {Name : Type 0} where
  abbrev pub with_key : Execution Name → RoutingKey → Execution Name
  with_key e k = record {
    routing_key = k;
    routing_indexes = e.routing_indexes;
    routing_names = e.routing_names;
  }

  -- The end of both functions, from the indexes on.
  unfoldable pub set_from_indexes :
      Execution Name → List (Option ℕ) → (ℕ → Run Encoded) → Run (Execution Name)
  unfolding encode_parts concat_routing_key
  set_from_indexes e indexes encode_param =
      let (total, parts) = caught (encode_parts indexes encode_param 0 []) in
      if total == 0 then ok e else and_then (concat_routing_key parts total) λ k. ok (with_key e k)

  unfoldable pub set_routing_key_from_meta :
      Execution Name → (ℕ → Run Encoded) → Run (Execution Name)
  unfolding set_from_indexes
  set_routing_key_from_meta e encode_param = elim e.routing_indexes [
    | none ↦ ok e
    | some indexes ↦ set_from_indexes e indexes encode_param
  ]

  -- The names come before the indexes; `keys` gives the index of a name.
  abbrev pub user_indexes : Execution Name → (Name → Option ℕ) → Option (List (Option ℕ))
  user_indexes e keys = elim e.routing_names [
    | none ↦ e.routing_indexes
    | some names ↦ some (map keys names)
  ]

  -- Where the user gives no key, and there are parameters.
  abbrev pub set_from_params :
      Execution Name → (Name → Option ℕ) → (ℕ → Run Encoded) → Run (Execution Name)
  set_from_params e keys encode_param = elim (user_indexes e keys) [
    | none ↦ ok e
    | some indexes ↦ set_from_indexes e indexes encode_param
  ]

  unfoldable pub set_routing_key_from_user :
      Execution Name → Bool → (Name → Option ℕ) → (ℕ → Run Encoded) → Run (Execution Name)
  unfolding set_from_indexes user_key
  set_routing_key_from_user e has_params keys encode_param = elim e.routing_key [
    | several items ↦ and_then (user_key items) λ k. ok (with_key e k)
    | key b ↦ ok e
    | token ↦ ok e
    | other ↦ thrown unexpected_routing_key
    | no_key ↦ if has_params then set_from_params e keys encode_param else ok e
  ]
