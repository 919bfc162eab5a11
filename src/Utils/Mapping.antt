-- ===== src/Utils/Mapping.antt =====
-- lib/utils.js: `mapEach`, which `map` and `forEachOf` are, from the calls of its items' callbacks on. An
-- item's callback is called with an error or none and with what the item is transformed to; the calls
-- stand in the order in which they come, each with the item's index.
pub mod Results
use integration_hell.Common.{
  ℕ, suc, Bool, true, false, Option, none, some, List, [], ◌∷◌, ◌++◌, replicate, set, ◌==◌,
  if◌then◌else◌,
}

-- What the callback is called with.
pub data Called {ℓ} (E B : Type ℓ) : Type ℓ where
  failed : E → Called E B
  results : List (Option B) → Called E B

pub record Mapping {ℓ} (E B : Type ℓ) : Type ℓ where
  pub completed : ℕ
  pub live : Bool
  pub result : List (Option B)
  pub called : List (Called E B)

module _ {ℓ} {E B : Type ℓ} where
  abbrev pub new_mapping : ℕ → Mapping E B
  new_mapping length = record {
    completed = 0;
    live = true;
    result = replicate length none;
    called = [];
  }

  abbrev pub call_with : Bool → List (Called E B) → Called E B → List (Called E B)
  call_with live called x = if live then called ++ x ∷ [] else called

  -- `mapItemCallback` with the `next` that it calls.
  unfoldable pub item_callback : ℕ → Mapping E B → ℕ → Option E → B → Mapping E B
  item_callback length s i (some e) transformed = record {
    completed = s.completed;
    live = false;
    result = set s.result i (some transformed);
    called = call_with s.live s.called (failed e);
  }
  item_callback length s i none transformed = record {
    completed = suc s.completed;
    live = s.live;
    result = set s.result i (some transformed);
    called =
        if suc s.completed == length
        then call_with s.live s.called (results (set s.result i (some transformed)))
        else s.called;
  }

  unfoldable pub item_callbacks : ℕ → Mapping E B → List (ℕ × Option E × B) → Mapping E B
  unfolding item_callback
  item_callbacks length s [] = s
  item_callbacks length s ((i, err, transformed) ∷ calls) =
      item_callbacks length (item_callback length s i err transformed) calls

  unfoldable pub map_each : ℕ → List (ℕ × Option E × B) → List (Called E B)
  unfolding item_callbacks
  map_each length calls =
      if length == 0
      then results [] ∷ []
      else (item_callbacks length (new_mapping length) calls).called
