-- ===== src/Concurrent.antt =====
-- lib/concurrent/index.js: `ArrayBasedExecutor` and `ResultSetGroup`. The requests are answered in any
-- order: a step of the relation is one answer, an error of the preparation or of the execution
-- included. The prepared statements and the parameters, which are handed to the client, are left out,
-- and results and errors are numbers that stand for them.
pub mod Progress
pub mod Complete
mod Tests
use integration_hell.Common.{
  ℕ, zero, suc, ◌+◌, ◌*◌, ◌<◌, ◌≡◌, Bool, true, false, ◌||◌, Option, none, some, List, [], ◌∷◌,
  ◌++◌, ltb, leb, ◌==◌, if◌then◌else◌, length,
}

-- An item of `resultItems`.
pub data Item : Type 0 where
  result : ℕ → Item
  failure : ℕ → Item

-- `result_items` is the history of the assignments to `resultItems`, by index.
pub record Group : Type 0 where
  pub collect_results : Bool
  pub max_errors : ℕ
  pub total_executed : ℕ
  pub errors : List ℕ
  pub result_items : List (ℕ × Item)

pub set_result_item : ℕ → ℕ → Group → Group
set_result_item index rs g = record {
  collect_results = g.collect_results;
  max_errors = g.max_errors;
  total_executed = g.total_executed + 1;
  errors = g.errors;
  result_items = if g.collect_results then (index, result rs) ∷ g.result_items else g.result_items;
}

pub set_error : ℕ → ℕ → Group → Group
set_error index err g = record {
  collect_results = g.collect_results;
  max_errors = g.max_errors;
  total_executed = g.total_executed + 1;
  errors = if ltb (length g.errors) g.max_errors then g.errors ++ err ∷ [] else g.errors;
  result_items =
      if g.collect_results then (index, failure err) ∷ g.result_items else g.result_items;
}

-- What a chain of `_executeOneAtATime` is doing: it waits for the answer to the request of an
-- iteration, it is about to start an iteration, it has returned before one, or it has thrown.
pub data Worker : Type 0 where
  waiting : ℕ → Worker
  about : ℕ → Worker
  returned : ℕ → Worker
  thrown : ℕ → Worker

pub record Config : Type 0 where
  pub parameters : ℕ
  pub concurrency_level : ℕ
  pub raise_on_first_error : Bool

pub record Executor : Type 0 where
  pub workers : ℕ → Worker
  pub stop : Bool
  pub group : Group

abbrev pub index_of : Config → ℕ → ℕ → ℕ
index_of c initial iteration = initial + c.concurrency_level * iteration

-- The start of `_executeOneAtATime`, up to its request.
pub enter : Config → Bool → ℕ → ℕ → Worker
enter c stop initial iteration =
    if leb c.parameters (index_of c initial iteration) || stop
    then returned iteration
    else waiting iteration

pub set_worker : ℕ → Worker → (ℕ → Worker) → ℕ → Worker
set_worker i w workers j = if j == i then w else workers j

-- `execute` up to the first answer: every worker below the level has started.
pub start : Config → Group → Executor
unfolding enter
start c g = record { workers = λ i. enter c false i 0; stop = false; group = g }

pub data Answer : Type 0 where
  succeeded : ℕ → Answer
  failed : ℕ → Answer
  prepare_failed : ℕ → Answer

-- The answer to the request of worker `i` in its iteration `k`. An error in `prepareQuery` is not
-- caught by the worker.
pub answered : Config → ℕ → ℕ → Answer → Executor → Executor
unfolding set_worker set_result_item set_error
answered c i k (succeeded rs) s = record {
  workers = set_worker i (about (k + 1)) s.workers;
  stop = s.stop;
  group = set_result_item (index_of c i k) rs s.group;
}
answered c i k (failed err) s =
    if c.raise_on_first_error
    then record {
      workers = set_worker i (thrown (k + 1)) s.workers;
      stop = true;
      group = set_error (index_of c i k) err s.group;
    }
    else record {
      workers = set_worker i (about (k + 1)) s.workers;
      stop = s.stop;
      group = set_error (index_of c i k) err s.group;
    }
answered c i k (prepare_failed err) s = record {
  workers = set_worker i (thrown k) s.workers;
  stop = s.stop;
  group = s.group;
}

pub resumed : Config → ℕ → ℕ → Executor → Executor
unfolding enter set_worker
resumed c i k s = record {
  workers = set_worker i (enter c s.stop i k) s.workers;
  stop = s.stop;
  group = s.group;
}

pub data Step (c : Config) : Executor → Executor → Type 0 where
  answer :
      (s : Executor) (i k : ℕ) (a : Answer)
      → i < c.concurrency_level
      → s.workers i ≡ waiting k
      → Step c s (answered c i k a s)
  -- The next iteration starts in a later task, when other workers may have been answered.
  start_next :
      (s : Executor) (i k : ℕ)
      → i < c.concurrency_level
      → s.workers i ≡ about k
      → Step c s (resumed c i k s)

pub data Reachable (c : Config) (g : Group) : Executor → Type 0 where
  at_start : Reachable c g (start c g)
  after : (s t : Executor) → Reachable c g s → Step c s t → Reachable c g t
