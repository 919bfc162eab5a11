-- ===== src/Concurrent/Tests.antt =====
-- lib/concurrent/index.js at a run of three items on two workers.
use integration_hell.Common.{ℕ, zero, suc, ◌≤◌, ◌<◌, ◌≡◌, refl, arith, true, false, [], ◌∷◌, ltb}
use integration_hell.Common.Counts.{one_if, count}
use integration_hell.Concurrent.{
  result, failure, Group, returned, Config, Executor, start, succeeded, failed, answered, resumed,
  answer, start_next, Reachable, at_start, after,
}
use integration_hell.Concurrent.Progress.{at_index}
use integration_hell.Concurrent.Complete.{result_items_once, result_items_complete}

abbrev config : Config
config = record { parameters = 3; concurrency_level = 2; raise_on_first_error = false }

abbrev empty : Group
empty = record {
  collect_results = true;
  max_errors = 100;
  total_executed = 0;
  errors = [];
  result_items = [];
}

-- The second worker is answered first.
abbrev s1 : Executor
s1 = answered config 1 0 (succeeded 11) (start config empty)

abbrev s2 : Executor
s2 = answered config 0 0 (failed 90) s1

abbrev s3 : Executor
s3 = resumed config 1 1 s2

abbrev s4 : Executor
s4 = resumed config 0 1 s3

abbrev s5 : Executor
s5 = answered config 0 1 (succeeded 12) s4

abbrev s6 : Executor
s6 = resumed config 0 2 s5

reached : Reachable config empty s6
unfolding start answered resumed
reached =
    after s5 s6
      (after s4 s5
        (after s3 s4
          (after s2 s3
            (after s1 s2
              (after (start config empty) s1 at_start
                (answer _ 1 0 (succeeded 11) (omega arith) refl))
              (answer s1 0 0 (failed 90) (omega arith) refl))
            (start_next s2 1 1 (omega arith) refl))
          (start_next s3 0 1 (omega arith) refl))
        (answer s4 0 1 (succeeded 12) (omega arith) refl))
      (start_next s5 0 2 (omega arith) refl)

collected : s6.group.result_items ≡ (2, result 12) ∷ (0, failure 90) ∷ (1, result 11) ∷ []
unfolding start answered resumed
collected = refl

running : s6.stop ≡ false
unfolding start answered resumed
running = refl

all_back : (i : ℕ) → i < 2 → (k : ℕ) × (s6.workers i ≡ returned k)
unfolding start answered resumed
all_back zero h = (2, refl)
all_back (suc zero) h = (1, refl)
all_back (suc (suc i)) h = absurd (omega arith)

result_items_once_example :
    count (at_index 2) s6.group.result_items ≤ one_if (ltb 2 config.parameters)
result_items_once_example = result_items_once config empty s6 2 refl refl (omega arith) reached

result_items_complete_example :
    count (at_index 2) s6.group.result_items ≡ one_if (ltb 2 config.parameters)
result_items_complete_example =
    result_items_complete config empty s6 2 refl refl (omega arith) reached running all_back
