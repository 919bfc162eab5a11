-- ===== src/Metadata/EventDebouncer/Tests.antt =====
-- lib/metadata/event-debouncer.js at three events.
use integration_hell.Common.{ℕ, ◌+◌, ◌≡◌, refl, false, List, [], ◌∷◌}
use integration_hell.Common.Counts.{count}
use integration_hell.Metadata.EventDebouncer.{
  Event, new_queue, received, handles, calls_back, process_queue, shutdown,
}
use integration_hell.Metadata.EventDebouncer.Once.{is_call_of, is_event_of, process_queue_once}

abbrev event : ℕ → ℕ → Event
event keyspace callback = record {
  handler = callback + 100;
  all = false;
  keyspace = keyspace;
  of_keyspace = false;
  callback = callback;
}

abbrev events : List Event
events = event 1 7 ∷ event 2 8 ∷ event 1 9 ∷ []

processed :
    process_queue (received events new_queue)
    ≡ handles 107 ∷ calls_back 7 ∷ handles 109 ∷ calls_back 9 ∷ handles 108 ∷ calls_back 8 ∷ []
unfolding process_queue received new_queue
processed = refl

process_queue_once_example :
    (count (is_call_of 8) (process_queue (received events new_queue))
      ≡ count (is_event_of 8) events)
    × (count (is_call_of 8) (shutdown (received events new_queue)) ≡ count (is_event_of 8) events)
process_queue_once_example = process_queue_once 8 events
