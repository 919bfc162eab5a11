-- ===== src/Metadata/EventDebouncer.antt =====
-- lib/metadata/event-debouncer.js: the queue of events, and what is called when it is processed. A
-- handler and a callback are numbers that stand for them; the delay shows only as the moment of
-- `process`, which is when the timer fires or at once. A handler's promise is settled once.
pub mod Once
mod Tests
use integration_hell.Common.{
  ℕ, Bool, true, false, Option, none, some, List, [], ◌∷◌, ◌++◌, ◌==◌, if◌then◌else◌, map,
}

-- `keyspace` is the key under which the event is kept; `of_keyspace` tells that `cqlObject` is
-- undefined.
pub record Event : Type 0 where
  pub handler : ℕ
  pub all : Bool
  pub keyspace : ℕ
  pub of_keyspace : Bool
  pub callback : ℕ

pub record KeyspaceEvents : Type 0 where
  pub main_event : Option Event
  pub events : List Event

pub record Queue : Type 0 where
  pub callbacks : List ℕ
  pub keyspaces : List (ℕ × KeyspaceEvents)
  pub main_event : Option Event

pub new_queue : Queue
new_queue = record { callbacks = []; keyspaces = []; main_event = none }

-- The event at its keyspace: superseding the others where it is of the whole keyspace.
pub add_event : Event → KeyspaceEvents → KeyspaceEvents
add_event e k = record {
  main_event = if e.of_keyspace then some e else k.main_event;
  events = k.events ++ e ∷ [];
}

pub insert : Event → List (ℕ × KeyspaceEvents) → List (ℕ × KeyspaceEvents)
unfolding add_event
insert e [] = (e.keyspace, add_event e (record { main_event = none; events = [] })) ∷ []
insert e ((name, k) ∷ keyspaces) =
    let rest = insert e keyspaces in
    if name == e.keyspace then (name, add_event e k) ∷ keyspaces else (name, k) ∷ rest

-- `eventReceived` from the moment where the queue's main event is known.
pub enqueue : Event → Option Event → Queue → Queue
unfolding insert
enqueue e (some m) q = record {
  callbacks = q.callbacks ++ e.callback ∷ [];
  keyspaces = q.keyspaces;
  main_event = some m;
}
enqueue e none q = record {
  callbacks = q.callbacks ++ e.callback ∷ [];
  keyspaces = insert e q.keyspaces;
  main_event = none;
}

-- `eventReceived`, up to the timer.
pub event_received : Event → Queue → Queue
unfolding enqueue
event_received e q = enqueue e (if e.all then some e else q.main_event) q

pub received : List Event → Queue → Queue
unfolding event_received
received [] q = q
received (e ∷ events) q = received events (event_received e q)

-- A call of a handler or of a callback.
pub data Call : Type 0 where
  handles : ℕ → Call
  calls_back : ℕ → Call

pub process_each : List Event → List Call
process_each [] = []
process_each (e ∷ events) = handles e.handler ∷ calls_back e.callback ∷ process_each events

pub call_all : List Event → List Call
call_all [] = []
call_all (e ∷ events) = calls_back e.callback ∷ call_all events

pub process_keyspace : KeyspaceEvents → List Call
unfolding process_each call_all
process_keyspace k = elim k.main_event [
  | some m ↦ handles m.handler ∷ call_all k.events
  | none ↦ process_each k.events
]

pub process_keyspaces : List (ℕ × KeyspaceEvents) → List Call
unfolding process_keyspace
process_keyspaces [] = []
process_keyspaces ((name, k) ∷ keyspaces) = process_keyspace k ++ process_keyspaces keyspaces

pub process_queue : Queue → List Call
unfolding process_keyspaces
process_queue q = elim q.main_event [
  | some m ↦ handles m.handler ∷ map calls_back q.callbacks
  | none ↦ process_keyspaces q.keyspaces
]

-- `shutdown` with a queue
pub shutdown : Queue → List Call
shutdown q = map calls_back q.callbacks
