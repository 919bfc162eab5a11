-- ===== src/Metadata/EventDebouncer/Once.antt =====
-- lib/metadata/event-debouncer.js: each callback is called once.
use integration_hell.Common.{
  ℕ, ◌+◌, ◌≡◌, refl, ap, ◌∙◌, arith, inl, inr, Bool, true, false, Bool-cases, Option, none, some,
  List, [], ◌∷◌, ◌==◌, if◌then◌else◌, map,
}
use integration_hell.Common.Counts.{one_if, count, count-append}
use integration_hell.Metadata.EventDebouncer.{
  Event, KeyspaceEvents, Queue, new_queue, add_event, insert, enqueue, event_received, received,
  Call, handles, calls_back, process_each, call_all, process_keyspace, process_keyspaces,
  process_queue, shutdown,
}

abbrev pub is_call_of : ℕ → Call → Bool
is_call_of n (handles h) = false
is_call_of n (calls_back m) = m == n

abbrev pub is_event_of : ℕ → Event → Bool
is_event_of n e = e.callback == n

count-call_all :
    (n : ℕ) (es : List Event) → count (is_call_of n) (call_all es) ≡ count (is_event_of n) es
unfolding call_all
count-call_all n [] = refl
count-call_all n (e ∷ es) = ap (λ x. one_if (e.callback == n) + x) (count-call_all n es)

count-process_each :
    (n : ℕ) (es : List Event) → count (is_call_of n) (process_each es) ≡ count (is_event_of n) es
unfolding process_each
count-process_each n [] = refl
count-process_each n (e ∷ es) = omega (arith, count-process_each n es)

count-process_keyspace :
    (n : ℕ) (m : Option Event) (es : List Event)
    → count (is_call_of n) (process_keyspace (record { main_event = m; events = es }))
      ≡ count (is_event_of n) es
unfolding process_keyspace
count-process_keyspace n none es = count-process_each n es
count-process_keyspace n (some m) es = omega (arith, count-call_all n es)

count-keyspace :
    (n : ℕ) (k : KeyspaceEvents)
    → count (is_call_of n) (process_keyspace k) ≡ count (is_event_of n) k.events
count-keyspace n k = count-process_keyspace n k.main_event k.events

count-add_event :
    (n : ℕ) (e : Event) (k : KeyspaceEvents)
    → count (is_call_of n) (process_keyspace (add_event e k))
      ≡ count (is_call_of n) (process_keyspace k) + one_if (e.callback == n)
unfolding add_event
count-add_event n e k =
    count-keyspace n (add_event e k)
    ∙ count-append (is_event_of n) k.events (e ∷ [])
    ∙ omega (arith, count-keyspace n k)

count-insert :
    (n : ℕ) (e : Event) (ks : List (ℕ × KeyspaceEvents))
    → count (is_call_of n) (process_keyspaces (insert e ks))
      ≡ count (is_call_of n) (process_keyspaces ks) + one_if (e.callback == n)
unfolding process_keyspaces insert
count-insert n e [] =
    let one = count-add_event n e (record { main_event = none; events = [] }) in
    count-append (is_call_of n)
      (process_keyspace (add_event e (record { main_event = none; events = [] }))) []
    ∙ omega (arith, one, count-keyspace n (record { main_event = none; events = [] }))
count-insert n e ((name, k) ∷ ks) = elim (Bool-cases (name == e.keyspace)) [
  | inl same ↦ rw same (
      omega (
        arith,
        count-append (is_call_of n) (process_keyspace (add_event e k)) (process_keyspaces ks),
        count-append (is_call_of n) (process_keyspace k) (process_keyspaces ks),
        count-add_event n e k,
      ))
  | inr other ↦ rw other (
      omega (
        arith,
        count-append (is_call_of n) (process_keyspace k) (process_keyspaces (insert e ks)),
        count-append (is_call_of n) (process_keyspace k) (process_keyspaces ks),
        count-insert n e ks,
      ))
]

count-map :
    (n : ℕ) (cs : List ℕ) → count (is_call_of n) (map calls_back cs) ≡ count (λ m. m == n) cs
count-map n [] = refl
count-map n (c ∷ cs) = ap (λ x. one_if (c == n) + x) (count-map n cs)

-- The callbacks of a queue are those of its events, where no event of all is in it.
abbrev Matches : ℕ → Queue → Type 0
Matches n q =
    q.main_event ≡ none
    → count (is_call_of n) (process_keyspaces q.keyspaces) ≡ count (λ m. m == n) q.callbacks

enqueue-Matches :
    (n : ℕ) (e : Event) (m : Option Event) (q : Queue)
    → (m ≡ none → q.main_event ≡ none)
    → Matches n q
    → Matches n (enqueue e m q)
      × (count (λ m. m == n) (enqueue e m q).callbacks
          ≡ count (λ m. m == n) q.callbacks + one_if (e.callback == n))
unfolding enqueue
enqueue-Matches n e (some m) q f h =
    let more = count-append (λ m. m == n) q.callbacks (e.callback ∷ []) in
    ((λ absent. ground arith), omega arith)
enqueue-Matches n e none q f h =
    let more = count-append (λ m. m == n) q.callbacks (e.callback ∷ []) in
    let before = h (f refl) in
    let inserted = count-insert n e q.keyspaces in ((λ absent. omega arith), omega arith)

main_none : (b : Bool) (e : Event) (m : Option Event) → (if b then some e else m) ≡ none → m ≡ none
main_none true e m h = ground arith
main_none false e m h = h

received-Matches :
    (n : ℕ) (es : List Event) (q : Queue)
    → Matches n q
    → Matches n (received es q)
      × (count (λ m. m == n) (received es q).callbacks
          ≡ count (λ m. m == n) q.callbacks + count (is_event_of n) es)
unfolding received event_received
received-Matches n [] q h = (h, omega arith)
received-Matches n (e ∷ es) q h =
    let first =
      enqueue-Matches n e (if e.all then some e else q.main_event) q
        (main_none e.all e q.main_event) h in
    let rest = received-Matches n es (event_received e q) first.0 in
    (rest.0, rest.1 ∙ omega (arith, first.1))

process-Matches :
    (n : ℕ) (m : Option Event) (cs : List ℕ) (ks : List (ℕ × KeyspaceEvents))
    → Matches n (record { callbacks = cs; keyspaces = ks; main_event = m })
    → count
        (is_call_of n)
        (process_queue (record { callbacks = cs; keyspaces = ks; main_event = m }))
      ≡ count (λ m. m == n) cs
unfolding process_queue
process-Matches n none cs ks h = h refl
process-Matches n (some m) cs ks h = omega (arith, count-map n cs)

-- Of the events received since the queue was made, each callback is called as often as it was handed
-- over, whether the queue is processed or shut down: once for an event whose callback is its own.
pub process_queue_once :
    (n : ℕ) (es : List Event)
    → (count (is_call_of n) (process_queue (received es new_queue)) ≡ count (is_event_of n) es)
      × (count (is_call_of n) (shutdown (received es new_queue)) ≡ count (is_event_of n) es)
unfolding new_queue shutdown process_keyspaces
process_queue_once n es =
    let all = received-Matches n es new_queue (λ h. refl) in
    let q = received es new_queue in
    (
      process-Matches n q.main_event q.callbacks q.keyspaces all.0 ∙ all.1 ∙ omega arith,
      count-map n q.callbacks ∙ all.1 ∙ omega arith,
    )
