-- ===== src/Utils/Callbacks.antt =====
-- lib/utils.js: `each`, `parallel`, `times` and `timesLimit`, which start several pieces of work and
-- call back when they are done. What each piece calls `next` with is an answer: none, or an error. The
-- answers stand in the order in which they come, and what the callback is called with is a list. A
-- callback that is replaced by `noop` is not `live`. The state of `timesLimit` holds `index + 1`, since
-- its index starts at -1 where nothing is started; `begun` lists what is started, the latest first.
-- Whether an iteration is started at once or on the next tick makes no difference to that.
pub mod Outcome
pub mod Limit
use integration_hell.Common.{
  ℕ, zero, suc, ◌+◌, min, Bool, true, false, Option, none, some, List, [], ◌∷◌, ◌++◌, leb, ◌==◌,
  if◌then◌else◌,
}

pub record Counter {ℓ} (E : Type ℓ) : Type ℓ where
  pub completed : ℕ
  pub live : Bool
  pub called : List (Option E)

abbrev pub idle {ℓ} : {E : Type ℓ} → Counter E
idle = record { completed = 0; live = true; called = [] }

abbrev pub call {ℓ} : {E : Type ℓ} → Bool → List (Option E) → Option E → List (Option E)
call live called err = if live then called ++ err ∷ [] else called

-- `next` of `each`, `parallel` and `times`.
unfoldable pub next {ℓ} : {E : Type ℓ} → ℕ → Counter E → Option E → Counter E
next count s (some e) = record {
  completed = s.completed;
  live = false;
  called = call s.live s.called (some e);
}
next count s none =
    if suc s.completed == count
    then (record { completed = suc s.completed; live = s.live; called = call s.live s.called none })
    else (record { completed = suc s.completed; live = s.live; called = s.called })

unfoldable pub answered {ℓ} : {E : Type ℓ} → ℕ → Counter E → List (Option E) → Counter E
unfolding next
answered count s [] = s
answered count s (err ∷ answers) = answered count (next count s err) answers

unfoldable pub each {ℓ} : {E : Type ℓ} → ℕ → List (Option E) → List (Option E)
unfolding answered
each length answers = if length == 0 then none ∷ [] else (answered length idle answers).called

unfoldable pub parallel {ℓ} : {E : Type ℓ} → ℕ → List (Option E) → List (Option E)
unfolding answered
parallel length answers = (answered length idle answers).called

unfoldable pub times {ℓ} : {E : Type ℓ} → ℕ → List (Option E) → List (Option E)
unfolding answered
times count answers = if count == 0 then none ∷ [] else (answered count idle answers).called

pub record Limited {ℓ} (E : Type ℓ) : Type ℓ where
  pub index1 : ℕ
  pub completed : ℕ
  pub live : Bool
  pub begun : List ℕ
  pub called : List (Option E)

abbrev pub below : ℕ → List ℕ
below zero = []
below (suc n) = n ∷ below n

abbrev pub limited_start {ℓ} : {E : Type ℓ} → ℕ → ℕ → Limited E
limited_start count limit = record {
  index1 = min limit count;
  completed = 0;
  live = true;
  begun = below (min limit count);
  called = [];
}

-- `next` of `timesLimit`.
unfoldable pub limited_next {ℓ} : {E : Type ℓ} → ℕ → Limited E → Option E → Limited E
limited_next count s (some e) = record {
  index1 = s.index1;
  completed = s.completed;
  live = false;
  begun = s.begun;
  called = call s.live s.called (some e);
}
limited_next count s none =
    if suc s.completed == count
    then (record {
      index1 = s.index1;
      completed = suc s.completed;
      live = s.live;
      begun = s.begun;
      called = call s.live s.called none;
    })
    else (if leb count s.index1
        then (record {
          index1 = suc s.index1;
          completed = suc s.completed;
          live = s.live;
          begun = s.begun;
          called = s.called;
        })
        else (record {
          index1 = suc s.index1;
          completed = suc s.completed;
          live = s.live;
          begun = s.index1 ∷ s.begun;
          called = s.called;
        }))

unfoldable pub limited_answered {ℓ} : {E : Type ℓ} → ℕ → Limited E → List (Option E) → Limited E
unfolding limited_next
limited_answered count s [] = s
limited_answered count s (err ∷ answers) = limited_answered count (limited_next count s err) answers

unfoldable pub times_limit {ℓ} : {E : Type ℓ} → ℕ → ℕ → List (Option E) → Limited E
unfolding limited_answered
times_limit count limit answers = limited_answered count (limited_start count limit) answers
