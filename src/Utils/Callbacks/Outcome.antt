-- ===== src/Utils/Callbacks/Outcome.antt =====
-- lib/utils.js: what the callbacks of `each`, `parallel`, `times` and `timesLimit` are called with.
use integration_hell.Common.{
  ℕ, suc, ◌+◌, ◌-◌, ◌≤◌, ◌<◌, ◌≡◌, ◌≢◌, refl, ap, ◌∙◌, arith, Bool, true, false, Bool-cases, inl,
  inr, Option, none, some, List, [], ◌∷◌, length, leb, ◌==◌, if◌then◌else◌,
}
use integration_hell.Utils.Callbacks.{
  Counter, Limited, call, next, answered, each, parallel, times, limited_start, limited_next,
  limited_answered, times_limit,
}

-- What the callback should be told: the first error, or that all is done after as many answers as
-- there is work, and nothing before that.
unfoldable pub outcome {ℓ} : {E : Type ℓ} → ℕ → List (Option E) → List (Option E)
outcome left [] = []
outcome left (some e ∷ answers) = some e ∷ []
outcome left (none ∷ answers) = if left == 1 then none ∷ [] else outcome (left - 1) answers

next_last {ℓ} :
    {E : Type ℓ} (count : ℕ) (s : Counter E)
    → suc s.completed ≡ count
    → next count s none
      ≡ record { completed = suc s.completed; live = s.live; called = call s.live s.called none }
unfolding next
next_last count s h = let last : (suc s.completed == count) ≡ true = ground arith in rw last refl

next_more {ℓ} :
    {E : Type ℓ} (count : ℕ) (s : Counter E)
    → suc s.completed ≢ count
    → next count s none ≡ record { completed = suc s.completed; live = s.live; called = s.called }
unfolding next
next_more count s h = let more : (suc s.completed == count) ≡ false = ground arith in rw more refl

module _ {ℓ} {E : Type ℓ} (count : ℕ) where
  abbrev calls : ℕ → Bool → List (Option E) → List (Option E) → List (Option E)
  calls done live called answers =
      (answered count (record { completed = done; live = live; called = called }) answers).called

  then_calls :
      (s s' : Counter E) (answers : List (Option E))
      → s ≡ s'
      → (answered count s answers).called ≡ (answered count s' answers).called
  then_calls s s' answers e = ap (λ x. (answered count x answers).called) e

  -- After an error, nothing is called.
  dead : (done : ℕ) (called answers : List (Option E)) → calls done false called answers ≡ called
  unfolding answered next
  dead done called [] = refl
  dead done called (some e ∷ answers) = dead done called answers
  dead done called (none ∷ answers) =
      let s : Counter E = record { completed = done; live = false; called = called } in
      elim (Bool-cases (suc done == count)) [
        | inl last ↦
            then_calls _ _ answers (next_last count s (ground arith))
            ∙ dead (suc done) called answers
        | inr more ↦
            then_calls _ _ answers (next_more count s (ground arith))
            ∙ dead (suc done) called answers
      ]

  no_more :
      (done : ℕ) (live : Bool) (called rest : List (Option E))
      → length rest ≡ 0
      → calls done live called rest ≡ called
  unfolding answered
  no_more done live called [] e = refl
  no_more done live called (x ∷ rest) e = absurd (omega arith)

  counted :
      (done : ℕ) (answers : List (Option E))
      → done < count
      → done + length answers ≤ count
      → calls done true [] answers ≡ outcome (count - done) answers
  unfolding answered next outcome
  counted done [] h fits = refl
  counted done (some e ∷ answers) h fits = dead done (some e ∷ []) answers
  counted done (none ∷ answers) h fits =
      let s : Counter E = record { completed = done; live = true; called = [] } in
      elim (Bool-cases (suc done == count)) [
        | inl last ↦
            let one : (count - done == 1) ≡ true = ground arith in
            rw one (
              then_calls _ _ answers (next_last count s (ground arith))
              ∙ no_more (suc done) true (none ∷ []) answers (ground arith))
        | inr more ↦
            let others : (count - done == 1) ≡ false = ground arith in
            let left : count - suc done ≡ count - done - 1 = omega arith in
            rw others (
              then_calls _ _ answers (next_more count s (ground arith))
              ∙ counted (suc done) answers (ground arith) (omega arith)
              ∙ ap (λ x. outcome x answers) left)
      ]

  outcome_done :
      (answers : List (Option E)) (left : ℕ)
      → 0 < left
      → length answers ≡ left
      → length (outcome left answers) ≡ 1
  unfolding outcome
  outcome_done [] left h e = absurd (omega arith)
  outcome_done (some x ∷ answers) left h e = refl
  outcome_done (none ∷ answers) left h e = elim (Bool-cases (left == 1)) [
    | inl one ↦ rw one refl
    | inr more ↦ rw more (outcome_done answers (left - 1) (ground arith) (ground arith))
  ]

  counted_all :
      (answers : List (Option E))
      → 0 < count
      → length answers ≤ count
      → calls 0 true [] answers ≡ outcome count answers
  counted_all answers h fits =
      let left : count - 0 ≡ count = omega arith in
      counted 0 answers h (omega arith) ∙ ap (λ x. outcome x answers) left

  -- What `timesLimit` keeps, less what is started.
  abbrev forget : Limited E → Counter E
  forget s = record { completed = s.completed; live = s.live; called = s.called }

  forget-next :
      (s : Limited E) (err : Option E)
      → forget (limited_next count s err) ≡ next count (forget s) err
  unfolding limited_next next
  forget-next s (some e) = refl
  forget-next s none = elim (Bool-cases (suc s.completed == count)) [
    | inl last ↦ rw last refl
    | inr more ↦ elim (Bool-cases (leb count s.index1)) [
      | inl full ↦ rw (more, full) refl
      | inr room ↦ rw (more, room) refl
    ]
  ]

  forget-answered :
      (answers : List (Option E)) (s : Limited E)
      → forget (limited_answered count s answers) ≡ answered count (forget s) answers
  unfolding limited_answered answered
  forget-answered [] s = refl
  forget-answered (err ∷ answers) s =
      forget-answered answers (limited_next count s err)
      ∙ ap (λ x. answered count x answers) (forget-next s err)

-- Where there is work, each piece of which calls back at most once, in any order, `each`, `times` and
-- `parallel`, and `timesLimit` at any limit, call their callback with the first error, or with none once
-- all have called back, and not before.
pub each-outcome {ℓ} :
    {E : Type ℓ} (count limit : ℕ) (answers : List (Option E))
    → 0 < count
    → length answers ≤ count
    → (each count answers ≡ outcome count answers)
      × (times count answers ≡ outcome count answers)
      × (parallel count answers ≡ outcome count answers)
      × ((times_limit count limit answers).called ≡ outcome count answers)
unfolding each times parallel times_limit
each-outcome count limit answers h fits =
    let work : (count == 0) ≡ false = ground arith in
    let same = counted_all count answers h fits in
    let limited = ap (λ s. s.called) (forget-answered count answers (limited_start count limit)) in
    (rw work same, rw work same, same, limited ∙ same)

-- The callbacks of `each` and of `times` are called exactly once when each piece of work has called
-- back, whether with an error or not, and at once where there is none.
pub each_once {ℓ} :
    {E : Type ℓ} (count : ℕ) (answers : List (Option E))
    → length answers ≡ count
    → (length (each count answers) ≡ 1) × (length (times count answers) ≡ 1)
unfolding each times
each_once count answers all_done = elim (Bool-cases (count == 0)) [
  | inl nothing ↦ rw nothing (refl, refl)
  | inr work ↦
      let some_work : 0 < count = ground arith in
      let (a, b, c, d) = each-outcome count count answers some_work (omega arith) in
      let one = outcome_done count answers count some_work all_done in
      (ap length a ∙ one, ap length b ∙ one)
]
