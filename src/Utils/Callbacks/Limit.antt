-- ===== src/Utils/Callbacks/Limit.antt =====
-- lib/utils.js: what `timesLimit` starts, where each iteration succeeds.
use integration_hell.Common.{
  ℕ, zero, suc, ◌+◌, ◌-◌, ◌≤◌, ◌<◌, ◌≡◌, refl, sym, ap, ◌∙◌, arith, min, true, false, Bool-cases,
  inl, inr, none, [], ◌∷◌, length, replicate, leb, ◌==◌,
}
use integration_hell.Utils.Callbacks.{
  Limited, below, limited_start, limited_next, limited_answered, times_limit,
}

length-below : (n : ℕ) → length (below n) ≡ n
length-below zero = refl
length-below (suc n) = ap suc (length-below n)

module _ {ℓ} {E : Type ℓ} (count limit : ℕ) (work : 0 < count) (allowed : 0 < limit) where
  abbrev state : ℕ → ℕ → ℕ → Limited E
  state i k n = record { index1 = i; completed = k; live = true; begun = below n; called = [] }

  -- After so many successes, fewer than the count.
  abbrev after : ℕ → Limited E
  after k = state (min limit count + k) k (min (min limit count + k) count)

  abbrev finished : ℕ → Limited E
  finished i = record {
    index1 = i;
    completed = count;
    live = true;
    begun = below count;
    called = none ∷ [];
  }

  same_state : (i j k n m : ℕ) → i ≡ j → n ≡ m → state i k n ≡ state j k m
  same_state i j k n m p q = ap (λ x. state x k n) p ∙ ap (λ x. state j k x) q

  first_state : limited_start count limit ≡ after 0
  first_state =
      same_state (min limit count) (min limit count + 0) 0 (min limit count)
        (min (min limit count + 0) count) (omega arith) (omega arith)

  step : (k : ℕ) → suc k < count → limited_next count (after k) none ≡ after (suc k)
  unfolding limited_next
  step k h =
      let more : (suc k == count) ≡ false = ground arith in
      let i = min limit count + k in
      elim (Bool-cases (leb count i)) [
        | inl full ↦
            let above : count ≤ i = ground arith in
            rw (more, full)
              (same_state (suc i) (min limit count + suc k) (suc k) (min i count)
                (min (min limit count + suc k) count) (omega arith) (omega arith))
        | inr room ↦
            let inside : i < count = ground arith in
            let n : min i count ≡ i = omega arith in
            let m : min (min limit count + suc k) count ≡ suc i = omega arith in
            let j : min limit count + suc k ≡ suc i = omega arith in rw (more, room, n, m, j) refl
      ]

  last_step :
      (k : ℕ) → suc k ≡ count → limited_next count (after k) none ≡ finished (min limit count + k)
  unfolding limited_next
  last_step k h =
      let last : (suc k == count) ≡ true = ground arith in
      let all_begun : min (min limit count + k) count ≡ count = omega arith in
      rw (last, all_begun, h) refl

  run_from :
      (left k : ℕ)
      → k + left < count
      → limited_answered count (after k) (replicate left none) ≡ after (k + left)
  unfolding limited_answered
  run_from zero k h = ap after (omega arith)
  run_from (suc left) k h =
      ap (λ s. limited_answered count s (replicate left none)) (step k (omega arith))
      ∙ run_from left (suc k) (omega arith)
      ∙ ap after (omega arith)

  run_all :
      (left k : ℕ)
      → suc (k + left) ≡ count
      → limited_answered count (after k) (replicate (suc left) none)
        ≡ finished (min limit count + (k + left))
  unfolding limited_answered
  run_all zero k h =
      last_step k (omega arith) ∙ ap (λ x. finished (min limit count + x)) (omega arith)
  run_all (suc left) k h =
      ap (λ s. limited_answered count s (replicate (suc left) none)) (step k (omega arith))
      ∙ run_all left (suc k) (omega arith)
      ∙ ap (λ x. finished (min limit count + x)) (omega arith)

  -- For a count and a limit of at least 1: while fewer iterations than the count have succeeded and none has failed, there is at least one
  -- under way and never more than the limit, each is started once and in order, and the callback is
  -- not called.
  pub times_limit-bound :
      (k : ℕ)
      → k < count
      → (n : ℕ) × ((times_limit {E = E} count limit (replicate k none)).begun ≡ below n)
        × (k < n)
        × (n ≤ k + limit)
        × (n ≤ count)
        × ((times_limit {E = E} count limit (replicate k none)).called ≡ [])
  unfolding times_limit
  times_limit-bound k h =
      let e : times_limit count limit (replicate k none) ≡ after k =
        ap (λ s. limited_answered count s (replicate k none)) first_state
        ∙ run_from k 0 (omega arith)
        ∙ ap after (omega arith) in
      (
        min (min limit count + k) count,
        ap (λ s. s.begun) e,
        omega arith,
        omega arith,
        omega arith,
        ap (λ s. s.called) e,
      )

  -- For a count and a limit of at least 1: when as many iterations have succeeded as are asked for, each has been started once, in order, and
  -- the callback has been called once, without an error.
  pub times_limit_done :
      ((times_limit {E = E} count limit (replicate count none)).begun ≡ below count)
      × ((times_limit {E = E} count limit (replicate count none)).called ≡ none ∷ [])
  unfolding times_limit
  times_limit_done =
      let left = count - 1 in
      let whole : suc left ≡ count = omega arith in
      let e : limited_answered count (after 0) (replicate (suc left) none)
          ≡ finished (min limit count + (0 + left)) =
        run_all left 0 (omega arith) in
      let f : times_limit count limit (replicate count none)
          ≡ finished (min limit count + (0 + left)) =
        ap (λ s. limited_answered count s (replicate count none)) first_state
        ∙ ap (λ n. limited_answered count (after 0) (replicate n none)) (sym whole)
        ∙ e in
      (ap (λ s. s.begun) f, ap (λ s. s.called) f)
