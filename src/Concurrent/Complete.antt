-- ===== src/Concurrent/Complete.antt =====
-- lib/concurrent/index.js: every item is executed, once, in every order of the answers.
use mathlib.Core.Path.{subst}
use native.Mathlib.Nat.{mul-le-mul_left, div-add-mod', mod-lt}
use integration_hell.Common.{
  ℕ, ◌+◌, ◌*◌, ◌/◌, ◌%◌, ◌≤◌, ◌<◌, ◌≡◌, refl, sym, ap, ◌∙◌, arith, ◌⊎◌, inl, inr, Bool, true, false,
  ◌||◌, Bool-cases, [], ◌∷◌, ltb, leb, if◌then◌else◌,
}
use integration_hell.Common.Counts.{one_if, count}
use integration_hell.Concurrent.{
  result, failure, Group, set_result_item, set_error, waiting, about, returned, thrown, Config,
  Executor, index_of, enter, start, Answer, succeeded, failed, prepare_failed, answered, resumed,
  Step, answer, start_next, Reachable, at_start, after,
}
use integration_hell.Concurrent.Progress.{progress, at_index, Inv, Moving, recorded-Inv, moved-Inv}

module _ (c : Config) where
  about_Moving : (k : ℕ) → Moving c (about (k + 1)) k
  about_Moving k = (refl, (λ n. ground arith), (λ n. ground arith))

  thrown_Moving : (k : ℕ) → Moving c (thrown (k + 1)) k
  thrown_Moving k = (refl, (λ n. ground arith), (λ n. ground arith))

  enter-progress : (stop : Bool) (i k : ℕ) → progress (enter c stop i k) ≡ k
  unfolding enter
  enter-progress stop i k = ground arith

  enter_waiting :
      (stop : Bool) (i k n : ℕ) → enter c stop i k ≡ waiting n → index_of c i n < c.parameters
  unfolding enter
  enter_waiting stop i k n e =
      let m : k ≡ n = sym (enter-progress stop i k) ∙ ap progress e in
      elim (Bool-cases (leb c.parameters (index_of c i k) || stop)) [
        | inl over ↦ let f = rw over at e in ground arith
        | inr fine ↦ subst (λ x. index_of c i x < c.parameters) m (ground arith)
      ]

  enter_returned :
      (stop : Bool) (i k n : ℕ)
      → enter c stop i k ≡ returned n
      → (c.parameters ≤ index_of c i n) ⊎ (stop ≡ true)
  unfolding enter
  enter_returned stop i k n e =
      let m : k ≡ n = sym (enter-progress stop i k) ∙ ap progress e in
      elim (Bool-cases (leb c.parameters (index_of c i k) || stop)) [
        | inl over ↦ subst (λ x. (c.parameters ≤ index_of c i x) ⊎ (stop ≡ true)) m (ground arith)
        | inr fine ↦ let f = rw fine at e in ground arith
      ]

  collected :
      (g : Group) (i : ℕ) (rs : ℕ)
      → g.collect_results ≡ true
      → ((set_result_item i rs g).collect_results ≡ true)
        × ((set_result_item i rs g).result_items ≡ (i, result rs) ∷ g.result_items)
        × ((set_error i rs g).collect_results ≡ true)
        × ((set_error i rs g).result_items ≡ (i, failure rs) ∷ g.result_items)
  unfolding set_result_item set_error
  collected g i rs e = rw e (refl, refl, refl, refl)

  if_Inv : (b : Bool) (s t : Executor) → Inv c s → Inv c t → Inv c (if b then s else t)
  if_Inv true s t v w = v
  if_Inv false s t v w = w

  answered-Inv :
      (s : Executor) (i k : ℕ) (a : Answer)
      → i < c.concurrency_level
      → s.workers i ≡ waiting k
      → Inv c s
      → Inv c (answered c i k a s)
  unfolding answered
  answered-Inv s i k (succeeded rs) h e v =
      let g = collected s.group (index_of c i k) rs v.collecting in
      recorded-Inv c s i k (about (k + 1)) (result rs) s.stop
        (set_result_item (index_of c i k) rs s.group) v h e (about_Moving k) (λ x. x) g.0 g.1
  answered-Inv s i k (failed err) h e v =
      let g = collected s.group (index_of c i k) err v.collecting in
      if_Inv c.raise_on_first_error _ _
        (recorded-Inv c s i k (thrown (k + 1)) (failure err) true
          (set_error (index_of c i k) err s.group) v h e (thrown_Moving k) (λ x. refl) g.2 g.3)
        (recorded-Inv c s i k (about (k + 1)) (failure err) s.stop
          (set_error (index_of c i k) err s.group) v h e (about_Moving k) (λ x. x) g.2 g.3)
  answered-Inv s i k (prepare_failed err) h e v =
      moved-Inv c s i (thrown k) v (sym (ap progress e)) (λ n. ground arith) (λ n. ground arith)

  Step-Inv : (s t : Executor) → Step c s t → Inv c s → Inv c t
  unfolding resumed
  Step-Inv s t (answer r i k a h e) v = answered-Inv r i k a h e v
  Step-Inv s t (start_next r i k h e) v =
      moved-Inv c r i (enter c r.stop i k) v (enter-progress r.stop i k ∙ sym (ap progress e))
        (enter_waiting r.stop i k) (enter_returned r.stop i k)

  start-Inv : (g : Group) → g.collect_results ≡ true → g.result_items ≡ [] → Inv c (start c g)
  unfolding start
  start-Inv g e f = record {
    collecting = e;
    logged = λ j. rw (f, enter-progress false (j % c.concurrency_level) 0) (ground arith);
    done_in = λ i q b less. absurd (omega (arith, less, enter-progress false i 0));
    wait_in = λ i k b. enter_waiting false i 0 k;
    ended = λ i k b. enter_returned false i 0 k;
  }

  reachable-Inv :
      (g : Group) (s : Executor)
      → g.collect_results ≡ true
      → g.result_items ≡ []
      → Reachable c g s
      → Inv c s
  reachable-Inv g s e f at_start = start-Inv g e f
  reachable-Inv g s e f (after r t reached step) = Step-Inv r t step (reachable-Inv g r e f reached)

  index_back : (j : ℕ) → index_of c (j % c.concurrency_level) (j / c.concurrency_level) ≡ j
  index_back j = omega (arith, div-add-mod' j c.concurrency_level)

  -- With results collected in a new group, and at least one worker: in every reachable state, each
  -- item has at most one result or error, and no index from the number of parameters on has one.
  pub result_items_once :
      (g : Group) (s : Executor) (j : ℕ)
      → g.collect_results ≡ true
      → g.result_items ≡ []
      → 0 < c.concurrency_level
      → Reachable c g s
      → count (at_index j) s.group.result_items ≤ one_if (ltb j c.parameters)
  result_items_once g s j e f positive reached =
      let v = reachable-Inv g s e f reached in
      let back = index_back j in
      let inside =
        v.done_in (j % c.concurrency_level) (j / c.concurrency_level) (mod-lt j positive) in
      rw (v.logged j) (ground arith)

  -- With results collected in a new group, and at least one worker: in every reachable state where
  -- every worker has returned and none was stopped, each item has exactly one result or error, and no
  -- index from the number of parameters on has one.
  pub result_items_complete :
      (g : Group) (s : Executor) (j : ℕ)
      → g.collect_results ≡ true
      → g.result_items ≡ []
      → 0 < c.concurrency_level
      → Reachable c g s
      → s.stop ≡ false
      → ((i : ℕ) → i < c.concurrency_level → (k : ℕ) × (s.workers i ≡ returned k))
      → count (at_index j) s.group.result_items ≡ one_if (ltb j c.parameters)
  result_items_complete g s j e f positive reached running all_back =
      let v = reachable-Inv g s e f reached in
      let mine = all_back (j % c.concurrency_level) (mod-lt j positive) in
      let back = index_back j in
      let inside =
        v.done_in (j % c.concurrency_level) (j / c.concurrency_level) (mod-lt j positive) in
      let past : c.parameters ≤ index_of c (j % c.concurrency_level) mine.0 =
        elim (v.ended (j % c.concurrency_level) mine.0 (mod-lt j positive) mine.1) [
          | inl over ↦ over
          | inr stopped ↦ ground arith
        ] in
      let order : mine.0 ≤ j / c.concurrency_level
          → c.concurrency_level * mine.0 ≤ c.concurrency_level * (j / c.concurrency_level) =
        mul-le-mul_left c.concurrency_level in
      let done : progress (s.workers (j % c.concurrency_level)) ≡ mine.0 = ap progress mine.1 in
      rw (v.logged j) (ground arith)
