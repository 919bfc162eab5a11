-- ===== src/Concurrent/Progress.antt =====
-- lib/concurrent/index.js: the invariant of the workers' progress.
use mathlib.Core.Path.{subst}
use native.Mathlib.Nat.{
  div-add-mod', add-mul-mod_self_left, mod-eq_of_lt, add-mul-div_left, div-eq_of_lt,
  mul-le-mul_left,
}
use integration_hell.Common.{
  ℕ, ◌+◌, ◌*◌, ◌/◌, ◌%◌, ◌≤◌, ◌<◌, ◌≡◌, ◌≢◌, sym, ap, ◌∙◌, arith, ◌⊎◌, inl, inr, Bool, true, ◌&&◌,
  Bool-cases, ◌∷◌, ltb, ◌==◌,
}
use integration_hell.Common.Counts.{one_if, count}
use integration_hell.Concurrent.{
  Item, Group, Worker, waiting, about, returned, thrown, Config, Executor, index_of, set_worker,
}

-- The number of iterations that a worker has had a result or an error of.
abbrev pub progress : Worker → ℕ
progress (waiting k) = k
progress (about k) = k
progress (returned k) = k
progress (thrown k) = k

abbrev pub at_index : ℕ → ℕ × Item → Bool
at_index j item = item.0 == j

mod_at : (l i k : ℕ) → i < l → (i + l * k) % l ≡ i
mod_at l i k h = add-mul-mod_self_left i l k ∙ mod-eq_of_lt h

div_at : (l i k : ℕ) → i < l → (i + l * k) / l ≡ k
div_at l i k h =
    let positive : 0 < l = omega arith in
    add-mul-div_left i k positive ∙ ap (λ x. x + k) (div-eq_of_lt h) ∙ omega arith

at_of : (l i k j : ℕ) → j % l ≡ i → j / l ≡ k → i + l * k ≡ j
at_of l i k j p q = rw (sym p, sym q) (omega (arith, div-add-mod' j l))

-- Each index belongs to one worker and one iteration.
pub index_div : (l i k j : ℕ) → i < l → (i + l * k == j) ≡ (j % l == i && j / l == k)
index_div l i k j h = elim (Bool-cases (i + l * k == j)) [
  | inl same ↦
      let e : i + l * k ≡ j = ground arith in
      let m : j % l ≡ i = ap (λ x. x % l) (sym e) ∙ mod_at l i k h in
      let d : j / l ≡ k = ap (λ x. x / l) (sym e) ∙ div_at l i k h in ground arith
  | inr other ↦ let f = at_of l i k j in ground arith
]

set_worker-cases {ℓ} :
    (P : Worker → Type ℓ) (i j : ℕ) (w : Worker) (workers : ℕ → Worker)
    → (j ≡ i → P w)
    → P (workers j)
    → P (set_worker i w workers j)
unfolding set_worker
set_worker-cases P i j w workers f p = elim (Bool-cases (j == i)) [
  | inl same ↦ rw same (f (ground arith))
  | inr other ↦ rw other p
]

module _ (c : Config) where
  pub record Inv (s : Executor) : Type 0 where
    pub collecting : s.group.collect_results ≡ true
    pub logged :
        (j : ℕ)
        → count (at_index j) s.group.result_items
          ≡ one_if (ltb (j / c.concurrency_level) (progress (s.workers (j % c.concurrency_level))))
    pub done_in :
        (i q : ℕ)
        → i < c.concurrency_level
        → q < progress (s.workers i)
        → index_of c i q < c.parameters
    pub wait_in :
        (i k : ℕ)
        → i < c.concurrency_level
        → s.workers i ≡ waiting k
        → index_of c i k < c.parameters
    pub ended :
        (i k : ℕ)
        → i < c.concurrency_level
        → s.workers i ≡ returned k
        → (c.parameters ≤ index_of c i k) ⊎ (s.stop ≡ true)

  -- A worker whose answer is recorded.
  logged_more :
      (s : Executor) (i k : ℕ) (w : Worker) (it : Item) (j : ℕ)
      → Inv s
      → i < c.concurrency_level
      → s.workers i ≡ waiting k
      → progress w ≡ k + 1
      → count (at_index j) ((index_of c i k, it) ∷ s.group.result_items)
        ≡ one_if (
            ltb
              (j / c.concurrency_level)
              (progress (set_worker i w s.workers (j % c.concurrency_level))))
  unfolding set_worker
  logged_more s i k w it j v h e p =
      let l = v.logged j in
      let d = index_div c.concurrency_level i k j h in
      elim (Bool-cases (j % c.concurrency_level == i)) [
        | inl mine ↦
            let m : j % c.concurrency_level ≡ i = ground arith in
            let f : progress (s.workers (j % c.concurrency_level)) ≡ k =
              ap (λ x. progress (s.workers x)) m ∙ ap progress e in
            rw (d, l, f, mine, p) (ground arith)
        | inr other ↦ rw (d, l, other) (ground arith)
      ]

  more_in :
      (s : Executor) (i k : ℕ) (w : Worker) (j q : ℕ)
      → Inv s
      → i < c.concurrency_level
      → s.workers i ≡ waiting k
      → progress w ≡ k + 1
      → j < c.concurrency_level
      → q < progress (set_worker i w s.workers j)
      → index_of c j q < c.parameters
  more_in s i k w j q v h e p b =
      set_worker-cases (λ u. q < progress u → index_of c j q < c.parameters) i j w s.workers
        (λ same less.
          let q≤k : q ≤ k = omega arith in
          let last = v.wait_in i k h e in
          let below = mul-le-mul_left c.concurrency_level q≤k in omega arith)
        (v.done_in j q b)

  -- A worker that is neither at a request nor back.
  abbrev pub Moving : Worker → ℕ → Type 0
  Moving w k = (progress w ≡ k + 1) × ((n : ℕ) → w ≢ waiting n) × ((n : ℕ) → w ≢ returned n)

  pub recorded-Inv :
      (s : Executor) (i k : ℕ) (w : Worker) (it : Item) (stop : Bool) (g : Group)
      → Inv s
      → i < c.concurrency_level
      → s.workers i ≡ waiting k
      → Moving w k
      → (s.stop ≡ true → stop ≡ true)
      → g.collect_results ≡ true
      → g.result_items ≡ (index_of c i k, it) ∷ s.group.result_items
      → Inv (record { workers = set_worker i w s.workers; stop = stop; group = g })
  recorded-Inv s i k w it stop g v h e (p, not_waiting, not_returned) keeps collects items =
      record {
        collecting = collects;
        logged = λ j. rw items (logged_more s i k w it j v h e p);
        done_in = λ j q b. more_in s i k w j q v h e p b;
        wait_in = λ j n b.
            set_worker-cases (λ u. u ≡ waiting n → index_of c j n < c.parameters) i j w s.workers
              (λ same f. absurd (not_waiting n f)) (v.wait_in j n b);
        ended = λ j n b.
            set_worker-cases (λ u. u ≡ returned n → (c.parameters ≤ index_of c j n) ⊎ (stop ≡ true))
              i j w s.workers (λ same f. absurd (not_returned n f))
              (λ f. elim (v.ended j n b f) [
                | inl past ↦ inl past
                | inr stopped ↦ inr (keeps stopped)
              ]);
      }

  -- A worker that starts or gives up, with nothing recorded.
  pub moved-Inv :
      (s : Executor) (i : ℕ) (w : Worker)
      → Inv s
      → progress w ≡ progress (s.workers i)
      → ((n : ℕ) → w ≡ waiting n → index_of c i n < c.parameters)
      → ((n : ℕ) → w ≡ returned n → (c.parameters ≤ index_of c i n) ⊎ (s.stop ≡ true))
      → Inv (record { workers = set_worker i w s.workers; stop = s.stop; group = s.group })
  moved-Inv s i w v p wait end = record {
    collecting = v.collecting;
    logged = λ j.
        set_worker-cases
          (λ u.
            count (at_index j) s.group.result_items
            ≡ one_if (ltb (j / c.concurrency_level) (progress u)))
          i (j % c.concurrency_level) w s.workers
          (λ same.
            v.logged j
            ∙ ap (λ x. one_if (ltb (j / c.concurrency_level) x))
                (ap (λ x. progress (s.workers x)) same ∙ sym p))
          (v.logged j);
    done_in = λ j q b.
        set_worker-cases (λ u. q < progress u → index_of c j q < c.parameters) i j w s.workers
          (λ same less.
            v.done_in j q b
              (subst (λ x. q < progress (s.workers x)) (sym same) (subst (λ x. q < x) p less)))
          (v.done_in j q b);
    wait_in = λ j n b.
        set_worker-cases (λ u. u ≡ waiting n → index_of c j n < c.parameters) i j w s.workers
          (λ same f. omega (arith, wait n f)) (v.wait_in j n b);
    ended = λ j n b.
        set_worker-cases (λ u. u ≡ returned n → (c.parameters ≤ index_of c j n) ⊎ (s.stop ≡ true)) i
          j w s.workers
          (λ same f.
            subst (λ x. (c.parameters ≤ index_of c x n) ⊎ (s.stop ≡ true)) (sym same) (end n f))
          (v.ended j n b);
  }
