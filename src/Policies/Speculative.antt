-- ===== src/Policies/Speculative.antt =====
-- lib/policies/speculative-execution.js: the two policies and their plans.
mod Tests
use native.Mathlib.Nat.{add-zero, zero-add}
use integration_hell.Common.{
  get_elem?, ℕ, zero, suc, ◌+◌, ◌-◌, ◌≤◌, ◌<◌, ◌≡◌, refl, ap, ◌∙◌, arith, inl, inr, Bool, true,
  false, Bool-cases, Option, none, some, List, [], ◌∷◌, ◌++◌, replicate, leb, ltb, ltb→lt,
  ge_of_ltb, if◌then◌else◌,
}
use integration_hell.Common.Int.{ℤ, pos, negsuc, ltb_ℤ, pos_part}

pub record Constant : Type 0 where
  pub delay : ℕ
  pub max_speculative_executions : ℕ

-- The constructor; `none` is an `ArgumentError`.
unfoldable pub new_constant : ℤ → ℤ → Option Constant
new_constant delay max =
    if ltb_ℤ delay (pos 0)
    then none
    else if ltb_ℤ (pos 0) max
    then some (record { delay = pos_part delay; max_speculative_executions = pos_part max })
    else none

-- `nextExecution` of a plan, whose state is the count of executions.
pub next_execution : Constant → ℕ → ℤ × ℕ
next_execution c executions =
    (if ltb executions c.max_speculative_executions then pos c.delay else negsuc 0, executions + 1)

-- `nextExecution` of the plan of `NoSpeculativeExecutionPolicy`
pub no_execution : ℤ
no_execution = negsuc 0

-- The answers of `calls` calls of a plan.
pub answers : Constant → ℕ → ℕ → List ℤ
unfolding next_execution
answers c zero executions = []
answers c (suc calls) executions =
    (next_execution c executions).0 ∷ answers c calls (next_execution c executions).1

answers_from :
    (c : Constant) (calls executions i : ℕ)
    → i < calls
    → get_elem? (answers c calls executions) i
      ≡ some (if ltb (executions + i) c.max_speculative_executions then pos c.delay else negsuc 0)
unfolding answers
answers_from c zero executions i h = absurd (omega arith)
answers_from c (suc calls) executions zero h = ground (arith, add-zero executions)
answers_from c (suc calls) executions (suc i) h =
    rw (shift executions i) (answers_from c calls (executions + 1) i (omega arith))
  where
    shift : (n k : ℕ) → n + suc k ≡ n + 1 + k
    shift n k = omega arith

-- Of any number of calls on a new plan, the first `maxSpeculativeExecutions` give the delay and all
-- later ones give -1.
pub get_elem?-answers :
    (c : Constant) (calls i : ℕ)
    → i < calls
    → get_elem? (answers c calls 0) i
      ≡ some (if ltb i c.max_speculative_executions then pos c.delay else negsuc 0)
get_elem?-answers c calls i h = rw zero-add at (answers_from c calls 0 i h)
