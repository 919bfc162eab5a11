-- ===== src/Policies/Speculative/Tests.antt =====
-- lib/policies/speculative-execution.js at a concrete policy.
use integration_hell.Common.{◌≡◌, refl, some}
use integration_hell.Common.Int.{pos}
use integration_hell.Policies.Speculative.{Constant, new_constant}

abbrev twice : Constant
twice = record { delay = 20; max_speculative_executions = 2 }

new_twice : new_constant (pos 20) (pos 2) ≡ some twice
unfolding new_constant
new_twice = refl
