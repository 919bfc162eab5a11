-- ===== src/Policies/Reconnection/Tests.antt =====
-- lib/policies/reconnection.js at a concrete policy.
use integration_hell.Common.{◌≤◌, ◌*◌, ◌/◌, ◌≡◌, ◌≢◌, refl, arith, true, false}
use integration_hell.Common.Int.{pos, negsuc}
use integration_hell.Policies.Reconnection.{
  Exponential, Fraction, add_jitter, add_jitter_bounds, next,
}

abbrev policy : Exponential
policy = record { base_delay = 1000; max_delay = 60000; start_with_no_delay = true }

abbrev half : Fraction
half = record { num = 1; den = 2 }

next_first : next policy (negsuc 0) half ≡ (0, pos 0)
unfolding next add_jitter
next_first = refl

next_second : next policy (pos 1) half ≡ (2000, pos 2)
unfolding next add_jitter
next_second = refl

add_jitter_bounds_example :
    (60000 * 85 / 100 ≤ add_jitter policy 60000 half)
    × (add_jitter policy 60000 half * 100 ≤ 60000 * 115)
    × (60000 ≡ policy.max_delay
        → 60000 ≢ policy.base_delay
        → add_jitter policy 60000 half ≤ policy.max_delay)
    × (60000 ≡ policy.base_delay
        → policy.start_with_no_delay ≡ false
        → policy.base_delay ≤ add_jitter policy 60000 half)
add_jitter_bounds_example = add_jitter_bounds policy 60000 half (omega arith)
