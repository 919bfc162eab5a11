-- ===== src/Policies/Timestamp/Tests.antt =====
-- lib/policies/timestamp-generation.js at concrete readings of the clock.
use integration_hell.Common.{ℕ, List, [], ◌∷◌, inl, refl, arith}
use integration_hell.Common.Int.{negsuc}
use integration_hell.Common.Long.{plain_longs}
use integration_hell.Policies.Timestamp.{Generator}
use integration_hell.Policies.Timestamp.Monotonic.{IsValid, Increasing, run, run-Increasing}

abbrev first : Generator
first = record {
  warning_threshold = 1000;
  min_log_interval = 1000;
  micros = negsuc 0;
  last_date = 0;
  last_log_date = 0;
}

first-IsValid : IsValid first
first-IsValid = record { micros_in = omega arith; from_minus_one = inl refl }

-- The clock goes back in the third reading.
abbrev readings : List (ℕ × ℕ)
readings = (1700000000000, 0) ∷ (1700000000000, 0) ∷ (1699999990000, 5000) ∷ []

run-Increasing_example : Increasing plain_longs 0 (run plain_longs first readings)
run-Increasing_example =
    run-Increasing plain_longs first readings first-IsValid (omega arith) (omega arith)
