-- ===== src/Types/Duration/RoundTrip.antt =====
-- lib/types/duration.js: `fromString` of what `toString` writes.
use integration_hell.Common.{ℕ, ◌≡◌, Bool, List, [], if◌then◌else◌}
use integration_hell.Common.Int.{pos}
use integration_hell.Common.Long.{LongOps}
use integration_hell.Types.Duration.{Symbol, year, month, day, Text, Duration, opposite, append}
use integration_hell.Types.Duration.Print.{Written}

module _ (ops : LongOps) where
  open ops use {Long, Is}

  -- The duration of these months, days and nanoseconds, each negative where `minus` is true.
  abbrev pub IsOf : Bool → ℕ → ℕ → ℕ → Duration ops → Type 0
  IsOf minus m d n duration =
      (l : Long) × Is l n
      × (duration ≡ (
          if minus
          then record { months = opposite ops m; days = opposite ops d; nanoseconds = ops.negate l }
          else record { months = pos m; days = pos d; nanoseconds = l }))

  abbrev date_items : ℕ → ℕ → List (ℕ × Symbol)
  date_items m d =
      let years = append m 12 year [] in
      let months = append years.1 1 month years.0 in (append d 1 day months.0).0

  abbrev Printed : Text → Bool → ℕ → ℕ → ℕ → Type 0
  Printed text minus m d n = Written text.items 10 m d n × (text.minus ≡ minus)
