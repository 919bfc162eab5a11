-- ===== src/Types/Duration/Tests.antt =====
-- lib/types/duration.js at concrete texts and durations.
use integration_hell.Common.{◌≡◌, refl, arith, ◌⊎◌, true, false, none, some, [], ◌∷◌, All}
use integration_hell.Common.Int.{pos, negsuc}
use integration_hell.Common.Long.{plain_longs}
use integration_hell.Types.Duration.{
  Symbol, year, month, week, day, hour, minute, second, nano, Text, Result, Failure, ok, failed,
  wrong_order, Duration, IsoGroups, parse_standard, parse_iso8601, parse_iso8601_week, to_string,
}
use integration_hell.Types.Duration.Parse.{AllFit, Totals, IsSmall, parse_standard-total}
use integration_hell.Types.Duration.Iso.{iso_items, parse_iso8601-standard}

-- 1y3mo2h
abbrev text : Text
text = record { minus = true; items = (1, year) ∷ (3, month) ∷ (2, hour) ∷ [] }

text-IsSmall : All IsSmall text.items
text-IsSmall = (omega arith, (omega arith, (omega arith, tt)))

parse_standard-total_example :
    (AllFit 0 0 0 0 text.items
      × ((d : Duration plain_longs) × (parse_standard plain_longs text ≡ ok d)
          × Totals plain_longs text d))
    ⊎ ((AllFit 0 0 0 0 text.items → ⊥)
        × ((e : Failure) × (parse_standard plain_longs text ≡ failed e)))
parse_standard-total_example = parse_standard-total plain_longs text text-IsSmall

abbrev fourteen_months : Duration plain_longs
fourteen_months = record { months = negsuc 13; days = negsuc 2; nanoseconds = negsuc 4999 }

-- One year and six months.
abbrev eighteen_months : Duration plain_longs
eighteen_months = record { months = pos 18; days = pos 0; nanoseconds = pos 0 }

eighteen_written :
    to_string plain_longs eighteen_months
    ≡ record { minus = false; items = (2, year) ∷ (6, month) ∷ [] }
unfolding to_string
eighteen_written = refl

eighteen_read :
    parse_standard plain_longs (to_string plain_longs eighteen_months)
    ≡ ok (record { months = pos 30; days = pos 0; nanoseconds = pos 0 })
unfolding to_string parse_standard
eighteen_read = refl

days_first :
    parse_standard plain_longs (record { minus = false; items = (1, day) ∷ (1, month) ∷ [] })
    ≡ failed wrong_order
unfolding parse_standard
days_first = refl

-- P1Y2DT5M
abbrev groups : IsoGroups plain_longs
groups = record { years = some 1; months = none; days = some 2; time = some (none, some 5, none) }

parse_iso8601-standard_example :
    (parse_iso8601 plain_longs false groups
      ≡ parse_standard plain_longs (record { minus = false; items = iso_items groups }))
    × (parse_iso8601_week plain_longs false 3
        ≡ parse_standard plain_longs (record { minus = false; items = (3, week) ∷ [] }))
parse_iso8601-standard_example = parse_iso8601-standard plain_longs false groups 3
