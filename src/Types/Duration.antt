-- ===== src/Types/Duration.antt =====
-- lib/types/duration.js: the builder that `fromString` uses, and `toString`. A text is the list of its
-- items, a number and a unit each, with a minus sign or none: taking a text apart by a regular
-- expression, and joining the items to one, is not modelled. `Long` is the package's; the texts of the
-- errors are not modelled. The limit of `_validateMonths` and `_validateDays` is a fraction in the
-- source; a whole number exceeds it where it exceeds its whole part.
pub mod Totals
pub mod Parse
pub mod Print
pub mod RoundTrip
pub mod Iso
mod Tests
use integration_hell.Common.{
  ℕ, zero, suc, ◌+◌, ◌-◌, ◌*◌, ◌/◌, ◌%◌, ◌≡◌, Bool, true, false, not, ◌||◌, Option, none, some,
  List, [], ◌∷◌, ◌++◌, ltb, leb, ◌==◌, if◌then◌else◌,
}
use integration_hell.Common.Int.{ℤ, pos, negsuc}
use integration_hell.Common.Long.{LongOps}

-- The symbols of `_addMethods`; `us` and `µs` are one.
pub data Symbol : Type 0 where
  year : Symbol
  month : Symbol
  week : Symbol
  day : Symbol
  hour : Symbol
  minute : Symbol
  second : Symbol
  milli : Symbol
  micro : Symbol
  nano : Symbol

-- The errors that are thrown.
pub data Failure : Type 0 where
  specified_twice : Failure
  wrong_order : Failure
  too_many_months : Failure
  too_many_days : Failure
  too_many_nanoseconds : Failure

pub data Result {ℓ} (A : Type ℓ) : Type ℓ where
  failed : Failure → Result A
  ok : A → Result A

pub and_then {ℓ κ} : {A : Type ℓ} {B : Type κ} → Result A → (A → Result B) → Result B
and_then (failed e) f = failed e
and_then (ok a) f = f a

abbrev pub max_int32 : ℕ
max_int32 = 2147483647

abbrev pub days_per_week : ℕ
days_per_week = 7

abbrev pub months_per_year : ℕ
months_per_year = 12

-- What `fromString` reads and `toString` writes.
pub record Text : Type 0 where
  pub minus : Bool
  pub items : List (ℕ × Symbol)

-- `toFixed(0)` of a quotient: the whole number nearest to it, the greater one of two.
pub rounded : ℕ → ℕ → ℕ
rounded dividend divisor = (2 * dividend + divisor) / (2 * divisor)

-- `append`: what is written, and the remainder; `append64` below is the same for a `Long`.
pub append : ℕ → ℕ → Symbol → List (ℕ × Symbol) → List (ℕ × Symbol) × ℕ
unfolding rounded
append dividend divisor symbol value =
    if dividend == 0 || ltb dividend divisor
    then (value, dividend)
    else (value ++ (rounded dividend divisor, symbol) ∷ [], dividend % divisor)

module _ (ops : LongOps) where
  open ops use {Long}

  abbrev pub one_thousand : Long
  one_thousand = ops.from_number 1000

  abbrev pub nanos_per_micro : Long
  nanos_per_micro = one_thousand

  abbrev pub nanos_per_milli : Long
  nanos_per_milli = ops.multiply one_thousand nanos_per_micro

  abbrev pub nanos_per_second : Long
  nanos_per_second = ops.multiply one_thousand nanos_per_milli

  abbrev pub nanos_per_minute : Long
  nanos_per_minute = ops.multiply (ops.from_number 60) nanos_per_second

  abbrev pub nanos_per_hour : Long
  nanos_per_hour = ops.multiply (ops.from_number 60) nanos_per_minute

  pub record Builder : Type 0 where
    pub is_negative : Bool
    pub unit_index : ℕ
    pub months : ℕ
    pub days : ℕ
    pub nanoseconds : Long

  pub new_builder : Bool → Builder
  new_builder negative = record {
    is_negative = negative;
    unit_index = 0;
    months = 0;
    days = 0;
    nanoseconds = ops.from_number 0;
  }

  pub validate_order : ℕ → Builder → Result Builder
  validate_order index b =
      if index == b.unit_index
      then failed specified_twice
      else if leb index b.unit_index
      then failed wrong_order
      else ok (record {
        is_negative = b.is_negative;
        unit_index = index;
        months = b.months;
        days = b.days;
        nanoseconds = b.nanoseconds;
      })

  -- `_validateMonths` and the addition after it
  pub add_months_of : ℕ → ℕ → Builder → Result Builder
  add_months_of units per_unit b =
      if ltb ((max_int32 - b.months) / per_unit) units
      then failed too_many_months
      else ok (record {
        is_negative = b.is_negative;
        unit_index = b.unit_index;
        months = b.months + units * per_unit;
        days = b.days;
        nanoseconds = b.nanoseconds;
      })

  -- `_validateDays` and the addition after it
  pub add_days_of : ℕ → ℕ → Builder → Result Builder
  add_days_of units per_unit b =
      if ltb ((max_int32 - b.days) / per_unit) units
      then failed too_many_days
      else ok (record {
        is_negative = b.is_negative;
        unit_index = b.unit_index;
        months = b.months;
        days = b.days + units * per_unit;
        nanoseconds = b.nanoseconds;
      })

  -- `_validateNanos` with the units, and the addition of `amount` after it
  pub add_nanos_of : Long → Long → Long → Builder → Result Builder
  add_nanos_of units per_unit amount b =
      if ops.greater_than units (ops.divide (ops.subtract ops.max_value b.nanoseconds) per_unit)
      then failed too_many_nanoseconds
      else ok (record {
        is_negative = b.is_negative;
        unit_index = b.unit_index;
        months = b.months;
        days = b.days;
        nanoseconds = ops.add b.nanoseconds amount;
      })

  pub add_years : ℕ → Builder → Result Builder
  unfolding and_then validate_order add_months_of
  add_years value b = and_then (validate_order 1 b) (add_months_of value months_per_year)

  pub add_months : ℕ → Builder → Result Builder
  unfolding and_then validate_order add_months_of
  add_months value b = and_then (validate_order 2 b) (add_months_of value 1)

  pub add_weeks : ℕ → Builder → Result Builder
  unfolding and_then validate_order add_days_of
  add_weeks value b = and_then (validate_order 3 b) (add_days_of value days_per_week)

  pub add_days : ℕ → Builder → Result Builder
  unfolding and_then validate_order add_days_of
  add_days value b = and_then (validate_order 4 b) (add_days_of value 1)

  -- `addHours`, `addMinutes`, `addSeconds`, `addMillis` and `addMicros`, with the index and the
  -- nanoseconds of the unit
  pub add_time : ℕ → Long → Long → Builder → Result Builder
  unfolding and_then validate_order add_nanos_of
  add_time index per_unit value b =
      and_then (validate_order index b) (add_nanos_of value per_unit (ops.multiply value per_unit))

  pub add_nanos : Long → Builder → Result Builder
  unfolding and_then validate_order add_nanos_of
  add_nanos value b = and_then (validate_order 10 b) (add_nanos_of value (ops.from_number 1) value)

  -- `Long.fromString` of a number's text is its `Long`.
  pub add : ℕ → Symbol → Builder → Result Builder
  unfolding add_years add_months add_weeks add_days add_time add_nanos
  add value year = add_years value
  add value month = add_months value
  add value week = add_weeks value
  add value day = add_days value
  add value hour = add_time 5 nanos_per_hour (ops.from_number value)
  add value minute = add_time 6 nanos_per_minute (ops.from_number value)
  add value second = add_time 7 nanos_per_second (ops.from_number value)
  add value milli = add_time 8 nanos_per_milli (ops.from_number value)
  add value micro = add_time 9 nanos_per_micro (ops.from_number value)
  add value nano = add_nanos (ops.from_number value)

  pub add_all : List (ℕ × Symbol) → Builder → Result Builder
  unfolding and_then add
  add_all [] b = ok b
  add_all (item ∷ items) b = and_then (add item.0 item.1 b) (add_all items)

  -- The arguments of `new Duration`.
  pub record Duration : Type 0 where
    pub months : ℤ
    pub days : ℤ
    pub nanoseconds : Long

  pub opposite : ℕ → ℤ
  opposite zero = pos 0
  opposite (suc n) = negsuc n

  pub build : Builder → Duration
  unfolding opposite
  build b =
      if b.is_negative
      then record {
        months = opposite b.months;
        days = opposite b.days;
        nanoseconds = ops.negate b.nanoseconds;
      }
      else record { months = pos b.months; days = pos b.days; nanoseconds = b.nanoseconds }

  pub parse_standard : Text → Result Duration
  unfolding add_all build new_builder and_then
  parse_standard text = and_then (add_all text.items (new_builder text.minus)) (λ b. ok (build b))

  -- The groups of the pattern that matched, none for a group that did not.
  pub record IsoGroups : Type 0 where
    pub years : Option ℕ
    pub months : Option ℕ
    pub days : Option ℕ
    pub time : Option (Option ℕ × Option ℕ × Option ℕ)

  pub add_group : Option ℕ → Symbol → Builder → Result Builder
  unfolding add
  add_group none symbol b = ok b
  add_group (some value) symbol b = add value symbol b

  pub add_time_groups : Option (Option ℕ × Option ℕ × Option ℕ) → Builder → Result Builder
  unfolding add_group and_then
  add_time_groups none b = ok b
  add_time_groups (some t) b =
      and_then (add_group t.0 hour b)
        λ b₁. and_then (add_group t.1 minute b₁) λ b₂. add_group t.2 second b₂

  pub parse_iso8601 : Bool → IsoGroups → Result Duration
  unfolding add_group add_time_groups build new_builder and_then
  parse_iso8601 negative g = and_then (add_group g.years year (new_builder negative)) λ b₁.
      and_then (add_group g.months month b₁) λ b₂.
        and_then (add_group g.days day b₂)
          λ b₃. and_then (add_time_groups g.time b₃) λ b₄. ok (build b₄)

  pub parse_iso8601_week : Bool → ℕ → Result Duration
  unfolding add_weeks build new_builder and_then
  parse_iso8601_week negative value =
      and_then (add_weeks value (new_builder negative)) λ b. ok (build b)

  pub append64 : Long → Long → Symbol → List (ℕ × Symbol) → List (ℕ × Symbol) × Long
  append64 dividend divisor symbol value =
      if ops.equals dividend (ops.from_number 0) || ops.less_than dividend divisor
      then (value, dividend)
      else (
        value ++ (ops.written (ops.divide dividend divisor), symbol) ∷ [],
        ops.modulo dividend divisor,
      )

  -- `Math.abs`
  pub magnitude : ℤ → ℕ
  magnitude (pos n) = n
  magnitude (negsuc n) = n + 1

  pub below_zero : ℤ → Bool
  below_zero (pos n) = false
  below_zero (negsuc n) = true

  pub append_nanos : Long → List (ℕ × Symbol) → List (ℕ × Symbol)
  unfolding append64
  append_nanos nanos value =
      let hours = append64 nanos nanos_per_hour hour value in
      let minutes = append64 hours.1 nanos_per_minute minute hours.0 in
      let seconds = append64 minutes.1 nanos_per_second second minutes.0 in
      let millis = append64 seconds.1 nanos_per_milli milli seconds.0 in
      let micros = append64 millis.1 nanos_per_micro micro millis.0 in
      (append64 micros.1 (ops.from_number 1) nano micros.0).0

  pub to_string : Duration → Text
  unfolding append append_nanos magnitude below_zero
  to_string d =
      let years = append (magnitude d.months) months_per_year year [] in
      let months = append years.1 1 month years.0 in
      let days = append (magnitude d.days) 1 day months.0 in
      record {
        minus = below_zero d.months || below_zero d.days || ops.is_negative d.nanoseconds;
        items =
            if not (ops.equals d.nanoseconds (ops.from_number 0))
            then append_nanos
                (if ops.is_negative d.nanoseconds then ops.negate d.nanoseconds else d.nanoseconds)
                days.0
            else days.0;
      }
