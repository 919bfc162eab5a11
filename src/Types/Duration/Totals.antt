-- ===== src/Types/Duration/Totals.antt =====
-- lib/types/duration.js: one item added to a builder, by the amounts of its unit.
use mathlib.Core.Path.{subst}
use native.Mathlib.Nat.{le-div_iff_mul-le, div-lt_iff_lt-mul}
use integration_hell.Common.{
  ℕ, ◌+◌, ◌-◌, ◌*◌, ◌/◌, ◌^◌, ◌≤◌, ◌<◌, ◌≡◌, refl, ◌⊎◌, inl, inr, arith, true, false, Bool-cases,
  ltb, leb, ◌==◌, ge_of_ltb, ltb→lt,
}
use integration_hell.Common.Long.{LongOps}
use integration_hell.Types.Duration.{
  Symbol, year, month, week, day, hour, minute, second, milli, micro, nano, Result, Failure, failed,
  ok, and_then, max_int32, one_thousand, nanos_per_milli, nanos_per_second, nanos_per_minute,
  nanos_per_hour, Builder, validate_order, add_months_of, add_days_of, add_nanos_of, add_years,
  add_months, add_weeks, add_days, add_time, add_nanos, add,
}

-- The place of a unit in the order.
abbrev pub index : Symbol → ℕ
index year = 1
index month = 2
index week = 3
index day = 4
index hour = 5
index minute = 6
index second = 7
index milli = 8
index micro = 9
index nano = 10

abbrev pub months_of : ℕ → Symbol → ℕ
months_of value year = value * 12
months_of value month = value * 1
months_of value _ = 0

abbrev pub days_of : ℕ → Symbol → ℕ
days_of value week = value * 7
days_of value day = value * 1
days_of value _ = 0

abbrev pub nanos_of : ℕ → Symbol → ℕ
nanos_of value hour = value * 3600000000000
nanos_of value minute = value * 60000000000
nanos_of value second = value * 1000000000
nanos_of value milli = value * 1000000
nanos_of value micro = value * 1000
nanos_of value nano = value * 1
nanos_of value _ = 0

within_limit : (c m p u : ℕ) → 0 < p → m ≤ c → ltb ((c - m) / p) u ≡ false → m + u * p ≤ c
within_limit c m p u h k e =
    let le = (le-div_iff_mul-le h).0 (ge_of_ltb ((c - m) / p) u e) in omega arith

above_limit : (c m p u : ℕ) → 0 < p → m ≤ c → ltb ((c - m) / p) u ≡ true → c < m + u * p
above_limit c m p u h k e =
    let lt = (div-lt_iff_lt-mul h).0 (ltb→lt ((c - m) / p) u e) in omega arith

module _ (ops : LongOps) where
  open ops use {Long, Is}

  -- The amounts that a builder holds, within their bounds.
  pub record Holds (b : Builder ops) (x : ℕ) : Type 0 where
    pub nanos_is : Is b.nanoseconds x
    pub months_in : b.months ≤ 2147483647
    pub days_in : b.days ≤ 2147483647
    pub nanos_in : x < 2 ^ 63

  -- An item of index `i` with these amounts is accepted by `b`.
  pub record Fits (b : Builder ops) (x : ℕ) (i months days nanos : ℕ) : Type 0 where
    pub later : b.unit_index < i
    pub months_fit : b.months + months ≤ 2147483647
    pub days_fit : b.days + days ≤ 2147483647
    pub nanos_fit : x + nanos < 2 ^ 63

  -- `c` is `b` with an item added.
  pub record Added (b c : Builder ops) (x : ℕ) (i months days nanos : ℕ) : Type 0 where
    pub same_sign : c.is_negative ≡ b.is_negative
    pub at_index : c.unit_index ≡ i
    pub months_added : c.months ≡ b.months + months
    pub days_added : c.days ≡ b.days + days
    pub nanos_added : Is c.nanoseconds (x + nanos)

  -- A result is the builder with the item added where it fits, and a failure where not.
  abbrev pub Step : Result (Builder ops) → Builder ops → ℕ → ℕ → ℕ → ℕ → ℕ → Type 0
  Step r b x i months days nanos =
      (Fits b x i months days nanos
        × ((c : Builder ops) × (r ≡ ok c) × Added b c x i months days nanos))
      ⊎ ((Fits b x i months days nanos → ⊥) × ((e : Failure) × (r ≡ failed e)))

  abbrev moved : ℕ → Builder ops → Builder ops
  moved i b = record {
    is_negative = b.is_negative;
    unit_index = i;
    months = b.months;
    days = b.days;
    nanoseconds = b.nanoseconds;
  }

  order-Step :
      (b : Builder ops) (x i months days nanos : ℕ) (f : Builder ops → Result (Builder ops))
      → (b.unit_index < i → Step (f (moved i b)) b x i months days nanos)
      → Step (and_then (validate_order ops i b) f) b x i months days nanos
  unfolding and_then validate_order
  order-Step b x i months days nanos f k = elim (Bool-cases (i == b.unit_index)) [
    | inl same ↦ rw same (inr (λ fits. let l = fits.later in ground arith, (_, refl)))
    | inr other ↦ elim (Bool-cases (leb i b.unit_index)) [
      | inl low ↦ rw (other, low) (inr (λ fits. let l = fits.later in ground arith, (_, refl)))
      | inr high ↦ rw (other, high) (k (ground arith))
    ]
  ]

  months-Step :
      (b : Builder ops) (x i u p : ℕ)
      → Holds b x
      → 0 < p
      → Step (and_then (validate_order ops i b) (add_months_of ops u p)) b x i (u * p) 0 0
  unfolding add_months_of
  months-Step b x i u p h k = order-Step b x i (u * p) 0 0 (add_months_of ops u p) (λ later.
      elim (Bool-cases (ltb ((max_int32 - b.months) / p) u)) [
        | inl over ↦
            let more = above_limit max_int32 b.months p u k h.months_in over in
            rw over (inr (λ fits. omega (arith, fits.months_fit), (_, refl)))
        | inr fine ↦
            let in_limit = within_limit max_int32 b.months p u k h.months_in fine in
            rw fine (
              inl (
                record {
                  later = later;
                  months_fit = in_limit;
                  days_fit = omega arith;
                  nanos_fit = omega arith;
                },
                (
                  _,
                  refl,
                  record {
                    same_sign = refl;
                    at_index = refl;
                    months_added = refl;
                    days_added = omega arith;
                    nanos_added = subst (Is b.nanoseconds) (omega arith) h.nanos_is;
                  },
                ),
              ))
      ])

  one_is : Is (ops.from_number 1) 1
  one_is = ops.Is-from_number 1 (omega arith)

  days-Step :
      (b : Builder ops) (x i u p : ℕ)
      → Holds b x
      → 0 < p
      → Step (and_then (validate_order ops i b) (add_days_of ops u p)) b x i 0 (u * p) 0
  unfolding add_days_of
  days-Step b x i u p h k = order-Step b x i 0 (u * p) 0 (add_days_of ops u p) (λ later.
      elim (Bool-cases (ltb ((max_int32 - b.days) / p) u)) [
        | inl over ↦
            let more = above_limit max_int32 b.days p u k h.days_in over in
            rw over (inr (λ fits. omega (arith, fits.days_fit), (_, refl)))
        | inr fine ↦
            let in_limit = within_limit max_int32 b.days p u k h.days_in fine in
            rw fine (
              inl (
                record {
                  later = later;
                  months_fit = omega arith;
                  days_fit = in_limit;
                  nanos_fit = omega arith;
                },
                (
                  _,
                  refl,
                  record {
                    same_sign = refl;
                    at_index = refl;
                    months_added = omega arith;
                    days_added = refl;
                    nanos_added = subst (Is b.nanoseconds) (omega arith) h.nanos_is;
                  },
                ),
              ))
      ])

  nanos_limit :
      (b : Builder ops) (units per_unit : Long) (x u p : ℕ)
      → Holds b x
      → Is units u
      → Is per_unit p
      → 0 < p
      → ops.greater_than units (ops.divide (ops.subtract ops.max_value b.nanoseconds) per_unit)
        ≡ ltb ((2 ^ 63 - 1 - x) / p) u
  nanos_limit b units per_unit x u p h hu hp k =
      let left =
        ops.Is-subtract ops.max_value b.nanoseconds (2 ^ 63 - 1) x ops.Is-max_value h.nanos_is
          (omega arith) in
      ops.Is-greater_than units _ u ((2 ^ 63 - 1 - x) / p) hu
        (ops.Is-divide _ per_unit (2 ^ 63 - 1 - x) p left hp k)

  nanos-Step :
      (b : Builder ops) (units per_unit amount : Long) (x i u p : ℕ)
      → Holds b x
      → Is units u
      → Is per_unit p
      → 0 < p
      → (u * p < 2 ^ 63 → Is amount (u * p))
      → Step
          (and_then (validate_order ops i b) (add_nanos_of ops units per_unit amount))
          b
          x
          i
          0
          0
          (u * p)
  unfolding add_nanos_of
  nanos-Step b units per_unit amount x i u p h hu hp k ha =
      let limit = nanos_limit b units per_unit x u p h hu hp k in
      order-Step b x i 0 0 (u * p) (add_nanos_of ops units per_unit amount) (λ later.
        elim (Bool-cases (ltb ((2 ^ 63 - 1 - x) / p) u)) [
          | inl over ↦
              let more = above_limit (2 ^ 63 - 1) x p u k (omega arith) over in
              rw (limit, over) (inr (λ fits. omega (arith, fits.nanos_fit), (_, refl)))
          | inr fine ↦
              let in_limit = within_limit (2 ^ 63 - 1) x p u k (omega arith) fine in
              rw (limit, fine)
                (inl (
                  record {
                    later = later;
                    months_fit = omega arith;
                    days_fit = omega arith;
                    nanos_fit = omega arith;
                  },
                  (
                    _,
                    refl,
                    record {
                      same_sign = refl;
                      at_index = refl;
                      months_added = omega arith;
                      days_added = omega arith;
                      nanos_added =
                          ops.Is-add b.nanoseconds amount x (u * p) h.nanos_is (ha (omega arith))
                            (omega arith);
                    },
                  ),
                ))
        ])

  thousand_is : Is (one_thousand ops) 1000
  thousand_is = ops.Is-from_number 1000 (omega arith)

  pub milli_is : Is (nanos_per_milli ops) 1000000
  milli_is = ops.Is-multiply _ _ 1000 1000 thousand_is thousand_is (omega arith)

  pub second_is : Is (nanos_per_second ops) 1000000000
  second_is = ops.Is-multiply _ _ 1000 1000000 thousand_is milli_is (omega arith)

  sixty_is : Is (ops.from_number 60) 60
  sixty_is = ops.Is-from_number 60 (omega arith)

  pub minute_is : Is (nanos_per_minute ops) 60000000000
  minute_is = ops.Is-multiply _ _ 60 1000000000 sixty_is second_is (omega arith)

  pub hour_is : Is (nanos_per_hour ops) 3600000000000
  hour_is = ops.Is-multiply _ _ 60 60000000000 sixty_is minute_is (omega arith)

  time-Step :
      (b : Builder ops) (per_unit : Long) (x i u p : ℕ)
      → Holds b x
      → u < 2 ^ 63
      → Is per_unit p
      → 0 < p
      → Step (add_time ops i per_unit (ops.from_number u) b) b x i 0 0 (u * p)
  unfolding add_time
  time-Step b per_unit x i u p h hu hp k =
      let value = ops.Is-from_number u hu in
      nanos-Step b (ops.from_number u) per_unit (ops.multiply (ops.from_number u) per_unit) x i u p
        h value hp k (ops.Is-multiply (ops.from_number u) per_unit u p value hp)

  -- An item whose number is below 2 ^ 63 is added where its unit stands after the last one and the
  -- totals stay within the bounds; it is an error in every other case.
  pub add-Step :
      (b : Builder ops) (x value : ℕ) (symbol : Symbol)
      → Holds b x
      → value < 2 ^ 63
      → Step
          (add ops value symbol b)
          b
          x
          (index symbol)
          (months_of value symbol)
          (days_of value symbol)
          (nanos_of value symbol)
  unfolding add add_years add_months add_weeks add_days add_nanos
  add-Step b x value year h v = months-Step b x 1 value 12 h (omega arith)
  add-Step b x value month h v = months-Step b x 2 value 1 h (omega arith)
  add-Step b x value week h v = days-Step b x 3 value 7 h (omega arith)
  add-Step b x value day h v = days-Step b x 4 value 1 h (omega arith)
  add-Step b x value hour h v = time-Step b _ x 5 value 3600000000000 h v hour_is (omega arith)
  add-Step b x value minute h v = time-Step b _ x 6 value 60000000000 h v minute_is (omega arith)
  add-Step b x value second h v = time-Step b _ x 7 value 1000000000 h v second_is (omega arith)
  add-Step b x value milli h v = time-Step b _ x 8 value 1000000 h v milli_is (omega arith)
  add-Step b x value micro h v = time-Step b _ x 9 value 1000 h v thousand_is (omega arith)
  add-Step b x value nano h v =
      let one = ops.Is-from_number value v in
      nanos-Step b _ _ (ops.from_number value) x 10 value 1 h one one_is (omega arith)
        (λ less. subst (Is _) (omega arith) one)
