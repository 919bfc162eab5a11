-- ===== src/Types/Duration/Parse.antt =====
-- lib/types/duration.js: `fromString` against the sums of the items.
use integration_hell.Common.{
  ℕ, ◌+◌, ◌^◌, ◌≤◌, ◌<◌, ◌≡◌, refl, sym, ap, ◌∙◌, ◌⊎◌, inl, inr, arith, Bool, List, [], ◌∷◌, All,
  if◌then◌else◌,
}
use mathlib.Core.Path.{subst}
use integration_hell.Common.Int.{pos}
use integration_hell.Common.Long.{LongOps}
use integration_hell.Types.Duration.{
  Symbol, Result, Failure, failed, ok, and_then, Text, Builder, new_builder, add, add_all, Duration,
  build, opposite, parse_standard,
}
use integration_hell.Types.Duration.Totals.{
  index, months_of, days_of, nanos_of, Holds, Fits, Added, add-Step,
}

-- The sum of an amount over the items.
abbrev pub total : (ℕ → Symbol → ℕ) → List (ℕ × Symbol) → ℕ
total f [] = 0
total f (item ∷ items) = f item.0 item.1 + total f items

-- Each unit stands after the one before it in the order, the first after the index `i`.
abbrev pub Ordered : ℕ → List (ℕ × Symbol) → Type 0
Ordered i [] = Unit
Ordered i (item ∷ items) = (i < index item.1) × Ordered (index item.1) items

abbrev pub IsSmall : ℕ × Symbol → Type 0
IsSmall item = item.0 < 2 ^ 63

-- The items are in order and their sums, added to the given amounts, stay within the bounds.
pub record AllFit (i months days nanos : ℕ) (items : List (ℕ × Symbol)) : Type 0 where
  pub ordered : Ordered i items
  pub months_fit : months + total months_of items ≤ 2147483647
  pub days_fit : days + total days_of items ≤ 2147483647
  pub nanos_fit : nanos + total nanos_of items < 2 ^ 63

module _ (ops : LongOps) where
  open ops use {Long, Is}

  abbrev Done : Builder ops → ℕ → List (ℕ × Symbol) → Builder ops → Type 0
  Done b x items c =
      (c.is_negative ≡ b.is_negative)
      × (c.months ≡ b.months + total months_of items)
      × (c.days ≡ b.days + total days_of items)
      × Is c.nanoseconds (x + total nanos_of items)

  abbrev Outcome : Result (Builder ops) → Builder ops → ℕ → List (ℕ × Symbol) → Type 0
  Outcome r b x items =
      (AllFit b.unit_index b.months b.days x items
        × ((c : Builder ops) × (r ≡ ok c) × Done b x items c))
      ⊎ ((AllFit b.unit_index b.months b.days x items → ⊥) × ((e : Failure) × (r ≡ failed e)))

  first_Fits :
      (b : Builder ops) (x value : ℕ) (symbol : Symbol) (items : List (ℕ × Symbol))
      → AllFit b.unit_index b.months b.days x ((value, symbol) ∷ items)
      → Fits ops b x
          (index symbol)
          (months_of value symbol)
          (days_of value symbol)
          (nanos_of value symbol)
  first_Fits b x value symbol items fit =
      let m = fit.months_fit in
      let d = fit.days_fit in
      let n = fit.nanos_fit in
      record {
        later = fit.ordered.0;
        months_fit = omega arith;
        days_fit = omega arith;
        nanos_fit = omega arith;
      }

  Added-Holds :
      (b c : Builder ops) (x i months days nanos : ℕ)
      → Fits ops b x i months days nanos
      → Added ops b c x i months days nanos
      → Holds ops c (x + nanos)
  Added-Holds b c x i months days nanos fits added = record {
    nanos_is = added.nanos_added;
    months_in = omega (arith, added.months_added, fits.months_fit);
    days_in = omega (arith, added.days_added, fits.days_fit);
    nanos_in = fits.nanos_fit;
  }

  module _ (b c : Builder ops) (x value : ℕ) (symbol : Symbol) (items : List (ℕ × Symbol))
      (added : Added ops b c x
        (index symbol)
        (months_of value symbol)
        (days_of value symbol)
        (nanos_of value symbol)) where
    whole-Fits :
        Fits ops b x
          (index symbol)
          (months_of value symbol)
          (days_of value symbol)
          (nanos_of value symbol)
        → AllFit c.unit_index c.months c.days (x + nanos_of value symbol) items
        → AllFit b.unit_index b.months b.days x ((value, symbol) ∷ items)
    whole-Fits fits rest =
        let m = rest.months_fit in
        let d = rest.days_fit in
        let n = rest.nanos_fit in
        let m₁ = added.months_added in
        let d₁ = added.days_added in
        record {
          ordered = (fits.later, subst (λ i. Ordered i items) added.at_index rest.ordered);
          months_fit = omega arith;
          days_fit = omega arith;
          nanos_fit = omega arith;
        }

    rest_fits :
        AllFit b.unit_index b.months b.days x ((value, symbol) ∷ items)
        → AllFit c.unit_index c.months c.days (x + nanos_of value symbol) items
    rest_fits whole =
        let m = whole.months_fit in
        let d = whole.days_fit in
        let n = whole.nanos_fit in
        let m₁ = added.months_added in
        let d₁ = added.days_added in
        record {
          ordered = subst (λ i. Ordered i items) (sym added.at_index) whole.ordered.1;
          months_fit = omega arith;
          days_fit = omega arith;
          nanos_fit = omega arith;
        }

    Done-cons :
        (e : Builder ops)
        → Done c (x + nanos_of value symbol) items e
        → Done b x ((value, symbol) ∷ items) e
    Done-cons e done = (
      done.0 ∙ added.same_sign,
      done.1 ∙ omega (arith, added.months_added),
      done.2 ∙ omega (arith, added.days_added),
      subst (Is e.nanoseconds) (omega arith) done.3,
    )

  add_all-cons :
      (value : ℕ) (symbol : Symbol) (items : List (ℕ × Symbol)) (b : Builder ops)
      (r : Result (Builder ops))
      → add ops value symbol b ≡ r
      → add_all ops ((value, symbol) ∷ items) b ≡ and_then r (add_all ops items)
  unfolding add_all
  add_all-cons value symbol items b r e = ap (λ s. and_then s (add_all ops items)) e

  add_all-Outcome :
      (items : List (ℕ × Symbol)) (b : Builder ops) (x : ℕ)
      → Holds ops b x
      → All IsSmall items
      → Outcome (add_all ops items b) b x items
  unfolding add_all and_then
  add_all-Outcome [] b x h small = inl (
    record {
      ordered = tt;
      months_fit = omega (arith, h.months_in);
      days_fit = omega (arith, h.days_in);
      nanos_fit = omega (arith, h.nanos_in);
    },
    (b, refl, (refl, omega arith, omega arith, subst (Is b.nanoseconds) (omega arith) h.nanos_is)),
  )
  add_all-Outcome ((value, symbol) ∷ items) b x h small =
      elim (add-Step ops b x value symbol h small.0) [
        | inl (fits, (c, e, added)) ↦
            rw (add_all-cons value symbol items b (ok c) e)
              (elim (add_all-Outcome items c (x + nanos_of value symbol)
                (Added-Holds b c x _ _ _ _ fits added) small.1) [
                  | inl (rest, (d, f, done)) ↦ inl (
                    whole-Fits b c x value symbol items added fits rest,
                    (d, f, Done-cons b c x value symbol items added d done),
                  )
                  | inr (unfit, (failure, f)) ↦ inr (
                    λ whole. unfit (rest_fits b c x value symbol items added whole),
                    (failure, f),
                  )
                ])
        | inr (unfit, (failure, e)) ↦
            rw (add_all-cons value symbol items b (failed failure) e)
              (inr (λ whole. unfit (first_Fits b x value symbol items whole), (failure, refl)))
      ]

  -- The duration of a text in order: the sums, each negative under a minus sign.
  abbrev pub Totals : Text → Duration ops → Type 0
  Totals text d =
      (l : Long) × Is l (total nanos_of text.items)
      × (d ≡ (
          if text.minus
          then record {
            months = opposite ops (total months_of text.items);
            days = opposite ops (total days_of text.items);
            nanoseconds = ops.negate l;
          }
          else record {
            months = pos (total months_of text.items);
            days = pos (total days_of text.items);
            nanoseconds = l;
          }))

  new_Holds : (minus : Bool) → Holds ops (new_builder ops minus) 0
  unfolding new_builder
  new_Holds minus = record {
    nanos_is = ops.Is-from_number 0 (omega arith);
    months_in = omega arith;
    days_in = omega arith;
    nanos_in = omega arith;
  }

  build_Totals :
      (text : Text) (c : Builder ops)
      → Done (new_builder ops text.minus) 0 text.items c
      → Totals text (build ops c)
  unfolding build new_builder
  build_Totals text c done =
      let m : c.months ≡ total months_of text.items = done.1 ∙ omega arith in
      let d : c.days ≡ total days_of text.items = done.2 ∙ omega arith in
      (c.nanoseconds, subst (Is c.nanoseconds) (omega arith) done.3, rw (done.0, m, d) refl)

  -- Where every number is below 2 ^ 63: a text is parsed to the sums of its items where the units are
  -- in strict order and the sums stay within 2 ^ 31 - 1 months, as many days and 2 ^ 63 - 1
  -- nanoseconds, and is an error in every other case.
  pub parse_standard-total :
      (text : Text)
      → All IsSmall text.items
      → (AllFit 0 0 0 0 text.items
          × ((d : Duration ops) × (parse_standard ops text ≡ ok d) × Totals text d))
        ⊎ ((AllFit 0 0 0 0 text.items → ⊥) × ((e : Failure) × (parse_standard ops text ≡ failed e)))
  unfolding parse_standard new_builder and_then
  parse_standard-total text small =
      elim (add_all-Outcome text.items (new_builder ops text.minus) 0 (new_Holds text.minus)
        small) [
          | inl (fit, (c, e, done)) ↦ inl (
            fit,
            (build ops c, ap (λ r. and_then r (λ b. ok (build ops b))) e, build_Totals text c done),
          )
          | inr (unfit, (failure, e)) ↦
              inr (unfit, (failure, ap (λ r. and_then r (λ b. ok (build ops b))) e))
        ]
