-- ===== src/Types/Duration/Iso.antt =====
-- lib/types/duration.js: the ISO 8601 format against the standard one.
use integration_hell.Common.{
  ℕ, ◌≡◌, refl, sym, ap, ◌∙◌, Bool, List, [], ◌∷◌, ◌++◌, Option, none, some,
}
use integration_hell.Common.Long.{LongOps}
use integration_hell.Types.Duration.{
  Symbol, year, month, week, day, hour, minute, second, Result, failed, ok, and_then, Builder,
  new_builder, add, add_all, add_weeks, build, parse_standard, IsoGroups, add_group,
  add_time_groups, parse_iso8601, parse_iso8601_week,
}

-- The items of the groups that matched.
abbrev pub group : Option ℕ → Symbol → List (ℕ × Symbol)
group none symbol = []
group (some value) symbol = (value, symbol) ∷ []

abbrev pub time_items : Option (Option ℕ × Option ℕ × Option ℕ) → List (ℕ × Symbol)
time_items none = []
time_items (some t) = group t.0 hour ++ (group t.1 minute ++ (group t.2 second ++ []))

abbrev pub iso_items : {ops : LongOps} → IsoGroups ops → List (ℕ × Symbol)
iso_items {ops} g =
    group g.years year ++ (group g.months month ++ (group g.days day ++ time_items g.time))

right_unit {ℓ} : {A : Type ℓ} (r : Result A) → and_then r ok ≡ r
unfolding and_then
right_unit (failed e) = refl
right_unit (ok a) = refl

then_cases {ℓ κ μ} :
    {A : Type ℓ} {B : Type κ} {C : Type μ} (r : Result A) (k : A → Result C) (f : A → Result B)
    (g : B → Result C)
    → ((a : A) → k a ≡ and_then (f a) g)
    → and_then r k ≡ and_then (and_then r f) g
unfolding and_then
then_cases (failed e) k f g h = refl
then_cases (ok a) k f g h = h a

module _ (ops : LongOps) where
  chain {ℓ} :
      {A : Type ℓ} (o : Option ℕ) (symbol : Symbol) (items : List (ℕ × Symbol))
      (k finish : Builder ops → Result A) (b : Builder ops)
      → ((c : Builder ops) → k c ≡ and_then (add_all ops items c) finish)
      → and_then (add_group ops o symbol b) k
        ≡ and_then (add_all ops (group o symbol ++ items) b) finish
  unfolding add_group add_all and_then
  chain none symbol items k finish b h = h b
  chain (some value) symbol items k finish b h =
      then_cases (add ops value symbol b) k (add_all ops items) finish h

  time_lem :
      (t : Option (Option ℕ × Option ℕ × Option ℕ)) (b : Builder ops)
      → add_time_groups ops t b ≡ add_all ops (time_items t) b
  unfolding add_time_groups add_all
  time_lem none b = refl
  time_lem (some t) b =
      chain t.0 hour (group t.1 minute ++ (group t.2 second ++ [])) _ ok b (λ c.
        chain t.1 minute (group t.2 second ++ []) _ ok c (λ d.
          sym (right_unit (add_group ops t.2 second d)) ∙ chain t.2 second [] ok ok d (λ e. refl)))
      ∙ right_unit (add_all ops (time_items (some t)) b)

  -- A text of the ISO format is parsed as the standard text with the same numbers, in the units years,
  -- months, days, hours, minutes and seconds; that of a number of weeks as the number with `w`.
  pub parse_iso8601-standard :
      (negative : Bool) (g : IsoGroups ops) (value : ℕ)
      → (parse_iso8601 ops negative g
          ≡ parse_standard ops (record { minus = negative; items = iso_items g }))
        × (parse_iso8601_week ops negative value
            ≡ parse_standard ops (record { minus = negative; items = (value, week) ∷ [] }))
  unfolding parse_iso8601 parse_iso8601_week parse_standard add_all add
  parse_iso8601-standard negative g value = (
    chain g.years year _ _ _ (new_builder ops negative) (λ b₁. chain g.months month _ _ _ b₁ (λ b₂.
        chain g.days day _ _ _ b₂
          (λ b₃. ap (λ r. and_then r (λ b. ok (build ops b))) (time_lem g.time b₃)))),
    ap (λ r. and_then r (λ b. ok (build ops b)))
        (sym (right_unit (add_weeks ops value (new_builder ops negative)))),
  )
