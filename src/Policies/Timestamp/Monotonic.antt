-- ===== src/Policies/Timestamp/Monotonic.antt =====
-- Timestamps of lib/policies/timestamp-generation.js grow strictly, whatever the clock shows.
use integration_hell.Common.{
  ℕ, suc, ◌+◌, ◌-◌, ◌*◌, ◌^◌, ◌<◌, ◌≤◌, ◌≡◌, refl, arith, Bool-cases, ltb, ltb→lt, List, [], ◌∷◌,
  ◌⊎◌, inl, inr, length, All, All-imp,
}
use integration_hell.Common.Int.{ℤ, pos, negsuc, pos_part}
use integration_hell.Common.Long.{LongOps}
use integration_hell.Policies.Timestamp.{
  Generator, Stamp, number, long, generate_microseconds, next, max_safe_number_date,
}

-- The counter of microseconds, moved up by one: it starts at -1 and stays below 1000.
abbrev pub ticks : ℤ → ℕ
ticks (pos n) = n + 1
ticks (negsuc n) = 0

pub record IsValid (s : Generator) : Type 0 where
  pub micros_in : ticks s.micros ≤ 1000
  pub from_minus_one : (s.micros ≡ negsuc 0) ⊎ (s.micros ≡ pos (pos_part s.micros))

-- The number that the state stands for, moved up by one.
abbrev pub level : Generator → ℕ
level s = s.last_date * 1000 + ticks s.micros

module _ (ops : LongOps) where
  -- The number that a timestamp stands for: a Number is exact below 2 ^ 53.
  abbrev pub Stands : Stamp ops → ℕ → Type 0
  Stands (number n) x = (n ≡ x) × (n < 2 ^ 53)
  Stands (long a) x = ops.Is a x

  next-IsValid :
      (s : Generator) (now log_now : ℕ) → IsValid s → IsValid (next ops s now log_now).state
  unfolding next
  next-IsValid s now log_now v = ground arith

  next-level :
      (s : Generator) (now log_now : ℕ) → IsValid s → level s < level (next ops s now log_now).state
  unfolding next
  next-level s now log_now v = ground arith

  next-last_date :
      (s : Generator) (now log_now bound : ℕ)
      → s.last_date + 1 ≤ bound
      → now + 1 ≤ bound
      → (next ops s now log_now).state.last_date ≤ bound
  unfolding next
  next-last_date s now log_now bound h k = ground arith

  next-ticks :
      (s : Generator) (now log_now : ℕ)
      → IsValid s
      → 0 < ticks (next ops s now log_now).state.micros
  unfolding next
  next-ticks s now log_now v = ground arith

  -- What `_generateMicroseconds` returns is exact, as a Number and as a Long.
  generate-Stands :
      (s : Generator) (m : ℕ)
      → s.micros ≡ pos m
      → m < 1000
      → s.last_date ≤ 2 ^ 53
      → Stands (generate_microseconds ops s) (s.last_date * 1000 + m)
  unfolding generate_microseconds
  generate-Stands s m e small bound =
      rw e (elim (Bool-cases (ltb s.last_date max_safe_number_date)) [
        | inl near ↦
            let safe = ltb→lt s.last_date max_safe_number_date near in rw near (refl, omega arith)
        | inr far ↦ rw far (
            ops.Is-add _ _ (s.last_date * 1000) m
              (ops.Is-multiply _ _ s.last_date 1000 (ops.Is-from_number s.last_date (omega arith))
                (ops.Is-from_number 1000 (omega arith)) (omega arith))
              (ops.Is-from_number m (omega arith)) (omega arith))
      ])

  next-stamp :
      (s : Generator) (now log_now : ℕ)
      → (next ops s now log_now).stamp ≡ generate_microseconds ops (next ops s now log_now).state
  unfolding next
  next-stamp s now log_now = ground arith

  pub run : Generator → List (ℕ × ℕ) → List (Stamp ops)
  run s [] = []
  run s ((now, log_now) ∷ readings) =
      (next ops s now log_now).stamp ∷ run (next ops s now log_now).state readings

  -- Timestamps that stand for numbers, each at least `low` and above those before it.
  abbrev pub Increasing : ℕ → List (Stamp ops) → Type 0
  Increasing low [] = Unit
  Increasing low (t ∷ ts) = (x : ℕ) × (low ≤ x) × Stands t x × Increasing (suc x) ts

  valid-pos : (s : Generator) → IsValid s → 0 < ticks s.micros → s.micros ≡ pos (pos_part s.micros)
  valid-pos s v h = ground (arith, v.from_minus_one)

  ticks-pos : (s : Generator) (m : ℕ) → s.micros ≡ pos m → ticks s.micros ≡ m + 1
  ticks-pos s m e = rw e refl

  -- From a valid state, whose last date, as each reading of the clock, is at most 2 ^ 53 minus the
  -- number of calls: `next` returns timestamps that grow strictly and lie above all that went before,
  -- also where the clock stands still or goes back; each that is a Number is below 2 ^ 53, and so is
  -- exact, and the others are Longs of the right value.
  pub run-Increasing :
      (s : Generator) (readings : List (ℕ × ℕ))
      → IsValid s
      → s.last_date + length readings ≤ 2 ^ 53
      → All (λ (r : ℕ × ℕ). r.0 + length readings ≤ 2 ^ 53) readings
      → Increasing (level s) (run s readings)
  unfolding run
  run-Increasing s [] v room clock = tt
  run-Increasing s ((now, log_now) ∷ readings) v room clock =
      let t = (next ops s now log_now).state in
      let m : ℕ = pos_part t.micros in
      let v' : IsValid t = next-IsValid s now log_now v in
      let e : t.micros ≡ pos m = valid-pos t v' (next-ticks s now log_now v) in
      let in_range : t.last_date + length readings ≤ 2 ^ 53 = later_date in
      let x : ℕ = t.last_date * 1000 + m in
      let up : level t ≡ suc x = omega (arith, ticks-pos t m e) in
      (
        x,
        omega (arith, up, next-level s now log_now v),
        rw (next-stamp s now log_now)
            (generate-Stands t m e (omega (arith, ticks-pos t m e, v'.micros_in)) (omega arith)),
        rw (← up) (
            run-Increasing t readings v' in_range
              (All-imp _ _ (λ r h. omega arith) readings clock.1)),
      )
    where
      later_date : (next ops s now log_now).state.last_date + length readings ≤ 2 ^ 53
      later_date =
          let n : ℕ = length readings in
          omega (
            arith,
            next-last_date s now log_now (2 ^ 53 - n) (omega (arith, room))
                (omega (arith, clock.0)),
            room,
          )
