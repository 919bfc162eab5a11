-- ===== src/Policies/Timestamp.antt =====
-- lib/policies/timestamp-generation.js: `MonotonicTimestampGenerator`. The clock's readings are
-- arguments of `next`, in milliseconds; the text of the log message is not modelled.
pub mod Monotonic
mod Tests
use integration_hell.Common.{
  ℕ, zero, suc, ◌+◌, ◌-◌, ◌*◌, Bool, true, false, ◌&&◌, Option, none, some, leb, ltb, ◌==◌,
  if◌then◌else◌,
}
use integration_hell.Common.Int.{ℤ, pos, negsuc, pos_part}
use integration_hell.Common.Long.{LongOps}

pub record Generator : Type 0 where
  pub warning_threshold : ℕ
  pub min_log_interval : ℕ
  pub micros : ℤ
  pub last_date : ℕ
  pub last_log_date : ℕ

-- The constructor; `none` is the error on a negative threshold, and a threshold of 0 counts as not
-- given.
pub new_generator : Option ℤ → Option ℕ → Option Generator
new_generator (some (negsuc n)) interval = none
new_generator threshold interval = some (record {
  warning_threshold = elim threshold [
    | none ↦ 1000
    | some t ↦ if pos_part t == 0 then 1000 else pos_part t
  ];
  min_log_interval = elim interval [ none ↦ 1000 | some i ↦ i ];
  micros = negsuc 0;
  last_date = 0;
  last_log_date = 0;
})

abbrev pub succ_ℤ : ℤ → ℤ
succ_ℤ (pos n) = pos (n + 1)
succ_ℤ (negsuc zero) = pos 0
succ_ℤ (negsuc (suc n)) = negsuc n

abbrev pub is_pos : ℤ → ℕ → Bool
is_pos (pos m) n = m == n
is_pos (negsuc m) n = false

-- `_maxSafeNumberDate`
abbrev pub max_safe_number_date : ℕ
max_safe_number_date = 9007199254740

module _ (ops : LongOps) where
  open ops use {Long}

  pub data Stamp : Type 0 where
    number : ℕ → Stamp
    long : Long → Stamp

  -- `_micros` is not negative where this is called.
  pub generate_microseconds : Generator → Stamp
  generate_microseconds s =
      if ltb s.last_date max_safe_number_date
      then number (s.last_date * 1000 + pos_part s.micros)
      else long (
          ops.add (ops.multiply (ops.from_number s.last_date) (ops.from_number 1000))
            (ops.from_number (pos_part s.micros)))

  pub record Outcome : Type 0 where
    pub stamp : Stamp
    pub warned : Bool
    pub state : Generator

  -- `next` at a reading `now` of `getDate`, and a reading `log_now` for the log.
  pub next : Generator → ℕ → ℕ → Outcome
  unfolding generate_microseconds
  next s now log_now =
      let drifted = if ltb now s.last_date then s.last_date - now else 0 in
      let date = if ltb now s.last_date then s.last_date else now in
      let micros' = succ_ℤ s.micros in
      let full = is_pos micros' 1000 in
      let date' = if full && date == s.last_date then date + 1 else date in
      let drifted' = if full && date == s.last_date then drifted + 1 else drifted in
      let fresh = record s { micros = pos 0; last_date = now } in
      let moved = record s { micros = if full then pos 0 else micros'; last_date = date' } in
      let warns =
        leb s.warning_threshold drifted'
        && (ltb 0 s.min_log_interval && leb (s.last_log_date + s.min_log_interval) log_now) in
      if ltb s.last_date now
      then record { stamp = generate_microseconds fresh; warned = false; state = fresh }
      else record {
        stamp = generate_microseconds moved;
        warned = warns;
        state = if warns then record moved { last_log_date = log_now } else moved;
      }
