-- ===== src/Types/Duration/Print.antt =====
-- lib/types/duration.js: what `toString` writes, item by item.
use native.Mathlib.Nat.{div-le_self, div-add-mod', mod-lt}
use integration_hell.Common.{
  ℕ, ◌+◌, ◌*◌, ◌/◌, ◌%◌, ◌^◌, ◌≤◌, ◌<◌, ◌≡◌, refl, sym, ap, ◌∙◌, inl, inr, arith, ◌||◌, Bool-cases,
  List, [], ◌∷◌, ◌++◌, ltb, ◌==◌, if◌then◌else◌, All,
}
use integration_hell.Common.Long.{LongOps}
use integration_hell.Types.Duration.{
  Symbol, year, hour, minute, second, milli, micro, nano, rounded, append, append64, append_nanos,
}
use integration_hell.Types.Duration.Totals.{
  index, months_of, days_of, nanos_of, milli_is, second_is, minute_is, hour_is,
}
use integration_hell.Types.Duration.Parse.{total, Ordered, IsSmall}

-- In order from `j`, with no index above `i`.
abbrev pub UpTo : ℕ → List (ℕ × Symbol) → ℕ → Type 0
UpTo j [] i = j ≤ i
UpTo j (item ∷ items) i = (j < index item.1) × UpTo (index item.1) items i

pub UpTo-Ordered : (j : ℕ) (items : List (ℕ × Symbol)) (i : ℕ) → UpTo j items i → Ordered j items
UpTo-Ordered j [] i h = tt
UpTo-Ordered j (item ∷ items) i h = (h.0, UpTo-Ordered (index item.1) items i h.1)

upto_weaken :
    (j : ℕ) (items : List (ℕ × Symbol)) (i k : ℕ) → i ≤ k → UpTo j items i → UpTo j items k
upto_weaken j [] i k l h = omega arith
upto_weaken j (item ∷ items) i k l h = (h.0, upto_weaken (index item.1) items i k l h.1)

upto_snoc :
    (j : ℕ) (items : List (ℕ × Symbol)) (i value : ℕ) (symbol : Symbol)
    → i < index symbol
    → UpTo j items i
    → UpTo j (items ++ (value, symbol) ∷ []) (index symbol)
upto_snoc j [] i value symbol l h = (omega arith, omega arith)
upto_snoc j (item ∷ items) i value symbol l h =
    (h.0, upto_snoc (index item.1) items i value symbol l h.1)

IsSmall-snoc :
    (items : List (ℕ × Symbol)) (value : ℕ) (symbol : Symbol)
    → All IsSmall items
    → value < 2 ^ 63
    → All IsSmall (items ++ (value, symbol) ∷ [])
IsSmall-snoc [] value symbol h v = (v, tt)
IsSmall-snoc (item ∷ items) value symbol h v = (h.0, IsSmall-snoc items value symbol h.1 v)

total_snoc :
    (f : ℕ → Symbol → ℕ) (items : List (ℕ × Symbol)) (value : ℕ) (symbol : Symbol)
    → total f (items ++ (value, symbol) ∷ []) ≡ total f items + f value symbol
total_snoc f [] value symbol = omega arith
total_snoc f (item ∷ items) value symbol = let rest = total_snoc f items value symbol in omega arith

-- What the items written so far amount to.
pub record Written (items : List (ℕ × Symbol)) (i months days nanos : ℕ) : Type 0 where
  pub upto : UpTo 0 items i
  pub small : All IsSmall items
  pub months_total : total months_of items ≡ months
  pub days_total : total days_of items ≡ days
  pub nanos_total : total nanos_of items ≡ nanos

Written-snoc :
    (items : List (ℕ × Symbol)) (i m d n value : ℕ) (symbol : Symbol)
    → Written items i m d n
    → i < index symbol
    → value < 2 ^ 63
    → Written
        (items ++ (value, symbol) ∷ [])
        (index symbol)
        (m + months_of value symbol)
        (d + days_of value symbol)
        (n + nanos_of value symbol)
Written-snoc items i m d n value symbol w l v = record {
  upto = upto_snoc 0 items i value symbol l w.upto;
  small = IsSmall-snoc items value symbol w.small v;
  months_total =
      total_snoc months_of items value symbol ∙ ap (λ t. t + months_of value symbol) w.months_total;
  days_total =
      total_snoc days_of items value symbol ∙ ap (λ t. t + days_of value symbol) w.days_total;
  nanos_total =
      total_snoc nanos_of items value symbol ∙ ap (λ t. t + nanos_of value symbol) w.nanos_total;
}

pub Written-same :
    (items : List (ℕ × Symbol)) (i k m d n m₁ d₁ n₁ : ℕ)
    → Written items i m d n
    → i ≤ k
    → m ≡ m₁
    → d ≡ d₁
    → n ≡ n₁
    → Written items k m₁ d₁ n₁
Written-same items i k m d n m₁ d₁ n₁ w l p q r = record {
  upto = upto_weaken 0 items i k l w.upto;
  small = w.small;
  months_total = w.months_total ∙ p;
  days_total = w.days_total ∙ q;
  nanos_total = w.nanos_total ∙ r;
}

-- The months that are written beyond those that there are.
abbrev pub extra : ℕ → ℕ
extra m = if ltb m 12 || ltb (m % 12) 6 then 0 else 12

pub append_years :
    (m : ℕ)
    → m ≤ 2147483647
    → (k : ℕ) × Written (append m 12 year []).0 1 k 0 0
      × (k + (append m 12 year []).1 ≡ m + extra m)
      × ((append m 12 year []).1 ≤ m)
unfolding append rounded
append_years m h = elim (Bool-cases (m == 0 || ltb m 12)) [
  | inl few ↦ rw few (
    0,
    record {
      upto = omega arith;
      small = tt;
      months_total = refl;
      days_total = refl;
      nanos_total = refl;
    },
    ground arith,
    omega arith,
  )
  | inr many ↦ rw many (
    (2 * m + 12) / 24 * 12,
    record {
      upto = (omega arith, omega arith);
      small = (omega arith, tt);
      months_total = omega arith;
      days_total = refl;
      nanos_total = refl;
    },
    ground arith,
    omega arith,
  )
]

pub append_one :
    (r : ℕ) (symbol : Symbol) (items : List (ℕ × Symbol)) (i m d n : ℕ)
    → Written items i m d n
    → i < index symbol
    → r < 2 ^ 63
    → (m₁ d₁ n₁ : ℕ) → m₁ ≡ m + months_of r symbol
    → d₁ ≡ d + days_of r symbol
    → n₁ ≡ n + nanos_of r symbol
    → (r ≡ 0 → (m₁ ≡ m) × (d₁ ≡ d) × (n₁ ≡ n))
    → Written (append r 1 symbol items).0 (index symbol) m₁ d₁ n₁
unfolding append rounded
append_one r symbol items i m d n w l v m₁ d₁ n₁ p q t z = elim (Bool-cases (r == 0 || ltb r 1)) [
  | inl nothing ↦
      let e : r ≡ 0 = ground arith in
      rw nothing (
        Written-same items i (index symbol) m d n m₁ d₁ n₁ w (omega arith) (sym (z e).0)
          (sym (z e).1) (sym (z e).2))
  | inr some_left ↦
      let e : (2 * r + 1) / 2 ≡ r = omega arith in
      rw (some_left, e)
        (Written-same _ (index symbol) (index symbol) _ _ _ m₁ d₁ n₁
          (Written-snoc items i m d n r symbol w l v) (omega arith) (sym p) (sym q) (sym t))
]

module _ (ops : LongOps) where
  open ops use {Long, Is}

  -- The items written and the number left, of a total.
  abbrev Left : List (ℕ × Symbol) × Long → ℕ → ℕ → ℕ → ℕ → ℕ → Type 0
  Left s i m d whole bound =
      (n r : ℕ) × Written s.0 i m d n × Is s.1 r × (n + r ≡ whole) × (r < bound)

  append64_step :
      (s : List (ℕ × Symbol) × Long) (divisor : Long) (symbol : Symbol) (i m d whole bound p : ℕ)
      → Left s i m d whole bound
      → Is divisor p
      → 0 < p
      → i < index symbol
      → bound ≤ 2 ^ 63
      → ((v : ℕ) → (months_of v symbol ≡ 0) × (days_of v symbol ≡ 0) × (nanos_of v symbol ≡ v * p))
      → Left (append64 ops s.1 divisor symbol s.0) (index symbol) m d whole p
  unfolding append64
  append64_step s divisor symbol i m d whole bound p (n, r, w, is, sum, less) hp k l b f =
      let zero_is = ops.Is-from_number 0 (omega arith) in
      let e = ops.Is-equals s.1 (ops.from_number 0) r 0 is zero_is in
      let t = ops.Is-less_than s.1 divisor r p is hp in
      elim (Bool-cases (r == 0 || ltb r p)) [
        | inl nothing ↦
            rw (e, t, nothing)
              (
                n,
                r,
                Written-same s.0 i (index symbol) m d n m d n w (omega arith) refl refl refl,
                is,
                sum,
                ground arith,
              )
        | inr enough ↦
            let q = ops.Is-written _ (r / p) (ops.Is-divide s.1 divisor r p is hp k) in
            let small : r / p < 2 ^ 63 = omega (arith, div-le_self r p) in
            rw (e, t, enough, q)
              (
                n + r / p * p,
                r % p,
                Written-same _ (index symbol) (index symbol) _ _ _ m d (n + r / p * p)
                    (Written-snoc s.0 i m d n (r / p) symbol w l small) (omega arith)
                    (omega (arith, (f (r / p)).0)) (omega (arith, (f (r / p)).1))
                    (ap (λ x. n + x) (f (r / p)).2),
                ops.Is-modulo s.1 divisor r p is hp k,
                omega (arith, div-add-mod' r p),
                mod-lt r k,
              )
      ]

  pub append_nanos_lem :
      (nanos : Long) (items : List (ℕ × Symbol)) (i m d x : ℕ)
      → Written items i m d 0
      → i ≤ 4
      → Is nanos x
      → x < 2 ^ 63
      → Written (append_nanos ops nanos items) 10 m d x
  unfolding append_nanos
  append_nanos_lem nanos items i m d x w l is less =
      let one_is = ops.Is-from_number 1 (omega arith) in
      let micro_is = ops.Is-from_number 1000 (omega arith) in
      let start : Left (items, nanos) i m d x (2 ^ 63) = (0, x, w, is, omega arith, less) in
      let hours =
        append64_step (items, nanos) _ hour i m d x (2 ^ 63) 3600000000000 start (hour_is ops)
          (omega arith) (omega arith) (omega arith) (λ v. (refl, refl, refl)) in
      let minutes =
        append64_step _ _ minute 5 m d x 3600000000000 60000000000 hours (minute_is ops)
          (omega arith) (omega arith) (omega arith) (λ v. (refl, refl, refl)) in
      let seconds =
        append64_step _ _ second 6 m d x 60000000000 1000000000 minutes (second_is ops)
          (omega arith) (omega arith) (omega arith) (λ v. (refl, refl, refl)) in
      let millis =
        append64_step _ _ milli 7 m d x 1000000000 1000000 seconds (milli_is ops) (omega arith)
          (omega arith) (omega arith) (λ v. (refl, refl, refl)) in
      let micros =
        append64_step _ _ micro 8 m d x 1000000 1000 millis micro_is (omega arith) (omega arith)
          (omega arith) (λ v. (refl, refl, refl)) in
      let nanos_left =
        append64_step _ _ nano 9 m d x 1000 1 micros one_is (omega arith) (omega arith)
          (omega arith) (λ v. (refl, refl, refl)) in
      Written-same _ 10 10 m d nanos_left.0 m d x nanos_left.2 (omega arith) refl refl
        (omega (arith, nanos_left.4, nanos_left.5))
