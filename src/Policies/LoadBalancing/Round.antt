-- ===== src/Policies/LoadBalancing/Round.antt =====
-- Iterators of lib/policies/load-balancing.js that read an array round from a start index.
use native.Mathlib.Nat.{mod-add-mod, mod-lt}
use mathlib.Core.List.{append-nil}
use integration_hell.Common.Rotate.{
  rotate, length-rotate, get_elem?-rotate, lt-get_elem?, drop-get_elem?, drop-length,
}
use integration_hell.Common.{
  ℕ, zero, suc, ◌+◌, ◌%◌, ◌<◌, ◌≤◌, ◌≡◌, refl, sym, ap, ◌∙◌, drop, arith, inl, inr, Bool-cases,
  ltb→lt, ge_of_ltb, Option, none, some, List, [], ◌∷◌, ◌++◌, ltb, get_elem?, length,
}
use integration_hell.Policies.LoadBalancing.{drain, drain-more, drain-done}

module _ {A : Type 0} where
  -- What a plan has left to give: the hosts read round from `start`, from position `at` on.
  abbrev pub left : List A → ℕ → ℕ → List A
  left hosts start at = drop at (rotate (start % length hosts) hosts)

  pub next_at :
      (hosts : List A) (start at : ℕ)
      → at < length hosts
      → (h : A) × (get_elem? hosts ((start + at) % length hosts) ≡ some h)
        × (left hosts start at ≡ h ∷ left hosts start (suc at))
  next_at hosts start at lt =
      let k = start % length hosts in
      let k_lt : k < length hosts = mod-lt start (omega arith) in
      let (h, e) = lt-get_elem? (rotate k hosts) at (omega (arith, length-rotate k hosts)) in
      (
        h,
        ap (get_elem? hosts) (sym (mod-add-mod start (length hosts) at))
            ∙ sym (get_elem?-rotate hosts k at k_lt lt)
            ∙ e,
        drop-get_elem? (rotate k hosts) at h e,
      )

module _ {A S : Type 0} (hosts : List A) (start : ℕ) (next : S → Option A × S) (plan : ℕ → S)
    (step : (at : ℕ) (h : A)
      → at < length hosts
      → get_elem? hosts ((start + at) % length hosts) ≡ some h
      → next (plan at) ≡ (some h, plan (suc at))) where
  all_given :
      (m : ℕ) (after : List A)
      → ((fuel : ℕ) → m ≤ fuel → drain next fuel (plan (length hosts)) ≡ after)
      → (fuel at : ℕ) → at ≡ length hosts
      → m ≤ fuel
      → drain next fuel (plan at) ≡ left hosts start at ++ after
  all_given m after end fuel at e fits =
      rw
        (
          e,
          drop-length (rotate (start % length hosts) hosts) (length hosts)
              (omega (arith, length-rotate (start % length hosts) hosts)),
        )
        (end fuel fits)

  -- The calls of `next` from a position on give what is left, and then what a plan that has given
  -- all of `hosts` gives.
  pub drain-then :
      (m : ℕ) (after : List A)
      → ((fuel : ℕ) → m ≤ fuel → drain next fuel (plan (length hosts)) ≡ after)
      → (fuel at : ℕ) → at ≤ length hosts
      → length hosts + m ≤ at + fuel
      → drain next fuel (plan at) ≡ left hosts start at ++ after
  drain-then m after end zero at h fits = all_given m after end zero at (omega arith) (omega arith)
  drain-then m after end (suc fuel) at h fits = elim (Bool-cases (ltb at (length hosts))) [
    | inl more ↦
        let lt = ltb→lt _ _ more in
        let (x, e, rest) = next_at hosts start at lt in
        drain-more next fuel (plan at) (step at x lt e)
        ∙ ap (x ∷◌) (drain-then m after end fuel (suc at) lt (omega arith))
        ∙ ap (◌++ after) (sym rest)
    | inr none_left ↦
        let past = ge_of_ltb at (length hosts) none_left in
        all_given m after end (suc fuel) at (omega arith) (omega arith)
  ]

  ends :
      (next (plan (length hosts))).0 ≡ none
      → (fuel : ℕ) → 0 ≤ fuel
      → drain next fuel (plan (length hosts)) ≡ []
  unfolding drain
  ends stop zero h = refl
  ends stop (suc fuel) h = drain-done next fuel (plan (length hosts)) stop

  -- A plan that then is done gives the hosts read round.
  pub drain-rotate :
      (fuel : ℕ)
      → (next (plan (length hosts))).0 ≡ none
      → length hosts ≤ fuel
      → drain next fuel (plan 0) ≡ rotate (start % length hosts) hosts
  drain-rotate fuel stop fits =
      drain-then 0 [] (ends stop) fuel 0 (omega arith) (omega arith) ∙ append-nil _
