-- ===== src/Policies/LoadBalancing/TokenAware/Laws.antt =====
-- What the iterator of `TokenAwarePolicy` (lib/policies/load-balancing.js) gives in all.
use Prim.Native.String.{String}
use native.Mathlib.Numerals.{add-one}
use text.Mathlib.Text.{◌==◌}
use text.Mathlib.TextEquality.{eq_iff}
use integration_hell.Common.Counts.{count, count-append, keep}
use integration_hell.Common.Rotate.{rotate, SameItems-rotate}
use integration_hell.Common.{
  ℕ, zero, suc, ◌+◌, ◌%◌, ◌<◌, ◌≤◌, ◌≡◌, refl, ap, ◌∙◌, arith, inl, inr, Bool, true, false, not,
  Bool-cases, none, some, List, [], ◌∷◌, ◌++◌, if◌then◌else◌, get_elem?, length,
}
use integration_hell.Policies.LoadBalancing.{
  Host, Distance, drain, drain-more, drain-done, drain-eq,
}
use integration_hell.Policies.LoadBalancing.Round.{drain-then}
use integration_hell.Policies.LoadBalancing.TokenAware.{
  TokenAwareIterator, compute_next, new_query_plan, token_aware, has_address, is_at_local,
}

abbrev not_replica : List Host → Host → Bool
not_replica locals h = not (has_address locals h.address)

module _ (locals : List Host) (start : ℕ) where
  abbrev plan : List Host → ℕ → TokenAwareIterator
  plan child at = record {
    local_replicas = locals;
    replica_index = at;
    start_index = start;
    child = child;
  }

  next-known :
      (x : Host) (child : List Host)
      → has_address locals x.address ≡ true
      → compute_next (plan (x ∷ child) (length locals)) ≡ compute_next (plan child (length locals))
  unfolding compute_next
  next-known x child known = ground arith

  next-fresh :
      (x : Host) (child : List Host)
      → has_address locals x.address ≡ false
      → compute_next (plan (x ∷ child) (length locals)) ≡ (some x, plan child (length locals))
  unfolding compute_next
  next-fresh x child fresh = ground arith

  next-end : (compute_next (plan [] (length locals))).0 ≡ none
  unfolding compute_next
  next-end = ground arith

  drain-child :
      (child : List Host) (fuel : ℕ)
      → length child ≤ fuel
      → drain compute_next fuel (plan child (length locals)) ≡ keep (not_replica locals) child
  unfolding drain
  drain-child [] zero h = refl
  drain-child [] (suc fuel) h = drain-done compute_next fuel (plan [] (length locals)) next-end
  drain-child (x ∷ child) zero h = absurd (omega arith)
  drain-child (x ∷ child) (suc fuel) h = elim (Bool-cases (has_address locals x.address)) [
    | inl known ↦ rw known (
        drain-eq compute_next fuel (plan (x ∷ child) (length locals)) (plan child (length locals))
          (next-known x child known)
        ∙ drain-child child (suc fuel) (omega arith))
    | inr fresh ↦ rw fresh (
        drain-more compute_next fuel (plan (x ∷ child) (length locals)) (next-fresh x child fresh)
        ∙ ap (x ∷◌) (drain-child child fuel (omega arith)))
  ]

  next-local :
      (child : List Host) (at : ℕ) (h : Host)
      → at < length locals
      → get_elem? locals ((start + at) % length locals) ≡ some h
      → compute_next (plan child at) ≡ (some h, plan child (suc at))
  unfolding compute_next
  next-local child at h lt e = ground (arith, add-one at)

  drain-token_aware :
      (child : List Host) (fuel : ℕ)
      → length locals + length child ≤ fuel
      → drain compute_next fuel (plan child 0)
        ≡ rotate (start % length locals) locals ++ keep (not_replica locals) child
  drain-token_aware child fuel fits =
      drain-then locals start compute_next (plan child) (next-local child) (length child)
        (keep (not_replica locals) child) (drain-child child) fuel 0 (omega arith) (omega arith)

abbrev pub local_replicas : (Host → Distance) → List Host → List Host
local_replicas get_distance replicas = keep (λ h. is_at_local (get_distance h)) replicas

-- A token-aware plan, called until it is done and often enough, gives the replicas at a local
-- distance, read round from the random start, and then the hosts of the child's plan whose address
-- is not that of such a replica, in the child's order.
pub new_query_plan-replicas_first :
    (get_distance : Host → Distance) (replicas : List Host) (start : ℕ) (child : List Host)
    (fuel : ℕ) (it : TokenAwareIterator)
    → new_query_plan get_distance true (some replicas) start (some child) ≡ token_aware it
    → length (local_replicas get_distance replicas) + length child ≤ fuel
    → drain compute_next fuel it
      ≡ rotate
          (start % length (local_replicas get_distance replicas))
          (local_replicas get_distance replicas)
        ++ keep (not_replica (local_replicas get_distance replicas)) child
unfolding new_query_plan
new_query_plan-replicas_first get_distance replicas start child fuel it e fits =
    let is_plan : it ≡ plan (local_replicas get_distance replicas) start child 0 = ground arith in
    rw is_plan (drain-token_aware (local_replicas get_distance replicas) start child fuel fits)

abbrev pub at_address : String → Host → Bool
at_address a h = h.address == a

has_address-count :
    (a : String) (locals : List Host)
    → has_address locals a ≡ false
    → count (at_address a) locals ≡ 0
has_address-count a [] e = refl
has_address-count a (h ∷ locals) e = ground (arith, has_address-count a locals)

has_address-count_pos :
    (a : String) (locals : List Host)
    → has_address locals a ≡ true
    → 0 < count (at_address a) locals
has_address-count_pos a [] e = cc
has_address-count_pos a (h ∷ locals) e = ground (arith, has_address-count_pos a locals)

-- The hosts of one address, over the part of the child's plan that is not skipped.
count-not_replica :
    (a : String) (locals child : List Host)
    → count (at_address a) (keep (not_replica locals) child)
      ≡ (if has_address locals a then 0 else count (at_address a) child)
count-not_replica a locals [] = ground arith
count-not_replica a locals (h ∷ child) = ground (
  arith,
  (eq_iff h.address a).0,
  ap (has_address locals) {x = h.address} {y = a},
  count-not_replica a locals child,
)

-- For an address that stands at most once among the replicas at a local distance and at most once in
-- the child's plan: a token-aware plan, called until it is done and at least as often as there are
-- such replicas and hosts of the child's plan, gives it at most once, and at least once if the child's
-- plan has it.
pub new_query_plan-once :
    (get_distance : Host → Distance) (replicas : List Host) (start : ℕ) (child : List Host)
    (fuel : ℕ) (it : TokenAwareIterator) (a : String)
    → new_query_plan get_distance true (some replicas) start (some child) ≡ token_aware it
    → length (local_replicas get_distance replicas) + length child ≤ fuel
    → count (at_address a) (local_replicas get_distance replicas) ≤ 1
    → count (at_address a) child ≤ 1
    → (count (at_address a) (drain compute_next fuel it) ≤ 1)
      × (count (at_address a) child ≤ count (at_address a) (drain compute_next fuel it))
new_query_plan-once get_distance replicas start child fuel it a e fits once once' =
    let locals = local_replicas get_distance replicas in
    let round = rotate (start % length locals) locals in
    let rest = keep (not_replica locals) child in
    let total : count (at_address a) (drain compute_next fuel it)
        ≡ count (at_address a) locals
          + (if has_address locals a then 0 else count (at_address a) child) =
      rw (new_query_plan-replicas_first get_distance replicas start child fuel it e fits) (
        omega (
          arith,
          count-append (at_address a) round rest,
          SameItems-rotate (start % length locals) locals (at_address a),
          count-not_replica a locals child,
        )) in
    ground (arith, total, has_address-count a locals, has_address-count_pos a locals)
