-- ===== src/Policies/LoadBalancing/DefaultPolicy/Laws.antt =====
-- What a plan of `DefaultLoadBalancingPolicy` (lib/policies/load-balancing.js) holds.
use integration_hell.Common.Counts.{
  SameItems, SameItems-swap, count, count-append, count-keep_and, count-eq, count-none, one_if,
  keep, swap,
}
use native.Mathlib.Nat.{add_comm}
use native.Mathlib.Numerals.{add-one}
use mathlib.Core.List.{append-nil, append_assoc}
use integration_hell.Common.Rotate.{rotate, SameItems-rotate, drop-length, length-rotate}
use integration_hell.Policies.LoadBalancing.Round.{next_at}
use integration_hell.Common.{
  ℕ, zero, suc, ◌+◌, ◌-◌, ◌%◌, ◌≡◌, refl, sym, ap, ◌∙◌, drop, arith, inl, inr, ◌⊎◌, Bool, true,
  false, not, Bool-cases, Option-cases, none, some, List, [], ◌∷◌, ◌++◌, ltb, if◌then◌else◌, length,
  ◌&&◌, ◌==◌,
}
use integration_hell.Policies.LoadBalancing.{Host}
use integration_hell.Policies.LoadBalancing.LocalDc.{same_text}
use integration_hell.Policies.LoadBalancing.DefaultPolicy.{
  Config, Policy, Scan, shuffle_from, shuffle_array, send_back, scan_replica, scan, scan_start,
  send_newly_up_back, pick_of_two, reorder, same_host, index_found, yield_hosts, yield_one,
  get_local_hosts, get_filtered_local_hosts, is_filtered, new_query_plan,
}

-- The shuffle keeps the hosts, whatever the random numbers.
shuffle_from-SameItems :
    (pick : ℕ → ℕ) (i : ℕ) (arr : List Host) → SameItems (shuffle_from pick i arr) arr
unfolding shuffle_from
shuffle_from-SameItems pick zero arr p = refl
shuffle_from-SameItems pick (suc i) arr p =
    shuffle_from-SameItems pick i (swap arr (suc i) (pick (suc i))) p
    ∙ SameItems-swap arr (suc i) (pick (suc i)) p

pub shuffle_array-SameItems :
    (pick : ℕ → ℕ) (arr : List Host) → SameItems (shuffle_array pick arr) arr
unfolding shuffle_array
shuffle_array-SameItems pick arr = shuffle_from-SameItems pick (length arr - 1) arr

send_back-SameItems :
    (health : Host → Bool) (i unhealthy counter : ℕ) (arr : List Host)
    → SameItems (send_back health i unhealthy counter arr) arr
unfolding send_back
send_back-SameItems health zero unhealthy counter arr p = refl
send_back-SameItems health (suc i) unhealthy counter arr p = ground (
  arith,
  send_back-SameItems health i unhealthy counter arr p,
  send_back-SameItems health i unhealthy (counter + 1) arr p,
  send_back-SameItems health i unhealthy (counter + 1) (swap arr i (length arr - 1 - counter)) p,
  SameItems-swap arr i (length arr - 1 - counter) p,
)

module _ (c : Config) where
  send_newly_up_back-SameItems :
      (n : Host) (dice : Bool) (arr : List Host) → SameItems (send_newly_up_back c n dice arr) arr
  unfolding send_newly_up_back
  send_newly_up_back-SameItems n dice arr p =
      ground
        (arith, SameItems-swap arr 0 (length arr - 1) p, SameItems-swap arr 1 (length arr - 1) p)

  pick_of_two-SameItems : (arr : List Host) → SameItems (pick_of_two c arr) arr
  unfolding pick_of_two
  pick_of_two-SameItems [] p = refl
  pick_of_two-SameItems (a ∷ []) p = refl
  pick_of_two-SameItems (a ∷ b ∷ rest) p = ground (arith, SameItems-swap (a ∷ b ∷ rest) 0 1 p)

  then_two-SameItems :
      (small : Bool) (arr moved : List Host)
      → SameItems moved arr
      → SameItems (if small then arr else pick_of_two c moved) arr
  then_two-SameItems true arr moved h p = refl
  then_two-SameItems false arr moved h p = pick_of_two-SameItems moved p ∙ h p

  -- The order that health, age and load give keeps the replicas.
  pub reorder-SameItems :
      (found : Scan) (dice : Bool) (arr : List Host) → SameItems (reorder c found dice arr) arr
  unfolding reorder
  reorder-SameItems found dice arr = elim (Option-cases found.newly_up) [
    | inl e ↦ then_two-SameItems (ltb (length arr) 3) arr _ (λ p.
        rw e
          (ground (arith, send_back-SameItems c.health_check (length arr) found.unhealthy 0 arr p)))
    | inr (n, e) ↦
        then_two-SameItems (ltb (length arr) 3) arr _
          (λ p. rw e (send_newly_up_back-SameItems n dice arr p))
  ]

  abbrev pub is_eligible : Host → Bool
  is_eligible h = c.filter h && same_text h.datacenter c.local_dc && h.is_up

  scan_replica-filtered :
      (acc : Scan) (h : Host)
      → (scan_replica c acc h).filtered
        ≡ (if is_eligible h then acc.filtered ++ h ∷ [] else acc.filtered)
  unfolding scan_replica
  scan_replica-filtered acc h = ground arith

  -- The replicas that the scan keeps are the eligible ones, in their order.
  pub scan-filtered :
      (acc : Scan) (hs : List Host) → (scan c acc hs).filtered ≡ acc.filtered ++ keep is_eligible hs
  unfolding scan
  scan-filtered acc [] = sym (append-nil _)
  scan-filtered acc (h ∷ hs) =
      scan-filtered (scan_replica c acc h) hs
      ∙ rw (scan_replica-filtered acc h) (elim (Bool-cases (is_eligible h)) [
        | inl e ↦ rw e (append_assoc acc.filtered (h ∷ []) (keep is_eligible hs))
        | inr e ↦ rw e
      ])

  -- A loop that reads an array round gives the elements that pass, in the order of the reading.
  yield_hosts-keep :
      (can : Host → Bool) (hosts : List Host) (initial left i : ℕ)
      → i + left ≡ length hosts
      → yield_hosts c can hosts initial left i
        ≡ keep (λ h. can h && h.is_up) (drop i (rotate (initial % length hosts) hosts))
  unfolding yield_hosts
  yield_hosts-keep can hosts initial zero i e = rw (
      drop-length (rotate (initial % length hosts) hosts) i
        (omega (arith, length-rotate (initial % length hosts) hosts)))
  yield_hosts-keep can hosts initial (suc left) i e =
      let (x, at, rest) = next_at hosts initial i (omega arith) in
      rw (add_comm i initial, at, rest, add-one i)
        (ap (yield_one can (some x))
          (yield_hosts-keep can hosts initial left (suc i) (omega arith)))

abbrev pub at_ref : ℕ → Host → Bool
at_ref r h = h.ref == r

index_found-count :
    (replicas : List Host) (h : Host)
    → index_found replicas h ≡ ltb 0 (count (at_ref h.ref) replicas)
index_found-count [] h = ground arith
index_found-count (x ∷ replicas) h = ground (arith, index_found-count replicas h)

-- The cache of hosts in the local data center is empty, or is that of the present host map.
abbrev pub IsFresh : Config → Policy → Type 0
IsFresh c s = (s.filtered_hosts ≡ none) ⊎ (s.filtered_hosts ≡ some (keep (is_filtered c) s.hosts))

module _ (c : Config) (s : Policy) (fresh : IsFresh c s) where
  get_filtered-IsFresh : (get_filtered_local_hosts c s).0 ≡ keep (is_filtered c) s.hosts
  unfolding get_filtered_local_hosts
  get_filtered-IsFresh = elim fresh [ inl e ↦ rw e | inr e ↦ rw e ]

  get_filtered-index : (get_filtered_local_hosts c s).1.index ≡ s.index
  unfolding get_filtered_local_hosts
  get_filtered-index = elim fresh [ inl e ↦ rw e | inr e ↦ rw e ]

  -- `_getLocalHosts` reads the filtered hosts round from the policy's index.
  get_local_hosts-keep :
      (replicas : List Host)
      → (get_local_hosts c replicas s).0
        ≡ keep
            (λ h. not (index_found replicas h) && h.is_up)
            (rotate
              (s.index % length (keep (is_filtered c) s.hosts))
              (keep (is_filtered c) s.hosts))
  unfolding get_local_hosts
  get_local_hosts-keep replicas =
      rw (get_filtered-IsFresh, get_filtered-index)
        (yield_hosts-keep c (λ h. not (index_found replicas h)) (keep (is_filtered c) s.hosts)
          s.index (length (keep (is_filtered c) s.hosts)) 0 (omega arith))

  -- Counting in `_getLocalHosts` is counting the eligible hosts that are no replica.
  count-get_local_hosts :
      (p : Host → Bool) (replicas : List Host)
      → count p (get_local_hosts c replicas s).0
        ≡ count (λ h. p h && not (index_found replicas h)) (keep (is_eligible c) s.hosts)
  count-get_local_hosts p replicas =
      let own = λ (h : Host). not (index_found replicas h) && h.is_up in
      let both = λ (h : Host). p h && own h in
      let all = keep (is_filtered c) s.hosts in
      rw (get_local_hosts-keep replicas) (
        count-keep_and p own (rotate (s.index % length all) all)
        ∙ SameItems-rotate (s.index % length all) all both
        ∙ count-keep_and both (is_filtered c) s.hosts
        ∙ count-eq (λ h. both h && is_filtered c h)
            (λ h. (p h && not (index_found replicas h)) && is_eligible c h) (λ h. ground arith)
            s.hosts
        ∙ sym (count-keep_and (λ h. p h && not (index_found replicas h)) (is_eligible c) s.hosts))

  others-count :
      (replicas : List Host) (r : ℕ)
      → count (at_ref r) (get_local_hosts c replicas s).0 ≡ (
          if ltb 0 (count (at_ref r) replicas)
          then 0
          else count (at_ref r) (keep (is_eligible c) s.hosts))
  others-count replicas r =
      count-get_local_hosts (at_ref r) replicas
      ∙ count-eq (λ h. at_ref r h && not (index_found replicas h))
          (λ h. at_ref r h && not (ltb 0 (count (at_ref r) replicas)))
          (λ h. ground (
            arith,
            index_found-count replicas h,
            ap (λ (k : ℕ). count (at_ref k) replicas) {x = h.ref} {y = r},
          ))
          (keep (is_eligible c) s.hosts)
      ∙ gated (ltb 0 (count (at_ref r) replicas))
    where
      gated :
          (b : Bool)
          → count (λ h. at_ref r h && not b) (keep (is_eligible c) s.hosts)
            ≡ (if b then 0 else count (at_ref r) (keep (is_eligible c) s.hosts))
      gated true =
          count-none (λ h. at_ref r h && false) (λ h. ground arith) (keep (is_eligible c) s.hosts)
      gated false =
          count-eq (λ h. at_ref r h && true) (at_ref r) (λ h. ground arith)
            (keep (is_eligible c) s.hosts)

  replicas_then_others :
      (ordered eligible : List Host)
      → SameItems ordered eligible
      → (r : ℕ)
      → count (at_ref r) ordered + count (at_ref r) (get_local_hosts c ordered s).0 ≡ (
          if ltb 0 (count (at_ref r) eligible)
          then count (at_ref r) eligible
          else count (at_ref r) (keep (is_eligible c) s.hosts))
  replicas_then_others ordered eligible same r =
      rw (others-count ordered r, same (at_ref r)) (ground arith)

  -- With a fresh cache and no preferred host, a routed plan gives an eligible replica as often as
  -- `_getReplicas` does, another eligible host as often as the host map has it, and nothing else:
  -- for every identity `r`, and so no host twice where neither source has one twice.
  pub new_query_plan-counts :
      (replicas : List Host) (pick : ℕ → ℕ) (dice : Bool) (r : ℕ)
      → count (at_ref r) (new_query_plan c true (some replicas) none pick dice s).0 ≡ (
          if ltb 0 (count (at_ref r) (keep (is_eligible c) replicas))
          then count (at_ref r) (keep (is_eligible c) replicas)
          else count (at_ref r) (keep (is_eligible c) s.hosts))
  unfolding new_query_plan
  new_query_plan-counts replicas pick dice r =
      let found = scan c (scan_start c) replicas in
      let ordered = reorder c found dice (shuffle_array pick found.filtered) in
      let same : SameItems ordered (keep (is_eligible c) replicas) = λ p.
        reorder-SameItems c found dice (shuffle_array pick found.filtered) p
        ∙ shuffle_array-SameItems pick found.filtered p
        ∙ ap (count p) (scan-filtered c (scan_start c) replicas) in
      count-append (at_ref r) ordered (get_local_hosts c ordered s).0
      ∙ replicas_then_others ordered (keep (is_eligible c) replicas) same r

  preferred_count :
      (preferred : Host) (pick : ℕ → ℕ) (dice : Bool) (r : ℕ)
      → count (at_ref r) (new_query_plan c false none (some preferred) pick dice s).0
        ≡ (if preferred.ref == r then 1 else count (at_ref r) (keep (is_eligible c) s.hosts))
  unfolding new_query_plan
  preferred_count preferred pick dice r =
      ap (one_if (preferred.ref == r) +◌) (
        count-keep_and (at_ref r) (λ h. not (same_host h preferred)) (get_local_hosts c [] s).0
        ∙ count-eq (λ h. at_ref r h && not (same_host h preferred))
            (λ h. at_ref r h && not (preferred.ref == r)) (λ h. ground arith)
            (get_local_hosts c [] s).0)
      ∙ gated (preferred.ref == r)
    where
      gated :
          (b : Bool)
          → one_if b + count (λ h. at_ref r h && not b) (get_local_hosts c [] s).0
            ≡ (if b then 1 else count (at_ref r) (keep (is_eligible c) s.hosts))
      gated true =
          ap (1 +◌)
            (count-none (λ h. at_ref r h && false) (λ h. ground arith) (get_local_hosts c [] s).0)
      gated false = omega (
        arith,
        count-eq (λ h. at_ref r h && true) (at_ref r) (λ h. ground arith) (get_local_hosts c [] s).0
            ∙ others-count [] r,
      )

  -- With a fresh cache, a preferred host comes first in a plan of local hosts, and not again, and every
  -- other eligible host comes as often as the host map has it, for every identity `r`.
  pub new_query_plan-preferred :
      (preferred : Host) (pick : ℕ → ℕ) (dice : Bool)
      → (rest : List Host) × ((new_query_plan c false none (some preferred) pick dice s).0
          ≡ preferred ∷ rest)
        × ((r : ℕ)
            → count (at_ref r) rest
              ≡ (if preferred.ref == r then 0 else count (at_ref r) (keep (is_eligible c) s.hosts)))
  unfolding new_query_plan
  new_query_plan-preferred preferred pick dice = (
    keep (λ h. not (same_host h preferred)) (get_local_hosts c [] s).0,
    refl,
    λ r. let whole = preferred_count preferred pick dice r in ground arith,
  )
