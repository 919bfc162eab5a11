-- ===== src/Policies/LoadBalancing/RoundRobin/Laws.antt =====
-- A plan of `RoundRobinPolicy` (lib/policies/load-balancing.js) gives every host once, in order, from
-- the policy's index on.
use native.Mathlib.Nat.{mod-mod, add-suc, add-zero}
use native.Mathlib.Numerals.{add-one}
use integration_hell.Common.Counts.{SameItems}
use integration_hell.Common.Rotate.{rotate, SameItems-rotate}
use integration_hell.Common.{
  ℕ, suc, ◌+◌, ◌%◌, ◌<◌, ◌≤◌, ◌≡◌, ap, ◌∙◌, arith, none, some, List, get_elem?, length,
}
use integration_hell.Policies.LoadBalancing.{Host, max_int, drain}
use integration_hell.Policies.LoadBalancing.Round.{drain-rotate}
use integration_hell.Policies.LoadBalancing.RoundRobin.{Plan, next, RoundRobin, new_query_plan}

abbrev plan : List Host → ℕ → ℕ → Plan
plan hosts start at = record { hosts = hosts; counter = at; plan_index = start + at }

next_done :
    (hosts : List Host) (start at : ℕ) → length hosts ≤ at → (next (plan hosts start at)).0 ≡ none
unfolding next
next_done hosts start at h = ground arith

next-plan :
    (hosts : List Host) (start at : ℕ) (h : Host)
    → at < length hosts
    → get_elem? hosts ((start + at) % length hosts) ≡ some h
    → next (plan hosts start at) ≡ (some h, plan hosts start (suc at))
unfolding next
next-plan hosts start at h lt e = ground (arith, add-one at, add-suc start at)

-- A plan of an initialized policy, called until it is done and at least once for each host, gives
-- the hosts read round from the index of the policy, thus every host as often as it stands among
-- the hosts; the policy's index moves on by one, back to 0 at 2 ^ 53.
pub new_query_plan-rotates :
    (hosts : List Host) (index fuel : ℕ) (p : Plan) (s' : RoundRobin)
    → new_query_plan (record { hosts = some hosts; index = index }) ≡ (some p, s')
    → length hosts ≤ fuel
    → index < max_int
    → (drain next fuel p ≡ rotate (index % length hosts) hosts)
      × SameItems (drain next fuel p) hosts
      × (s' ≡ record { hosts = some hosts; index = (index + 1) % max_int })
unfolding new_query_plan
new_query_plan-rotates hosts index fuel p s' e fits small =
    let k : ℕ = index % length hosts in
    let is_plan : p ≡ plan hosts k 0 = ground (arith, add-zero k) in
    let all : drain next fuel p ≡ rotate k hosts =
      rw is_plan (
        drain-rotate hosts k next (plan hosts k) (next-plan hosts k) fuel
          (next_done hosts k (length hosts) (omega arith)) fits)
      ∙ ap (λ (i : ℕ). rotate i hosts) (mod-mod index (length hosts)) in
    (all, rw all (SameItems-rotate k hosts), ground arith)
