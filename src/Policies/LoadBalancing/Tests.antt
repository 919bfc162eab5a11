-- ===== src/Policies/LoadBalancing/Tests.antt =====
-- Runs of lib/policies/load-balancing.js, and the theorems about it at concrete inputs.
use Prim.Native.String.{String}
use integration_hell.Common.{
  ℕ, ◌+◌, ◌%◌, ◌^◌, ◌≡◌, refl, ◌≤◌, inl, inr, ◌⊎◌, ◌==◌, if◌then◌else◌, arith, true, false, none,
  some, List, [], ◌∷◌,
}
use integration_hell.Common.Counts.{count, SameItems, keep}
use integration_hell.Policies.LoadBalancing.{Host, Distance, local, ignored, drain}
use integration_hell.Policies.LoadBalancing.RoundRobin
use integration_hell.Policies.LoadBalancing.RoundRobin.Laws.{new_query_plan-rotates}
use integration_hell.Policies.LoadBalancing.DcAware
use integration_hell.Policies.LoadBalancing.DcAware.Laws.{
  resolve-run, new_query_plan-locals, Event, added, removed, plan_made, handle, constructed,
}
use integration_hell.Policies.LoadBalancing.TokenAware
use integration_hell.Policies.LoadBalancing.TokenAware.Laws.{
  new_query_plan-replicas_first, new_query_plan-once, at_address,
}
use integration_hell.Policies.LoadBalancing.TokenAware.AllowList.{
  allow_list-Allowed, Allowed, Listed,
}
use integration_hell.Policies.LoadBalancing.DefaultPolicy
use integration_hell.Policies.LoadBalancing.DefaultPolicy.Laws.{
  new_query_plan-counts, new_query_plan-preferred, at_ref, is_eligible,
}
use mathlib.Core.List.{foldl}

abbrev host : ℕ → String → String → Host
host r a dc = record {
  ref = r;
  address = a;
  datacenter = some dc;
  is_up = true;
  is_up_since = none;
  in_flight = 0;
  response_count = 5;
}

abbrev h1 : Host
h1 = host 1 "10.0.0.1" "dc1"

abbrev h2 : Host
h2 = host 2 "10.0.0.2" "dc1"

abbrev h3 : Host
h3 = host 3 "10.0.0.3" "dc2"

abbrev three : List Host
three = h1 ∷ h2 ∷ h3 ∷ []

abbrev round_plan : RoundRobin.Plan
round_plan = record { hosts = three; counter = 0; plan_index = 4 % 3 }

abbrev after_plan : RoundRobin.RoundRobin
after_plan = record { hosts = some three; index = 5 }

abbrev after_mod : RoundRobin.RoundRobin
after_mod = record { hosts = some three; index = (4 + 1) % 2 ^ 53 }

new_query_plan-rotates_example :
    (drain RoundRobin.next 3 round_plan ≡ h2 ∷ h3 ∷ h1 ∷ [])
    × SameItems (drain RoundRobin.next 3 round_plan) three
    × (after_plan ≡ after_mod)
unfolding RoundRobin.new_query_plan
new_query_plan-rotates_example =
    new_query_plan-rotates three 4 3 round_plan after_plan refl (omega arith) (omega arith)

abbrev dc_start : DcAware.DcAware
dc_start = record {
  hosts = three;
  listens_add = true;
  listens_remove = true;
  local_dc = some "dc1";
  index = 6;
  local_hosts_array = none;
}

new_query_plan-locals_example :
    (drain DcAware.next 5 (DcAware.new_query_plan dc_start).0 ≡ h2 ∷ h1 ∷ [])
    × SameItems (drain DcAware.next 5 (DcAware.new_query_plan dc_start).0) (h1 ∷ h2 ∷ [])
new_query_plan-locals_example =
    new_query_plan-locals dc_start "dc1" 5 refl refl (inl refl) (omega arith) (omega arith)

abbrev changes : List Event
changes = plan_made ∷ added (host 4 "10.0.0.4" "dc1") ∷ removed h1 ∷ plan_made ∷ []

resolve-run_example :
    DcAware.resolve_local_hosts
      (foldl handle (DcAware.init (constructed none) (some "dc1") three).1 changes)
    ≡ h2 ∷ host 4 "10.0.0.4" "dc1" ∷ []
resolve-run_example = resolve-run none (some "dc1") "dc1" three changes refl (inr (refl, refl))

abbrev all_local : Host → Distance
all_local h = local

abbrev iterator : TokenAware.TokenAwareIterator
iterator = record {
  local_replicas = h1 ∷ h2 ∷ [];
  replica_index = 0;
  start_index = 1;
  child = three;
}

new_query_plan-replicas_first_example : drain TokenAware.compute_next 5 iterator ≡ h2 ∷ h1 ∷ h3 ∷ []
unfolding TokenAware.new_query_plan
new_query_plan-replicas_first_example =
    new_query_plan-replicas_first all_local (h1 ∷ h2 ∷ []) 1 three 5 iterator refl (omega arith)

new_query_plan-once_example :
    (count (at_address "10.0.0.1") (drain TokenAware.compute_next 5 iterator) ≤ 1)
    × (count (at_address "10.0.0.1") three
        ≤ count (at_address "10.0.0.1") (drain TokenAware.compute_next 5 iterator))
unfolding TokenAware.new_query_plan
new_query_plan-once_example =
    new_query_plan-once all_local (h1 ∷ h2 ∷ []) 1 three 5 iterator "10.0.0.1" refl (omega arith)
      (omega arith) (omega arith)

allow_list-Allowed_example :
    Allowed ("10.0.0.1" ∷ []) three (drain (TokenAware.filter_next ("10.0.0.1" ∷ [])) 3 three)
    × ((h : Host)
        → (Listed ("10.0.0.1" ∷ []) h.address
            × (TokenAware.allow_distance ("10.0.0.1" ∷ []) all_local h ≡ local))
          ⊎ ((¬ Listed ("10.0.0.1" ∷ []) h.address)
              × (TokenAware.allow_distance ("10.0.0.1" ∷ []) all_local h ≡ ignored)))
allow_list-Allowed_example = allow_list-Allowed ("10.0.0.1" ∷ []) all_local three 3 (omega arith)

abbrev config : DefaultPolicy.Config
config = record {
  filter = λ h. true;
  is_host_newly_up = λ h. none;
  health_check = λ h. true;
  prefers = λ a b. false;
  local_dc = some "dc1";
}

abbrev policy : DefaultPolicy.Policy
policy = record { hosts = three; filtered_hosts = none; preferred_host = none; index = 7 }

new_query_plan-counts_example :
    count
      (at_ref 1)
      (DefaultPolicy.new_query_plan config true (some (h1 ∷ h3 ∷ [])) none (λ i. 0) true policy).0
    ≡ 1
new_query_plan-counts_example =
    new_query_plan-counts config policy (inl refl) (h1 ∷ h3 ∷ []) (λ i. 0) true 1

new_query_plan-preferred_example :
    (rest : List Host) × ((DefaultPolicy.new_query_plan config false none
        (some h3)
        (λ i. 0)
        true
        policy).0
      ≡ h3 ∷ rest)
    × ((r : ℕ)
        → count (at_ref r) rest
          ≡ (if 3 == r then 0 else count (at_ref r) (keep (is_eligible config) three)))
new_query_plan-preferred_example =
    new_query_plan-preferred config policy (inl refl) h3 (λ i. 0) true
