-- ===== src/Policies/LoadBalancing/DcAware.antt =====
-- `DCAwareRoundRobinPolicy` of lib/policies/load-balancing.js. The host map is shared with whoever
-- changes it: `hosts` are its values, and `listens_add` and `listens_remove` tell whether the policy
-- listens to its events "add" and "remove". The map is changed outside of the policy.
pub mod Laws
use Prim.Native.String.{String}
use integration_hell.Common.{
  ℕ, ◌+◌, ◌%◌, Bool, true, ◌&&◌, Option, none, some, List, [], ◌∷◌, leb, ltb, if◌then◌else◌,
  get_elem?, length,
}
use integration_hell.Common.Counts.{keep}
use integration_hell.Policies.LoadBalancing.{Host, Distance, local, ignored, max_int, increment}
use integration_hell.Policies.LoadBalancing.LocalDc.{
  is_set, same_text, effective_dc, set_local_dc, DcResult,
}

pub record DcAware : Type 0 where
  pub hosts : List Host
  pub listens_add : Bool
  pub listens_remove : Bool
  pub local_dc : Option String
  pub index : ℕ
  pub local_hosts_array : Option (List Host)

-- `init`: the policy listens to the map, and `setLocalDc` sets the data center before its checks can
-- fail.
pub init : DcAware → Option String → List Host → DcResult × DcAware
init s from_client hosts =
    let dc = effective_dc s.local_dc from_client in
    (
      set_local_dc dc hosts,
      record s { hosts = hosts; listens_add = true; listens_remove = true; local_dc = dc },
    )

pub get_distance : DcAware → Host → Distance
get_distance s h = if same_text h.datacenter s.local_dc then local else ignored

pub clean_host_cache : DcAware → DcAware
clean_host_cache s = record s { local_hosts_array = none }

-- What the host map's events "add" and "remove" do to the policy, where it listens to them.
pub on_add : DcAware → DcAware
unfolding clean_host_cache
on_add s = if s.listens_add then clean_host_cache s else s

pub on_remove : DcAware → DcAware
unfolding clean_host_cache
on_remove s = if s.listens_remove then clean_host_cache s else s

-- The test of the loop of `_resolveLocalHosts`.
abbrev pub is_local : Option String → Host → Bool
is_local dc h = is_set h.datacenter && same_text h.datacenter dc

pub resolve_local_hosts : DcAware → List Host
resolve_local_hosts s = elim s.local_hosts_array [
  | some cached ↦ cached
  | none ↦ keep (is_local s.local_dc) s.hosts
]

-- The closure of a plan.
pub record Plan : Type 0 where
  pub local_hosts : List Host
  pub counter : ℕ
  pub plan_local_index : ℕ

unfoldable pub new_query_plan : DcAware → Plan × DcAware
unfolding resolve_local_hosts
new_query_plan s =
    let index' = if leb max_int (s.index + 1) then 0 else s.index + 1 in
    let locals = resolve_local_hosts s in
    (
      record { local_hosts = locals; counter = 0; plan_local_index = index' },
      record s { index = index'; local_hosts_array = some locals },
    )

-- `next` of a plan. The index is not reduced, so it is a double that stops at 2 ^ 53.
pub next : Plan → Option Host × Plan
next p =
    if ltb p.counter (length p.local_hosts)
    then (
      get_elem? p.local_hosts (p.plan_local_index % length p.local_hosts),
      record p { counter = p.counter + 1; plan_local_index = increment p.plan_local_index },
    )
    else (none, record p { counter = p.counter + 1 })
