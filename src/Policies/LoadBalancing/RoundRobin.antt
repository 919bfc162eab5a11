-- ===== src/Policies/LoadBalancing/RoundRobin.antt =====
-- `RoundRobinPolicy` of lib/policies/load-balancing.js.
pub mod Laws
use integration_hell.Common.{
  ℕ, ◌+◌, ◌%◌, Option, none, some, List, leb, ltb, if◌then◌else◌, get_elem?, length,
}
use integration_hell.Policies.LoadBalancing.{Host, max_int}

-- The closure of a plan: the hosts, the number of calls of `next` and the index of the next host.
pub record Plan : Type 0 where
  pub hosts : List Host
  pub counter : ℕ
  pub plan_index : ℕ

-- `next` of a plan of `RoundRobinPolicy`.
pub next : Plan → Option Host × Plan
next p =
    let counter' = p.counter + 1 in
    if ltb (length p.hosts) counter' then (none, record p { counter = counter' }) else (
      get_elem? p.hosts (p.plan_index % length p.hosts),
      record p { counter = counter'; plan_index = p.plan_index + 1 },
    )

pub record RoundRobin : Type 0 where
  pub hosts : Option (List Host)
  pub index : ℕ

-- The error case is `none`: a policy that was not initialized.
unfoldable pub new_query_plan : RoundRobin → Option Plan × RoundRobin
new_query_plan s = elim s.hosts [
  | none ↦ (none, s)
  | some hosts ↦
      let index' = s.index + 1 in
      (
        some (record { hosts = hosts; counter = 0; plan_index = s.index % length hosts }),
        record s { index = if leb max_int index' then 0 else index' },
      )
]
