-- ===== src/Policies/LoadBalancing/TokenAware.antt =====
-- `TokenAwarePolicy`, `TokenAwareIterator` and `AllowListPolicy` of lib/policies/load-balancing.js.
-- The child policy is a parameter: its distances, and the result of its `newQueryPlan`, an error
-- (`none`) or an iterator, which is the list of the hosts that it has left to give.
pub mod Laws
pub mod AllowList
use Prim.Native.String.{String}
use text.Mathlib.Text.{◌==◌}
use integration_hell.Common.{
  ℕ, ◌+◌, ◌%◌, Bool, true, false, not, ◌||◌, Option, none, some, List, [], ◌∷◌, leb, ltb,
  if◌then◌else◌, get_elem?, length,
}
use integration_hell.Common.Counts.{keep}
use integration_hell.Policies.LoadBalancing.{Host, Distance, local, remote, ignored}
use integration_hell.Policies.LoadBalancing.LocalDc.{is_set}

abbrev pub has_address : List Host → String → Bool
has_address [] a = false
has_address (h ∷ hs) a = h.address == a || has_address hs a

-- `replicaMap` holds the addresses of `localReplicas`, so it is not a field of its own.
pub record TokenAwareIterator : Type 0 where
  pub local_replicas : List Host
  pub replica_index : ℕ
  pub start_index : ℕ
  pub child : List Host

abbrev pub is_at_local : Distance → Bool
is_at_local local = true
is_at_local remote = false
is_at_local ignored = false

-- The constructor and `iterate`; `start` is the whole part of a random number below 1 times the
-- number of local replicas.
pub new_iterator : (Host → Distance) → List Host → ℕ → List Host → TokenAwareIterator
new_iterator get_distance replicas start child = record {
  local_replicas = keep (λ h. is_at_local (get_distance h)) replicas;
  replica_index = 0;
  start_index = start;
  child = child;
}

-- The loop over the child iterator: the first host whose address is not that of a local replica.
pub skip_replicas : List Host → List Host → Option Host × List Host
skip_replicas locals [] = (none, [])
skip_replicas locals (h ∷ child) =
    if has_address locals h.address then skip_replicas locals child else (some h, child)

pub compute_next : TokenAwareIterator → Option Host × TokenAwareIterator
unfolding skip_replicas
compute_next it =
    if ltb it.replica_index (length it.local_replicas)
    then (
      get_elem? it.local_replicas ((it.start_index + it.replica_index) % length it.local_replicas),
      record it { replica_index = it.replica_index + 1 },
    )
    else (
      (skip_replicas it.local_replicas it.child).0,
      record it { child = (skip_replicas it.local_replicas it.child).1 },
    )

-- What `newQueryPlan` of `TokenAwarePolicy` hands to its callback: an error, the child's own
-- iterator, or one that gives the replicas first.
pub data QueryPlan : Type 0 where
  failed : QueryPlan
  of_child : List Host → QueryPlan
  token_aware : TokenAwareIterator → QueryPlan

-- `routing_key` tells whether the options have one, `replicas` is what `client.getReplicas` returns
-- for it, and `child` is the outcome of the child's `newQueryPlan`.
unfoldable pub new_query_plan :
    (Host → Distance) → Bool → Option (List Host) → ℕ → Option (List Host) → QueryPlan
unfolding new_iterator
new_query_plan get_distance routing_key replicas start none = failed
new_query_plan get_distance false replicas start (some child) = of_child child
new_query_plan get_distance true none start (some child) = of_child child
new_query_plan get_distance true (some replicas) start (some child) =
    token_aware (new_iterator get_distance replicas start child)

abbrev pub in_list : List String → String → Bool
in_list [] a = false
in_list (b ∷ bs) a = b == a || in_list bs a

-- `_contains` of `AllowListPolicy`
pub contains : List String → Host → Bool
contains allow_list h = in_list allow_list h.address

-- `getDistance` of `AllowListPolicy`
pub allow_distance : List String → (Host → Distance) → Host → Distance
unfolding contains
allow_distance allow_list get_distance h =
    if not (contains allow_list h) then ignored else get_distance h

-- `next` of the iterator that `_filter` makes; the recursion of the source is on the child iterator.
pub filter_next : List String → List Host → Option Host × List Host
unfolding contains
filter_next allow_list [] = (none, [])
filter_next allow_list (h ∷ child) =
    if not (contains allow_list h) then filter_next allow_list child else (some h, child)
