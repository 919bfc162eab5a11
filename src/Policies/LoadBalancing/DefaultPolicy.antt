-- ===== src/Policies/LoadBalancing/DefaultPolicy.antt =====
-- `DefaultLoadBalancingPolicy` of lib/policies/load-balancing.js, and `shuffleArray` of lib/utils.js.
-- The generators give lists: a plan is read at once, so a host's `isUp` does not change while it is
-- read. What `isUp` answers is a field of the host: the method of lib/host.js is still to be
-- implemented there. Random numbers are arguments.
pub mod Laws
use Prim.Native.String.{String}
use integration_hell.Common.{
  ℕ, zero, suc, ◌+◌, ◌-◌, ◌%◌, ◌/◌, Bool, true, false, not, ◌&&◌, ◌||◌, Option, none, some, List,
  [], ◌∷◌, ◌++◌, ◌==◌, ltb, if◌then◌else◌, get_elem?, length,
}
use integration_hell.Common.Counts.{keep, swap}
use integration_hell.Policies.LoadBalancing.{Host, Distance, local, ignored}
use integration_hell.Policies.LoadBalancing.LocalDc.{same_text}

-- The functions that the options may inject (`filter`, `isHostNewlyUp`, `healthCheck`, `compare`), and
-- the local data center. `prefers h1 h2` is `_compare(h1, h2) > 0`.
pub record Config : Type 0 where
  pub filter : Host → Bool
  pub is_host_newly_up : Host → Option ℕ
  pub health_check : Host → Bool
  pub prefers : Host → Host → Bool
  pub local_dc : Option String

-- The functions of the class, at a time in milliseconds.
abbrev newly_up_interval : ℕ
newly_up_interval = 60000

pub default_is_host_newly_up : ℕ → Host → Option ℕ
default_is_host_newly_up now h = elim h.is_up_since [
  | none ↦ none
  | some since ↦ if ltb now (since + newly_up_interval) then some since else none
]

pub default_health_check : Host → Bool
default_health_check h = not (not (ltb h.in_flight 10) && not (ltb 1 h.response_count))

pub default_prefers : Host → Host → Bool
default_prefers h1 h2 = ltb h1.in_flight h2.in_flight

pub record Policy : Type 0 where
  pub hosts : List Host
  pub filtered_hosts : Option (List Host)
  pub preferred_host : Option Host
  pub index : ℕ

abbrev pub same_host : Host → Host → Bool
same_host a b = a.ref == b.ref

abbrev pub is_preferred : Option Host → Host → Bool
is_preferred none h = false
is_preferred (some p) h = same_host h p

-- `replicas.indexOf(h) !== -1`
abbrev pub index_found : List Host → Host → Bool
index_found [] h = false
index_found (r ∷ rs) h = same_host r h || index_found rs h

pub get_index : Policy → ℕ × Policy
get_index s =
    let index' = s.index + 1 in
    (s.index, record s { index = if index' == 0x7fffffff then 0 else index' })

-- `for (i = arr.length - 1; i > 0; i--)`; `pick i` is the whole part of a random number below 1
-- times i + 1.
pub shuffle_from : (ℕ → ℕ) → ℕ → List Host → List Host
shuffle_from pick zero arr = arr
shuffle_from pick (suc i) arr = shuffle_from pick i (swap arr (suc i) (pick (suc i)))

pub shuffle_array : (ℕ → ℕ) → List Host → List Host
unfolding shuffle_from
shuffle_array pick arr = shuffle_from pick (length arr - 1) arr

-- `_sendUnhealthyToTheBack` at i = left - 1.
pub send_back : (Host → Bool) → ℕ → ℕ → ℕ → List Host → List Host
send_back health zero unhealthy counter arr = arr
send_back health (suc i) unhealthy counter arr = elim (ltb counter unhealthy) [
  | false ↦ arr
  | true ↦ elim (get_elem? arr i) [
    | none ↦ arr
    | some host ↦ elim (health host) [
      | true ↦ send_back health i unhealthy counter arr
      | false ↦
          send_back health i unhealthy (counter + 1)
            (if length arr - 1 - counter == i then arr else swap arr i (length arr - 1 - counter))
    ]
  ]
]

pub send_unhealthy_to_the_back : (Host → Bool) → List Host → ℕ → List Host
unfolding send_back
send_unhealthy_to_the_back health arr unhealthy = send_back health (length arr) unhealthy 0 arr

-- What the loop over the replicas computes; `since` is `none` for the least safe integer.
pub record Scan : Type 0 where
  pub filtered : List Host
  pub newly_up : Option Host
  pub since : Option ℕ
  pub unhealthy : ℕ

abbrev later : Option ℕ → ℕ → Bool
later none t = true
later (some s) t = ltb s t

-- The body of the loop of `_getLocalHosts`.
abbrev pub yield_one : (Host → Bool) → Option Host → List Host → List Host
yield_one can_be_yield none rest = rest
yield_one can_be_yield (some h) rest = if can_be_yield h && h.is_up then h ∷ rest else rest

module _ (c : Config) where
  pub get_distance : Policy → Host → Distance
  get_distance s h =
      if is_preferred s.preferred_host h
      then local
      else if not (c.filter h)
      then ignored
      else if same_text h.datacenter c.local_dc
      then local
      else ignored

  abbrev pub is_filtered : Host → Bool
  is_filtered h = c.filter h && same_text h.datacenter c.local_dc

  pub get_filtered_local_hosts : Policy → List Host × Policy
  get_filtered_local_hosts s = elim s.filtered_hosts [
    | some cached ↦ (cached, s)
    | none ↦
        (keep is_filtered s.hosts, record s { filtered_hosts = some (keep is_filtered s.hosts) })
  ]

  -- The loop of `_getLocalHosts` from index i on, with `left` rounds to go.
  pub yield_hosts : (Host → Bool) → List Host → ℕ → ℕ → ℕ → List Host
  yield_hosts can_be_yield hosts initial zero i = []
  yield_hosts can_be_yield hosts initial (suc left) i =
      let rest = yield_hosts can_be_yield hosts initial left (i + 1) in
      yield_one can_be_yield (get_elem? hosts ((i + initial) % length hosts)) rest

  -- `_getLocalHosts`, with the replicas to leave out
  pub get_local_hosts : List Host → Policy → List Host × Policy
  unfolding get_filtered_local_hosts get_index yield_hosts
  get_local_hosts replicas s =
      let (hosts, s1) = get_filtered_local_hosts s in
      let (initial, s2) = get_index s1 in
      (yield_hosts (λ h. not (index_found replicas h)) hosts initial (length hosts) 0, s2)

  -- One round of the loop of `_getReplicasAndLocalHosts`.
  pub scan_replica : Scan → Host → Scan
  scan_replica acc h =
      let passes : Option ℕ = elim (c.is_host_newly_up h) [
        | none ↦ none
        | some t ↦ if later acc.since t then some t else none
      ] in
      let newly' : Option Host = elim passes [ none ↦ acc.newly_up | some t ↦ some h ] in
      let since' : Option ℕ = elim passes [ none ↦ acc.since | some t ↦ some t ] in
      let unhealthy' : ℕ = elim newly' [
        | none ↦ if not (c.health_check h) then acc.unhealthy + 1 else acc.unhealthy
        | some n ↦ acc.unhealthy
      ] in
      if not (c.filter h) || not (same_text h.datacenter c.local_dc) || not h.is_up
      then acc
      else record {
        filtered = acc.filtered ++ h ∷ [];
        newly_up = newly';
        since = since';
        unhealthy = unhealthy';
      }

  pub scan : Scan → List Host → Scan
  unfolding scan_replica
  scan acc [] = acc
  scan acc (h ∷ hs) = scan (scan_replica acc h) hs

  abbrev pub scan_start : Scan
  scan_start = record { filtered = []; newly_up = none; since = none; unhealthy = 0 }

  abbrev pub is_at : List Host → ℕ → Host → Bool
  is_at arr i h = elim (get_elem? arr i) [ none ↦ false | some g ↦ same_host h g ]

  -- The host marked as up most lately goes from one of the first two places to the back, unless the
  -- dice say otherwise (`dice` is `Math.random() * 4 >= 1`).
  pub send_newly_up_back : Host → Bool → List Host → List Host
  send_newly_up_back n dice arr =
      if (is_at arr 0 n || is_at arr 1 n) && dice
      then swap arr (if is_at arr 0 n then 0 else 1) (length arr - 1)
      else arr

  -- `_compare(replicas[1], replicas[0]) > 0`
  pub pick_of_two : List Host → List Host
  pick_of_two [] = []
  pick_of_two (a ∷ []) = a ∷ []
  pick_of_two (a ∷ b ∷ rest) = if c.prefers b a then swap (a ∷ b ∷ rest) 0 1 else a ∷ b ∷ rest

  -- `_getReplicasAndLocalHosts` from the shuffled replicas on, without the generator.
  pub reorder : Scan → Bool → List Host → List Host
  unfolding send_newly_up_back send_unhealthy_to_the_back pick_of_two
  reorder found dice arr =
      let moved : List Host = elim found.newly_up [
        | some n ↦ send_newly_up_back n dice arr
        | none ↦
            if ltb 0 found.unhealthy && ltb found.unhealthy (length arr / 2 + 1)
            then send_unhealthy_to_the_back c.health_check arr found.unhealthy
            else arr
      ] in
      if ltb (length arr) 3 then arr else pick_of_two moved

  pub get_replicas_and_local_hosts :
      Option (List Host) → (ℕ → ℕ) → Bool → Policy → List Host × Policy
  unfolding get_local_hosts scan shuffle_array reorder
  get_replicas_and_local_hosts none pick dice s = get_local_hosts [] s
  get_replicas_and_local_hosts (some replicas) pick dice s =
      let found = scan scan_start replicas in
      let ordered = reorder found dice (shuffle_array pick found.filtered) in
      let (rest, s') = get_local_hosts ordered s in (ordered ++ rest, s')

  -- `newQueryPlan`: `routed` tells whether there are a keyspace and a routing key, `replicas` is what
  -- `_getReplicas` returns for them.
  unfoldable pub new_query_plan :
      Bool → Option (List Host) → Option Host → (ℕ → ℕ) → Bool → Policy → List Host × Policy
  unfolding get_replicas_and_local_hosts
  new_query_plan routed replicas preferred pick dice s =
      let (plan, s') =
        if routed
        then get_replicas_and_local_hosts replicas pick dice s
        else get_local_hosts [] s in
      elim preferred [
        | none ↦ (plan, s')
        | some p ↦ (p ∷ keep (λ h. not (same_host h p)) plan, record s' { preferred_host = some p })
      ]
