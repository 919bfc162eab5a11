-- ===== src/Policies/LoadBalancing/DcAware/Laws.antt =====
-- A plan of `DCAwareRoundRobinPolicy` (lib/policies/load-balancing.js) gives the local hosts, each
-- once, and the cache of local hosts follows the host map.
use Prim.Native.String.{String}
use native.Mathlib.Nat.{add-suc, add-zero}
use native.Mathlib.Numerals.{add-one}
use text.Mathlib.Text.{◌==◌}
use text.Mathlib.TextEquality.{eq_iff}
use mathlib.Core.List.{foldl}
use integration_hell.Policies.LoadBalancing.LocalDc.{is_set, same_text, effective_dc}
use integration_hell.Common.Counts.{SameItems, keep}
use integration_hell.Common.Rotate.{rotate, SameItems-rotate}
use integration_hell.Common.{
  ℕ, suc, ◌+◌, ◌%◌, ◌<◌, ◌≤◌, ◌≡◌, refl, ap, sym, ◌∙◌, Bool, true, false, not, ◌&&◌, Bool-cases,
  ◌++◌, arith, inl, inr, ◌⊎◌, Option, none, some, List, [], ◌∷◌, get_elem?, length,
}
use integration_hell.Policies.LoadBalancing.{Host, max_int, drain}
use integration_hell.Policies.LoadBalancing.Round.{drain-rotate}
use integration_hell.Policies.LoadBalancing.DefaultPolicy.{same_host}
use integration_hell.Policies.LoadBalancing.DcAware.{
  DcAware, Plan, next, new_query_plan, is_local, clean_host_cache, on_add, on_remove,
  resolve_local_hosts, init,
}

-- A host whose data center is the one of the name.
abbrev pub in_dc : String → Host → Bool
in_dc name h = elim h.datacenter [ none ↦ false | some d ↦ d == name ]

-- The cache is empty, or holds the hosts of the map in the data center.
abbrev pub IsFresh : String → DcAware → Type 0
IsFresh name s =
    (s.local_hosts_array ≡ none) ⊎ (s.local_hosts_array ≡ some (keep (in_dc name) s.hosts))

text_local :
    (name : String) (d : Option String)
    → (name == "") ≡ false
    → (is_set d && same_text d (some name)) ≡ (elim d [ none ↦ false | some t ↦ t == name ])
text_local name none h = refl
text_local name (some d) h = elim (Bool-cases (d == "")) [
  | inl empty ↦
      let at : d ≡ "" = (eq_iff d "").0 empty in
      elim (Bool-cases (d == name)) [
        | inl equal ↦
            let wrong : name == "" ≡ true =
              (eq_iff name "").1 (sym ((eq_iff d name).0 equal) ∙ at) in
            ground arith
        | inr apart ↦ rw (empty, apart) refl
      ]
  | inr full ↦ rw full refl
]

keep-eq :
    (p q : Host → Bool) (hosts : List Host) → ((h : Host) → p h ≡ q h) → keep p hosts ≡ keep q hosts
keep-eq p q [] e = refl
keep-eq p q (h ∷ hosts) e = rw (e h, keep-eq p q hosts e) refl

resolve-IsFresh :
    (name : String) (s : DcAware)
    → s.local_dc ≡ some name
    → (name == "") ≡ false
    → IsFresh name s
    → resolve_local_hosts s ≡ keep (in_dc name) s.hosts
unfolding resolve_local_hosts
resolve-IsFresh name s own given (inl e) =
    rw (e, own)
      (keep-eq (is_local (some name)) (in_dc name) s.hosts
        (λ h. text_local name h.datacenter given))
resolve-IsFresh name s own given (inr e) = rw e refl

-- The map, which the policy reads, without a host.
abbrev pub without : Host → List Host → List Host
without h hosts = keep (λ g. not (same_host g h)) hosts

-- What happens to a policy after `init`: a host is added to the map or removed, or a plan is made.
pub data Event : Type 0 where
  added : Host → Event
  removed : Host → Event
  plan_made : Event

-- The map changes, and then emits its event.
pub handle : DcAware → Event → DcAware
handle s (added h) = on_add (record s { hosts = s.hosts ++ h ∷ [] })
handle s (removed h) = on_remove (record s { hosts = without h s.hosts })
handle s plan_made = (new_query_plan s).1

-- The hosts of the map alone.
abbrev pub hosts_after : List Host → List Event → List Host
hosts_after hosts [] = hosts
hosts_after hosts (added h ∷ events) = hosts_after (hosts ++ h ∷ []) events
hosts_after hosts (removed h ∷ events) = hosts_after (without h hosts) events
hosts_after hosts (plan_made ∷ events) = hosts_after hosts events

abbrev pub constructed : Option String → DcAware
constructed dc = record {
  hosts = [];
  listens_add = false;
  listens_remove = false;
  local_dc = dc;
  index = 0;
  local_hosts_array = none;
}

-- What holds of the policy from `init` on, with the data center and the hosts of the map.
pub record IsReady (name : String) (hosts : List Host) (s : DcAware) : Type 0 where
  pub own : s.local_dc ≡ some name
  pub same_hosts : s.hosts ≡ hosts
  pub add_heard : s.listens_add ≡ true
  pub remove_heard : s.listens_remove ≡ true
  pub fresh : IsFresh name s

on_add-IsReady :
    (name : String) (hosts : List Host) (s : DcAware) (h : Host)
    → IsReady name hosts s
    → IsReady name (hosts ++ h ∷ []) (on_add (record s { hosts = s.hosts ++ h ∷ [] }))
unfolding on_add clean_host_cache
on_add-IsReady name hosts s h r = rw r.add_heard (record {
  own = r.own;
  same_hosts = ap (λ hs. hs ++ h ∷ []) r.same_hosts;
  add_heard = refl;
  remove_heard = r.remove_heard;
  fresh = inl refl;
})

on_remove-IsReady :
    (name : String) (hosts : List Host) (s : DcAware) (h : Host)
    → IsReady name hosts s
    → IsReady name (without h hosts) (on_remove (record s { hosts = without h s.hosts }))
unfolding on_remove clean_host_cache
on_remove-IsReady name hosts s h r = rw r.remove_heard (record {
  own = r.own;
  same_hosts = ap (without h) r.same_hosts;
  add_heard = r.add_heard;
  remove_heard = refl;
  fresh = inl refl;
})

new_query_plan-IsReady :
    (name : String) (hosts : List Host) (s : DcAware)
    → (name == "") ≡ false
    → IsReady name hosts s
    → IsReady name hosts (new_query_plan s).1
unfolding new_query_plan
new_query_plan-IsReady name hosts s given r = record {
  own = r.own;
  same_hosts = r.same_hosts;
  add_heard = r.add_heard;
  remove_heard = r.remove_heard;
  fresh = inr (ap some (resolve-IsFresh name s r.own given r.fresh));
}

run-IsReady :
    (name : String) (hosts : List Host) (s : DcAware) (events : List Event)
    → (name == "") ≡ false
    → IsReady name hosts s
    → IsReady name (hosts_after hosts events) (foldl handle s events)
unfolding handle
run-IsReady name hosts s [] given r = r
run-IsReady name hosts s (added h ∷ events) given r =
    run-IsReady name (hosts ++ h ∷ []) (on_add (record s { hosts = s.hosts ++ h ∷ [] })) events
      given (on_add-IsReady name hosts s h r)
run-IsReady name hosts s (removed h ∷ events) given r =
    run-IsReady name (without h hosts) (on_remove (record s { hosts = without h s.hosts })) events
      given (on_remove-IsReady name hosts s h r)
run-IsReady name hosts s (plan_made ∷ events) given r =
    run-IsReady name hosts (new_query_plan s).1 events given
      (new_query_plan-IsReady name hosts s given r)

own_dc :
    (dc from_client : Option String) (name : String)
    → (name == "") ≡ false
    → (dc ≡ some name) ⊎ ((dc ≡ none) × (from_client ≡ some name))
    → effective_dc dc from_client ≡ some name
unfolding effective_dc
own_dc dc from_client name given (inl e) = rw (e, given) refl
own_dc dc from_client name given (inr (e, f)) = rw (e, f) refl

-- From `init` of a new policy on, with the name of a data center from its constructor or, where that
-- has none, from the client's options: after any additions of hosts to the map and removals, which the
-- map emits events of, and any plans, the hosts that `_resolveLocalHosts` leaves in the cache are those
-- of the present map whose data center has the name.
pub resolve-run :
    (dc from_client : Option String) (name : String) (hosts : List Host) (events : List Event)
    → (name == "") ≡ false
    → (dc ≡ some name) ⊎ ((dc ≡ none) × (from_client ≡ some name))
    → resolve_local_hosts (foldl handle (init (constructed dc) from_client hosts).1 events)
      ≡ keep (in_dc name) (hosts_after hosts events)
unfolding init
resolve-run dc from_client name hosts events given from =
    let start = (init (constructed dc) from_client hosts).1 in
    let ready = run-IsReady name hosts start events given (record {
      own = own_dc dc from_client name given from;
      same_hosts = refl;
      add_heard = refl;
      remove_heard = refl;
      fresh = inl refl;
    }) in
    resolve-IsFresh name (foldl handle start events) ready.own given ready.fresh
    ∙ ap (keep (in_dc name)) ready.same_hosts

abbrev plan : List Host → ℕ → ℕ → Plan
plan hosts start at = record { local_hosts = hosts; counter = at; plan_local_index = start + at }

module _ (hosts : List Host) (start : ℕ) (small : start + length hosts ≤ max_int) where
  next_done : (at : ℕ) → length hosts ≤ at → (next (plan hosts start at)).0 ≡ none
  unfolding next
  next_done at h = ground arith

  next-plan :
      (at : ℕ) (h : Host)
      → at < length hosts
      → get_elem? hosts ((start + at) % length hosts) ≡ some h
      → next (plan hosts start at) ≡ (some h, plan hosts start (suc at))
  unfolding next
  next-plan at h lt e = ground (arith, add-one at, add-suc start at)

-- For a policy with the name of a data center, a fresh cache, and an index that with the number of
-- local hosts adds up to less than 2 ^ 53 - 1: a plan, called until it is done and at least once for
-- each local host, gives the hosts of the map whose data center has the name, read round from the
-- index after the policy's, each as often as it stands in the map.
pub new_query_plan-locals :
    (s : DcAware) (name : String) (fuel : ℕ)
    → s.local_dc ≡ some name
    → (name == "") ≡ false
    → IsFresh name s
    → length (keep (in_dc name) s.hosts) ≤ fuel
    → s.index + 1 + length (keep (in_dc name) s.hosts) < max_int
    → (drain next fuel (new_query_plan s).0
        ≡ rotate ((s.index + 1) % length (keep (in_dc name) s.hosts)) (keep (in_dc name) s.hosts))
      × SameItems (drain next fuel (new_query_plan s).0) (keep (in_dc name) s.hosts)
unfolding new_query_plan
new_query_plan-locals s name fuel own given fresh fits small =
    let i : ℕ = s.index + 1 in
    let locals = keep (in_dc name) s.hosts in
    let is_plan : (new_query_plan s).0 ≡ plan locals i 0 =
      rw (resolve-IsFresh name s own given fresh, add-zero i) (ground arith) in
    let all : drain next fuel (new_query_plan s).0 ≡ rotate (i % length locals) locals =
      rw is_plan (
        drain-rotate locals i next (plan locals i) (next-plan locals i (omega arith)) fuel
          (next_done locals i (omega arith) (length locals) (omega arith)) fits) in
    (all, rw all (SameItems-rotate (i % length locals) locals))
