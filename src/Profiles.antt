-- ===== src/Profiles.antt =====
-- lib/execution-profile.js: the profiles of a client and their load balancing policies. A policy is
-- known by its identity, which `same_policy` compares; `default` is the name of the default profile. Of
-- a profile, the fields that are not read here are left out. The default profile is one of the list of
-- profiles, so that what is set on it is set in the list: it is kept as an index. `init`, which awaits
-- the policies' own, is left out.
pub mod Distances
mod Tests
use integration_hell.Common.{
  ℕ, zero, suc, ◌+◌, Bool, true, false, not, ◌||◌, Option, none, some, List, [], ◌∷◌, ◌++◌, map,
  length, get_elem?, set, ltb, if◌then◌else◌,
}
use integration_hell.Policies.LoadBalancing.{Distance, local, remote, ignored}

pub record Profile (N P R : Type 0) : Type 0 where
  pub name : N
  pub load_balancing : Option P
  pub retry : Option R

-- `||` on what is there or not.
abbrev pub or_else {ℓ} : {A : Type ℓ} → Option A → A → A
or_else (some a) b = a
or_else none b = b

pub record ProfileManager (N P R : Type 0) : Type 0 where
  pub profiles : List (Profile N P R)
  pub default_index : ℕ
  pub default_policy : P
  pub default_configured_retry : Option R
  pub policies : List P

abbrev pub rank : Distance → ℕ
rank local = 0
rank remote = 1
rank ignored = 2

abbrev pub is_local : Distance → Bool
is_local local = true
is_local remote = false
is_local ignored = false

-- The loop of `getDistance`, from a distance on; it ends at a local one.
abbrev pub closest : Distance → List Distance → Distance
closest current [] = current
closest current (d ∷ ds) =
    let rest = closest d ds in
    let same_rest = closest current ds in
    if ltb (rank d) (rank current) then (if is_local d then d else rest) else same_rest

abbrev pub one_more : Option ℕ → Option ℕ
one_more none = none
one_more (some n) = some (suc n)

module _ {P : Type 0} (same_policy : P → P → Bool) where
  abbrev pub in_policies : List P → P → Bool
  in_policies [] p = false
  in_policies (q ∷ policies) p = same_policy q p || in_policies policies p

  -- A policy is added once.
  abbrev pub add_policy : List P → P → List P
  add_policy found p = if in_policies found p then found else found ++ p ∷ []

module _ {N : Type 0} (same_name : N → N → Bool) (default empty : N) where
  -- `name || "default"`, none standing for undefined.
  abbrev pub name_or_default : Option N → N
  name_or_default none = default
  name_or_default (some name) = if same_name name empty then default else name

module _ {N P R : Type 0} (same_name : N → N → Bool) (same_policy : P → P → Bool)
    (default empty : N) where
  -- The index of the first default profile, if there is one.
  abbrev pub index_of_default : List (Profile N P R) → Option ℕ
  index_of_default [] = none
  index_of_default (p ∷ profiles) =
      let rest = index_of_default profiles in
      if same_name p.name default then some 0 else one_more rest

  -- A new default profile.
  abbrev pub new_default : Profile N P R
  new_default = record { name = default; load_balancing = none; retry = none }

  -- What `_setDefault` sets on it.
  abbrev pub complete_default : P → R → Profile N P R → Profile N P R
  complete_default policy retry p = record {
    name = p.name;
    load_balancing = some (or_else p.load_balancing policy);
    retry = some (or_else p.retry retry);
  }

  abbrev pub complete_at : P → R → ℕ → List (Profile N P R) → List (Profile N P R)
  complete_at policy retry i [] = []
  complete_at policy retry zero (p ∷ profiles) = complete_default policy retry p ∷ profiles
  complete_at policy retry (suc i) (p ∷ profiles) = p ∷ complete_at policy retry i profiles

  abbrev pub with_policy : P → Profile N P R → Profile N P R
  with_policy policy p = record {
    name = p.name;
    load_balancing = some (or_else p.load_balancing policy);
    retry = p.retry;
  }

  -- The policies of profiles, behind those that were found.
  abbrev pub collect : P → List P → List (Profile N P R) → List P
  collect policy found [] = found
  collect policy found (p ∷ profiles) =
      collect policy (add_policy same_policy found (or_else p.load_balancing policy)) profiles

  abbrev pub policy_at : P → Option (Profile N P R) → P
  policy_at policy none = policy
  policy_at policy (some p) = or_else p.load_balancing policy

  abbrev pub retry_at : Option (Profile N P R) → Option R
  retry_at none = none
  retry_at (some p) = p.retry

  -- The constructor behind `_setDefault`, of profiles with a default one at the index.
  abbrev pub managed : P → R → List (Profile N P R) → ℕ → ProfileManager N P R
  managed policy retry profiles i =
      let own = policy_at policy (get_elem? profiles i) in
      let complete = complete_at policy retry i profiles in
      record {
        profiles = map (with_policy own) complete;
        default_index = i;
        default_policy = own;
        default_configured_retry = retry_at (get_elem? profiles i);
        policies = collect own [] complete;
      }

  abbrev pub managed_with : P → R → List (Profile N P R) → Option ℕ → ProfileManager N P R
  managed_with policy retry profiles none =
      managed policy retry (profiles ++ new_default ∷ []) (length profiles)
  managed_with policy retry profiles (some i) = managed policy retry profiles i

  unfoldable pub new_manager : P → R → List (Profile N P R) → ProfileManager N P R
  new_manager policy retry profiles = managed_with policy retry profiles (index_of_default profiles)

  -- `_profilesMap` at a name: the last profile with it.
  abbrev pub last_named : N → Option (Profile N P R) → List (Profile N P R) → Option (Profile N P R)
  last_named name found [] = found
  last_named name found (p ∷ profiles) =
      last_named name (if same_name p.name name then some p else found) profiles

  unfoldable pub get_profile : ProfileManager N P R → Option N → Option (Profile N P R)
  get_profile m name = last_named (name_or_default same_name default empty name) none m.profiles

  abbrev pub get_default : ProfileManager N P R → Option (Profile N P R)
  get_default m = get_elem? m.profiles m.default_index

  -- `getDistance` of a host whose distance the policies tell. The host's `setDistance` takes the
  -- distance to what becomes of the host; a host that has no such method makes it fail.
  unfoldable pub get_distance :
      {H : Type 0}
      → ProfileManager N P R
      → (P → Distance)
      → Option (Distance → H → H)
      → H
      → Option (Distance × H)
  get_distance m distance none host = none
  get_distance m distance (some set_distance) host =
      let d = closest ignored (map distance m.policies) in some (d, set_distance d host)
