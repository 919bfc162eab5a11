-- ===== src/Profiles/Tests.antt =====
-- lib/execution-profile.js: tests of the profiles.
use integration_hell.Common.{
  ℕ, ◌≡◌, refl, Bool, none, some, List, [], ◌∷◌, ◌==◌, ==_iff, if◌then◌else◌,
}
use integration_hell.Policies.LoadBalancing.{Distance, remote, ignored}
use integration_hell.Profiles.{Profile, ProfileManager, new_manager, get_distance, get_profile}
use integration_hell.Profiles.Distances.{IsClosest, new_manager-IsClosest}

abbrev same : ℕ → ℕ → Bool
same a b = a == b

-- Names and policies are numbers: 1 is the default name, and 0 the empty one.
abbrev given : List (Profile ℕ ℕ ℕ)
given =
    (record { name = 5; load_balancing = some 20; retry = none })
    ∷ (record { name = 6; load_balancing = none; retry = none })
    ∷ []

abbrev manager : ProfileManager ℕ ℕ ℕ
manager = new_manager same same 1 0 30 40 given

abbrev distance : ℕ → Distance
distance q = if q == 20 then ignored else remote

-- A host that keeps the distances it is given, the last one first.
abbrev set_distance : Distance → List Distance → List Distance
set_distance d host = d ∷ host

abbrev new_host : List Distance
new_host = []

new_manager-IsClosest_example :
    (d : Distance) × IsClosest same same ==_iff 1 0 manager distance d
    × (get_distance same same 1 0 manager distance (some set_distance) new_host
        ≡ some (d, set_distance d new_host))
    × (get_distance same same 1 0 manager distance none new_host ≡ none)
new_manager-IsClosest_example =
    new_manager-IsClosest same same ==_iff 1 0 30 40 given distance set_distance new_host

at_a_distance :
    get_distance same same 1 0 manager distance (some set_distance) new_host
    ≡ some (remote, remote ∷ [])
unfolding get_distance new_manager
at_a_distance = refl

by_default :
    get_profile same same 1 0 manager none
    ≡ some (record { name = 1; load_balancing = some 30; retry = some 40 })
unfolding get_profile new_manager
by_default = refl
