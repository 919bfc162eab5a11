-- ===== src/Profiles/Distances.antt =====
-- lib/execution-profile.js: the policies of the profiles, and the distance to a host.
use mathlib.Core.Path.{subst}
use integration_hell.Common.{
  ℕ, ◌≤◌, ◌≡◌, ◌↔◌, ◌⊎◌, refl, sym, ap, ◌∙◌, inl, inr, arith, Bool, true, ◌||◌, Bool-cases, Option,
  none, some, List, [], ◌∷◌, ◌++◌, map, length, ltb, ltb→lt, ge_of_ltb, if◌then◌else◌,
}
use integration_hell.Policies.LoadBalancing.{Distance, local, remote, ignored}
use integration_hell.Profiles.{
  Profile, ProfileManager, or_else, rank, is_local, closest, in_policies, add_policy,
  index_of_default, new_default, complete_at, with_policy, collect, managed, managed_with,
  new_manager, get_distance,
}

abbrev pub In : {A : Type 0} → A → List A → Type 0
In x [] = ⊥
In x (y ∷ ys) = (x ≡ y) ⊎ In x ys

In-append : {A : Type 0} (x : A) (xs ys : List A) → In x xs ⊎ In x ys → In x (xs ++ ys)
In-append x [] ys (inl h) = absurd h
In-append x [] ys (inr h) = h
In-append x (y ∷ xs) ys (inl (inl e)) = inl e
In-append x (y ∷ xs) ys (inl (inr h)) = inr (In-append x xs ys (inl h))
In-append x (y ∷ xs) ys (inr h) = inr (In-append x xs ys (inr h))

In-append-cases : {A : Type 0} (x : A) (xs ys : List A) → In x (xs ++ ys) → In x xs ⊎ In x ys
In-append-cases x [] ys h = inr h
In-append-cases x (y ∷ xs) ys (inl e) = inl (inl e)
In-append-cases x (y ∷ xs) ys (inr h) = elim (In-append-cases x xs ys h) [
  | inl here ↦ inl (inr here)
  | inr there ↦ inr there
]

In-map : {A : Type 0} {B : Type 0} (f : A → B) (x : A) (xs : List A) → In x xs → In (f x) (map f xs)
In-map f x [] h = absurd h
In-map f x (y ∷ xs) (inl e) = inl (ap f e)
In-map f x (y ∷ xs) (inr h) = inr (In-map f x xs h)

In-map-source :
    {A : Type 0} {B : Type 0} (f : A → B) (y : B) (xs : List A)
    → In y (map f xs)
    → (x : A) × In x xs × (y ≡ f x)
In-map-source f y [] h = absurd h
In-map-source f y (x ∷ xs) (inl e) = (x, inl refl, e)
In-map-source f y (x ∷ xs) (inr h) =
    let (x', inside, e) = In-map-source f y xs h in (x', inr inside, e)

local_least : (d : Distance) → is_local d ≡ true → rank d ≡ 0
local_least local h = refl
local_least remote h = ground arith
local_least ignored h = ground arith

-- The closest distance is not above any, and it is one of them or the one at the start.
closest_least :
    (current : Distance) (ds : List Distance)
    → (rank (closest current ds) ≤ rank current)
      × ((d : Distance) → In d ds → rank (closest current ds) ≤ rank d)
closest_least current [] = (omega arith, λ d h. absurd h)
closest_least current (d ∷ ds) = elim (Bool-cases (ltb (rank d) (rank current))) [
  | inr far ↦
      let later = closest_least current ds in
      let bound = ge_of_ltb (rank d) (rank current) far in
      rw far (
        later.0,
        λ e h. elim h [ inl here ↦ rw here (omega (arith, later.0)) | inr there ↦ later.1 e there ],
      )
  | inl near ↦
      let bound = ltb→lt (rank d) (rank current) near in
      elim (Bool-cases (is_local d)) [
        | inl at_once ↦
            let least = local_least d at_once in
            rw (near, at_once) (omega arith, λ e h. omega arith)
        | inr further ↦
            let later = closest_least d ds in
            rw (near, further)
              (
                omega (arith, later.0),
                λ e h. elim h [ inl here ↦ rw here later.0 | inr there ↦ later.1 e there ],
              )
      ]
]

abbrev Given : Distance → List Distance → Distance → Type 0
Given current ds d = (d ≡ current) ⊎ In d ds

closest-Given : (current : Distance) (ds : List Distance) → Given current ds (closest current ds)
closest-Given current [] = inl refl
closest-Given current (d ∷ ds) = elim (Bool-cases (ltb (rank d) (rank current))) [
  | inr far ↦
      let e : closest current (d ∷ ds) ≡ closest current ds = rw far refl in
      subst (Given current (d ∷ ds)) (sym e)
        (elim (closest-Given current ds) [ inl start ↦ inl start | inr inside ↦ inr (inr inside) ])
  | inl near ↦ elim (Bool-cases (is_local d)) [
    | inl at_once ↦
        let e : closest current (d ∷ ds) ≡ d = rw (near, at_once) refl in
        subst (Given current (d ∷ ds)) (sym e) (inr (inl refl))
    | inr further ↦
        let e : closest current (d ∷ ds) ≡ closest d ds = rw (near, further) refl in
        subst (Given current (d ∷ ds)) (sym e)
          (inr (elim (closest-Given d ds) [ inl start ↦ inl start | inr inside ↦ inr inside ]))
  ]
]

module _ {P : Type 0} (same_policy : P → P → Bool)
    (same_iff : (a b : P) → (same_policy a b ≡ true) ↔ (a ≡ b)) where
  In-policies :
      (p : P) (policies : List P) → in_policies same_policy policies p ≡ true → In p policies
  In-policies p [] h = absurd (ground arith)
  In-policies p (q ∷ policies) h = elim (Bool-cases (same_policy q p)) [
    | inl equal ↦ inl (sym ((same_iff q p).0 equal))
    | inr apart ↦
        inr (
          In-policies p policies
            (sym (ap (λ b. b || in_policies same_policy policies p) apart) ∙ h))
  ]

  -- A policy that is added is there, and the others stay.
  In-add_policy : (p : P) (found : List P) → In p (add_policy same_policy found p)
  In-add_policy p found = elim (Bool-cases (in_policies same_policy found p)) [
    | inl inside ↦ rw inside (In-policies p found inside)
    | inr outside ↦ rw outside (In-append p found (p ∷ []) (inr (inl refl)))
  ]

  In-add_policy-found :
      (p q : P) (found : List P) → In q found → In q (add_policy same_policy found p)
  In-add_policy-found p q found h = elim (Bool-cases (in_policies same_policy found p)) [
    | inl inside ↦ rw inside h
    | inr outside ↦ rw outside (In-append q found (p ∷ []) (inl h))
  ]

  In-add_policy-cases :
      (p q : P) (found : List P) → In q (add_policy same_policy found p) → In q found ⊎ (q ≡ p)
  In-add_policy-cases p q found h = elim (Bool-cases (in_policies same_policy found p)) [
    | inl inside ↦ inl (subst (In q) (ap (λ b. if b then found else found ++ p ∷ []) inside) h)
    | inr outside ↦
        elim (In-append-cases q found (p ∷ [])
          (subst (In q) (ap (λ b. if b then found else found ++ p ∷ []) outside) h)) [
            | inl here ↦ inl here
            | inr (inl e) ↦ inr e
            | inr (inr nowhere) ↦ elim nowhere [ ]
          ]
  ]

module _ {N P R : Type 0} (same_name : N → N → Bool) (same_policy : P → P → Bool)
    (same_iff : (a b : P) → (same_policy a b ≡ true) ↔ (a ≡ b)) (default empty : N) where
  abbrev own_policy : P → Profile N P R → P
  own_policy policy p = or_else p.load_balancing policy

  abbrev collected : P → List P → List (Profile N P R) → List P
  collected = collect same_name same_policy default empty

  In-collect-found :
      (policy : P) (q : P) (found : List P) (profiles : List (Profile N P R))
      → In q found
      → In q (collected policy found profiles)
  In-collect-found policy q found [] h = h
  In-collect-found policy q found (p ∷ profiles) h =
      In-collect-found policy q (add_policy same_policy found (own_policy policy p)) profiles
        (In-add_policy-found same_policy same_iff (own_policy policy p) q found h)

  In-collect :
      (policy : P) (p : Profile N P R) (found : List P) (profiles : List (Profile N P R))
      → In p profiles
      → In (own_policy policy p) (collected policy found profiles)
  In-collect policy p found [] h = absurd h
  In-collect policy p found (p' ∷ profiles) (inl e) =
      In-collect-found policy (own_policy policy p)
        (add_policy same_policy found (own_policy policy p')) profiles
        (subst (λ q. In (own_policy policy p) (add_policy same_policy found (own_policy policy q)))
          e (In-add_policy same_policy same_iff (own_policy policy p) found))
  In-collect policy p found (p' ∷ profiles) (inr h) =
      In-collect policy p (add_policy same_policy found (own_policy policy p')) profiles h

  In-collect-cases :
      (policy : P) (q : P) (found : List P) (profiles : List (Profile N P R))
      → In q (collected policy found profiles)
      → In q found ⊎ ((p : Profile N P R) × In p profiles × (q ≡ own_policy policy p))
  In-collect-cases policy q found [] h = inl h
  In-collect-cases policy q found (p ∷ profiles) h =
      elim (In-collect-cases policy q (add_policy same_policy found (own_policy policy p)) profiles
        h) [
          | inr (p', inside, e) ↦ inr (p', inr inside, e)
          | inl added ↦
              elim (In-add_policy-cases same_policy same_iff (own_policy policy p) q found added) [
                | inl before ↦ inl before
                | inr e ↦ inr (p, inl refl, e)
              ]
        ]

  -- The distance is that of the closest policy of a profile.
  abbrev pub IsClosest : ProfileManager N P R → (P → Distance) → Distance → Type 0
  IsClosest m distance d =
      ((p : Profile N P R)
        → In p m.profiles
        → (q : P) × (p.load_balancing ≡ some q) × (rank d ≤ rank (distance q)))
      × ((d ≡ ignored)
          ⊎ ((p : Profile N P R) × (q : P) × In p m.profiles
              × (p.load_balancing ≡ some q)
              × (d ≡ distance q)))

  managed-IsClosest :
      (policy : P) (retry : R) (profiles : List (Profile N P R)) (i : ℕ) (distance : P → Distance)
      → let m = managed same_name same_policy default empty policy retry profiles i in
        IsClosest m distance (closest ignored (map distance m.policies))
  managed-IsClosest policy retry profiles i distance =
      let m = managed same_name same_policy default empty policy retry profiles i in
      let own = m.default_policy in
      let complete = complete_at same_name same_policy default empty policy retry i profiles in
      (
        λ p h.
            let (p', inside, e) =
              In-map-source (with_policy same_name same_policy default empty own) p complete h in
            let there =
              In-map distance (own_policy own p') m.policies
                (In-collect own p' [] complete inside) in
            (
              own_policy own p',
              ap (λ p. p.load_balancing) e,
              (closest_least ignored (map distance m.policies)).1 _ there,
            ),
        elim (closest-Given ignored (map distance m.policies)) [
          | inl nothing ↦ inl nothing
          | inr inside ↦
              let (q, there, e) = In-map-source distance _ m.policies inside in
              elim (In-collect-cases own q [] complete there) [
                | inl nowhere ↦ elim nowhere [ ]
                | inr (p, here, at) ↦ inr (
                  with_policy same_name same_policy default empty own p,
                  own_policy own p,
                  In-map (with_policy same_name same_policy default empty own) p complete here,
                  refl,
                  e ∙ ap distance at,
                )
              ]
        ],
      )

  managed_with-IsClosest :
      (policy : P) (retry : R) (profiles : List (Profile N P R)) (o : Option ℕ)
      (distance : P → Distance)
      → let m = managed_with same_name same_policy default empty policy retry profiles o in
        IsClosest m distance (closest ignored (map distance m.policies))
  managed_with-IsClosest policy retry profiles none distance =
      managed-IsClosest policy retry
        (profiles ++ new_default same_name same_policy default empty ∷ []) (length profiles)
        distance
  managed_with-IsClosest policy retry profiles (some i) distance =
      managed-IsClosest policy retry profiles i distance

  -- `getDistance` gives the closest of the distances that the policies of the profiles tell, where each
  -- profile of the manager has a policy; it is ignored where none is closer. It is also what the
  -- host's `setDistance` is called with, once. For a host without that method there is no result.
  pub new_manager-IsClosest :
      {H : Type 0} (policy : P) (retry : R) (profiles : List (Profile N P R))
      (distance : P → Distance) (set_distance : Distance → H → H) (host : H)
      → let m = new_manager same_name same_policy default empty policy retry profiles in
        (d : Distance) × IsClosest m distance d
        × (get_distance same_name same_policy default empty m distance (some set_distance) host
            ≡ some (d, set_distance d host))
        × (get_distance same_name same_policy default empty m distance none host ≡ none)
  unfolding new_manager get_distance
  new_manager-IsClosest policy retry profiles distance set_distance host =
      let found = index_of_default same_name same_policy default empty profiles in
      let m = managed_with same_name same_policy default empty policy retry profiles found in
      (
        closest ignored (map distance m.policies),
        managed_with-IsClosest policy retry profiles found distance,
        refl,
        refl,
      )
