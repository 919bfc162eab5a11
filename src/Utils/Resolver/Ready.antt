-- ===== src/Utils/Resolver/Ready.antt =====
-- lib/utils.js: the addresses that `getIp` gives.
use integration_hell.Common.{
  ℕ, suc, ◌%◌, ◌<◌, ◌≡◌, refl, sym, ap, ◌∙◌, ◌⊎◌, inl, inr, Bool-cases, arith, Bool, true, false,
  Option, none, some, List, [], ◌∷◌, length, if◌then◌else◌,
}
use integration_hell.Common.Rotate.{lt-get_elem?}
use integration_hell.Utils.Resolver.{
  AddressResolver, Answer, failed, answered, new_resolver, resolve, init, refresh, refreshed,
  next_index, or_same, give, get_ip,
}

-- What is done to a resolver: `refresh` is called, a look-up that it started answers, or `getIp` is
-- called.
pub data Event {ℓ} (A : Type ℓ) : Type ℓ where
  refreshing : Event A
  answer : Answer A → Event A
  getting : Event A

remainder-bound : (i n : ℕ) → 0 < n → i % n < n
remainder-bound i n h = omega arith

module _ {ℓ} {A : Type ℓ} where
  abbrev pub left_after :
      AddressResolver A → Option (Option A × AddressResolver A) → AddressResolver A
  left_after r none = r
  left_after r (some given) = given.1

  abbrev pub step : AddressResolver A → Event A → AddressResolver A
  step r refreshing = (refresh r).0
  step r (answer a) = refreshed r a
  step r getting = left_after r (get_ip r)

  abbrev pub after : AddressResolver A → List (Event A) → AddressResolver A
  after r [] = r
  after r (e ∷ events) = after (step r e) events

  -- An address, or a name that has addresses.
  abbrev pub IsReady : AddressResolver A → Type ℓ
  IsReady r = (r.is_ip ≡ true) ⊎ ((x : A) × (xs : List A) × (r.addresses ≡ some (x ∷ xs)))

  IsReady-same :
      (r r' : AddressResolver A)
      → r'.is_ip ≡ r.is_ip
      → r'.addresses ≡ r.addresses
      → IsReady r
      → IsReady r'
  IsReady-same r r' p q (inl ip) = inl (p ∙ ip)
  IsReady-same r r' p q (inr (x, xs, e)) = inr (x, xs, q ∙ e)

  refresh_same :
      (r : AddressResolver A)
      → ((refresh r).0.is_ip ≡ r.is_ip) × ((refresh r).0.addresses ≡ r.addresses)
  unfolding refresh
  refresh_same r = elim (Bool-cases r.is_ip) [
    | inl ip ↦ rw ip (refl, refl)
    | inr name ↦ elim (Bool-cases r.refreshing) [
      | inl busy ↦ rw (name, busy) (refl, refl)
      | inr free ↦ rw (name, free) (refl, refl)
    ]
  ]

  give_same :
      (r : AddressResolver A) (ip : Bool) (addresses : Option (List A))
      → ((left_after r (give r ip addresses)).is_ip ≡ r.is_ip)
        × ((left_after r (give r ip addresses)).addresses ≡ r.addresses)
  give_same r true addresses = (refl, refl)
  give_same r false none = (refl, refl)
  give_same r false (some xs) = (refl, refl)

  get_ip_same :
      (r : AddressResolver A)
      → ((left_after r (get_ip r)).is_ip ≡ r.is_ip)
        × ((left_after r (get_ip r)).addresses ≡ r.addresses)
  unfolding get_ip
  get_ip_same r = give_same r r.is_ip r.addresses

  -- The addresses are never forgotten.
  step-IsReady : (r : AddressResolver A) (e : Event A) → IsReady r → IsReady (step r e)
  unfolding refreshed resolve
  step-IsReady r refreshing h = let (p, q) = refresh_same r in IsReady-same r (refresh r).0 p q h
  step-IsReady r (answer failed) h = h
  step-IsReady r (answer (answered [])) h = h
  step-IsReady r (answer (answered (x ∷ xs))) h = inr (x, xs, refl)
  step-IsReady r getting h =
      let (p, q) = get_ip_same r in IsReady-same r (left_after r (get_ip r)) p q h

  after-IsReady :
      (r : AddressResolver A) (events : List (Event A)) → IsReady r → IsReady (after r events)
  after-IsReady r [] h = h
  after-IsReady r (e ∷ events) h = after-IsReady (step r e) events (step-IsReady r e h)

  resolve-IsReady : (r r' : AddressResolver A) (a : Answer A) → resolve r a ≡ some r' → IsReady r'
  unfolding resolve
  resolve-IsReady r r' failed h = ground arith
  resolve-IsReady r r' (answered []) h = ground arith
  resolve-IsReady r r' (answered (x ∷ xs)) h =
      let same = ap (or_same r) h in inr (x, xs, sym (ap (λ y. y.addresses) same))

  init-IsReady : (r r' : AddressResolver A) (a : Answer A) → init r a ≡ some r' → IsReady r'
  unfolding init resolve
  init-IsReady r r' a h = first_IsReady r.is_ip refl h
    where
      first_IsReady :
          (ip : Bool) → r.is_ip ≡ ip → (if ip then some r else resolve r a) ≡ some r' → IsReady r'
      first_IsReady true p q = inl (ap (λ x. x.is_ip) (sym (ap (or_same r) q)) ∙ p)
      first_IsReady false p q = resolve-IsReady r r' a q

  given_by :
      (r : AddressResolver A) (ip : Bool) (x : A) (xs : List A)
      → r.addresses ≡ some (x ∷ xs)
      → (y : A) × (r' : AddressResolver A) × (give r ip r.addresses ≡ some (some y, r'))
  given_by r true x xs there = (r.name_or_ip, r, refl)
  given_by r false x xs there =
      let k = r.index % length (x ∷ xs) in
      let (y, at) =
        lt-get_elem? (x ∷ xs) k (remainder-bound r.index (suc (length xs)) (omega arith)) in
      let r' : AddressResolver A = record {
        name_or_ip = r.name_or_ip;
        is_ip = r.is_ip;
        index = next_index r.index;
        addresses = r.addresses;
        refreshing = r.refreshing;
      } in
      (y, r', ap (give r false) there ∙ ap (λ z. some (z, r')) at)

  ready_get :
      (r : AddressResolver A)
      → IsReady r
      → (x : A) × (r' : AddressResolver A) × (get_ip r ≡ some (some x, r'))
  unfolding get_ip
  ready_get r (inl ip) = (r.name_or_ip, r, ap (λ b. give r b r.addresses) ip)
  ready_get r (inr (x, xs, there)) = given_by r r.is_ip x xs there

  -- After `init` has succeeded, whatever calls of `refresh` and `getIp` and answers of look-ups follow,
  -- `getIp` gives an address.
  pub get_ip-IsReady :
      (name : A) (ip : Bool) (first : Answer A) (r : AddressResolver A) (events : List (Event A))
      → init (new_resolver name ip) first ≡ some r
      → (x : A) × (r' : AddressResolver A) × (get_ip (after r events) ≡ some (some x, r'))
  get_ip-IsReady name ip first r events h =
      ready_get (after r events)
        (after-IsReady r events (init-IsReady (new_resolver name ip) r first h))
