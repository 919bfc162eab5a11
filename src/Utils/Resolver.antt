-- ===== src/Utils/Resolver.antt =====
-- lib/utils.js: `AddressResolver`. What the look-up of a name answers is an argument; a resolution
-- that fails, in `init` or in the work of `refresh`, gives none. `refreshing` tells whether the emitter
-- is there that other calls of `refresh` wait for.
pub mod Ready
use integration_hell.Common.{
  ℕ, zero, suc, ◌+◌, ◌%◌, Bool, true, false, Option, none, some, List, [], ◌∷◌, length, get_elem?,
  ◌==◌, if◌then◌else◌,
}

pub record AddressResolver {ℓ} (A : Type ℓ) : Type ℓ where
  pub name_or_ip : A
  pub is_ip : Bool
  pub index : ℕ
  pub addresses : Option (List A)
  pub refreshing : Bool

pub data Answer {ℓ} (A : Type ℓ) : Type ℓ where
  failed : Answer A
  answered : List A → Answer A

-- What a call of `refresh` does at first: nothing, wait for the one that is under way, or ask.
pub data Refresh : Type 0 where
  returns : Refresh
  waits : Refresh
  asks : Refresh

abbrev pub next_index : ℕ → ℕ
next_index i = if i == 2147483647 then 0 else i + 1

module _ {ℓ} {A : Type ℓ} where
  abbrev pub new_resolver : A → Bool → AddressResolver A
  new_resolver name ip = record {
    name_or_ip = name;
    is_ip = ip;
    index = 0;
    addresses = none;
    refreshing = false;
  }

  abbrev pub with_addresses : AddressResolver A → List A → AddressResolver A
  with_addresses r xs = record {
    name_or_ip = r.name_or_ip;
    is_ip = r.is_ip;
    index = r.index;
    addresses = some xs;
    refreshing = r.refreshing;
  }

  unfoldable pub resolve : AddressResolver A → Answer A → Option (AddressResolver A)
  resolve r failed = none
  resolve r (answered []) = none
  resolve r (answered (x ∷ xs)) = some (with_addresses r (x ∷ xs))

  unfoldable pub init : AddressResolver A → Answer A → Option (AddressResolver A)
  unfolding resolve
  init r answer = if r.is_ip then some r else resolve r answer

  abbrev pub set_refreshing : AddressResolver A → Bool → AddressResolver A
  set_refreshing r b = record {
    name_or_ip = r.name_or_ip;
    is_ip = r.is_ip;
    index = r.index;
    addresses = r.addresses;
    refreshing = b;
  }

  unfoldable pub refresh : AddressResolver A → AddressResolver A × Refresh
  refresh r =
      if r.is_ip
      then (r, returns)
      else if r.refreshing
      then (r, waits)
      else (set_refreshing r true, asks)

  abbrev pub or_same : AddressResolver A → Option (AddressResolver A) → AddressResolver A
  or_same r none = r
  or_same r (some r') = r'

  -- The rest of the call that asks: an error is ignored.
  unfoldable pub refreshed : AddressResolver A → Answer A → AddressResolver A
  unfolding resolve
  refreshed r answer = set_refreshing (or_same r (resolve r answer)) false

  -- What is given of the address, or of the addresses of the name.
  abbrev pub give :
      AddressResolver A → Bool → Option (List A) → Option (Option A × AddressResolver A)
  give r true addresses = some (some r.name_or_ip, r)
  give r false none = none
  give r false (some xs) = some (
    get_elem? xs (r.index % length xs),
    record {
      name_or_ip = r.name_or_ip;
      is_ip = r.is_ip;
      index = next_index r.index;
      addresses = r.addresses;
      refreshing = r.refreshing;
    },
  )

  -- None is the error where no name has been resolved; an address that is none is undefined.
  unfoldable pub get_ip : AddressResolver A → Option (Option A × AddressResolver A)
  get_ip r = give r r.is_ip r.addresses
