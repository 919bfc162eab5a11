-- ===== src/Policies/LoadBalancing/LocalDc.antt =====
-- `setLocalDc` and `getDataCenters` of lib/policies/load-balancing.js. The log message is not
-- modelled, nor are the texts of the errors.
use Prim.Native.String.{String}
use text.Mathlib.Text.{◌==◌}
use integration_hell.Common.{
  Bool, true, false, Option, none, some, List, [], ◌∷◌, map, ◌||◌, if◌then◌else◌,
}
use integration_hell.Policies.LoadBalancing.{Host}

-- Whether a text or `undefined` is true as a condition.
abbrev pub is_set : Option String → Bool
is_set none = false
is_set (some text) = if text == "" then false else true

abbrev pub same_text : Option String → Option String → Bool
same_text none none = true
same_text none (some t) = false
same_text (some s) none = false
same_text (some s) (some t) = s == t

abbrev pub has_dc : List (Option String) → Option String → Bool
has_dc [] dc = false
has_dc (d ∷ dcs) dc = same_text d dc || has_dc dcs dc

pub get_data_centers : List Host → List (Option String)
get_data_centers hosts = map (λ h. h.datacenter) hosts

-- `lbp.localDc || client.options.localDataCenter`
unfoldable pub effective_dc : Option String → Option String → Option String
effective_dc own from_client = if is_set own then own else from_client

pub data DcResult : Type 0 where
  accepted not_defined not_found : DcResult

-- The outcome for the data center that the policy then has.
pub set_local_dc : Option String → List Host → DcResult
unfolding get_data_centers
set_local_dc dc hosts =
    if is_set dc
    then (if has_dc (get_data_centers hosts) dc then accepted else not_found)
    else not_defined
