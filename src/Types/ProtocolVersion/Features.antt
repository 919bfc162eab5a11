-- ===== src/Types/ProtocolVersion/Features.antt =====
-- lib/types/protocol-version.js: what the versions of Cassandra's protocol support.
use integration_hell.Common.{ℕ, ◌≤◌, ◌<◌, ◌≡◌, arith, true}
use integration_hell.Types.ProtocolVersion.{Feature, supports, is_supported, get_lower_supported}

-- A version up to DSE 2 (0x42) has every feature of the versions up to it.
pub supports-monotone :
    (f : Feature) (v w : ℕ) → v ≤ w → w ≤ 66 → supports f v ≡ true → supports f w ≡ true
unfolding supports
supports-monotone f v w = ground arith

-- The lower version of `version` is below it, where it is not 0, and the highest supported one below
-- it: it is 0 or supported, and no supported version is between the two.
pub get_lower_supported-highest :
    (version w : ℕ)
    → (0 < version → get_lower_supported version < version)
      × (0 < get_lower_supported version → is_supported (get_lower_supported version) ≡ true)
      × (is_supported w ≡ true → w < version → w ≤ get_lower_supported version)
unfolding get_lower_supported is_supported
get_lower_supported-highest version w = ground arith
