-- ===== src/Types/VersionNumber/Tests.antt =====
-- lib/types/version-number.js at concrete versions.
use integration_hell.Common.{◌≡◌, ◌≢◌, refl, arith, none, some, [], ◌∷◌}
use integration_hell.Types.VersionNumber.{VersionNumber, lower, higher, compare}

-- 2.1, 2.1.0-beta and 2.1.0.3
abbrev plain : VersionNumber
plain = record {
  major = 2;
  minor = 1;
  patch = none;
  dse_patch = none;
  pre_releases = none;
  build = none;
}

abbrev beta : VersionNumber
beta = record {
  major = 2;
  minor = 1;
  patch = some 0;
  dse_patch = none;
  pre_releases = some ("beta" ∷ []);
  build = none;
}

abbrev patched : VersionNumber
patched = record {
  major = 2;
  minor = 1;
  patch = some 0;
  dse_patch = some 3;
  pre_releases = none;
  build = none;
}

beta_lower : compare beta plain ≡ lower
unfolding compare
beta_lower = refl

lower_not_higher : lower ≢ higher
lower_not_higher = ground arith

beta-plain : compare beta plain ≢ higher
unfolding compare
beta-plain = lower_not_higher

plain-patched : compare plain patched ≢ higher
unfolding compare
plain-patched = lower_not_higher
