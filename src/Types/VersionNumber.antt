-- ===== src/Types/VersionNumber.antt =====
-- lib/types/version-number.js: the comparison of version numbers. The pattern that `parse` matches
-- with is not modelled.
mod Tests
use Prim.Native.String.{String}
use integration_hell.Common.{
  ℕ, zero, suc, ◌+◌, ◌≡◌, refl, arith, Bool, true, false, Option, none, some, List, [], ◌∷◌, ltb,
  if◌then◌else◌, inl, inr, ◌⊎◌, ◌≢◌, Bool-cases,
}

pub record VersionNumber : Type 0 where
  pub major : ℕ
  pub minor : ℕ
  pub patch : Option ℕ
  pub dse_patch : Option ℕ
  pub pre_releases : Option (List String)
  pub build : Option String

-- -1, 0 and 1
pub data Comparison : Type 0 where
  lower : Comparison
  same : Comparison
  higher : Comparison

-- `this.patch || 0`
abbrev pub or_zero : Option ℕ → ℕ
or_zero none = 0
or_zero (some n) = n

pub compare_dse_patch : Option ℕ → Option ℕ → Comparison → Comparison
compare_dse_patch none none rest = rest
compare_dse_patch none (some n) rest = lower
compare_dse_patch (some m) none rest = higher
compare_dse_patch (some m) (some n) rest =
    if ltb m n then lower else if ltb n m then higher else rest

pub compare_pre_releases : Option (List String) → Option (List String) → Comparison
compare_pre_releases none none = same
compare_pre_releases none (some n) = higher
compare_pre_releases (some m) none = lower
compare_pre_releases (some m) (some n) = same

unfoldable pub compare : VersionNumber → VersionNumber → Comparison
unfolding compare_dse_patch compare_pre_releases
compare a b =
    if ltb a.major b.major
    then lower
    else if ltb b.major a.major
    then higher
    else if ltb a.minor b.minor
    then lower
    else if ltb b.minor a.minor
    then higher
    else if ltb (or_zero a.patch) (or_zero b.patch)
    then lower
    else if ltb (or_zero b.patch) (or_zero a.patch)
    then higher
    else compare_dse_patch a.dse_patch b.dse_patch
        (compare_pre_releases a.pre_releases b.pre_releases)

-- The order the documentation describes: the numbers of `key` compared one after another, where a
-- patch that is not given counts as 0, one more than the DSE patch counts for it, and a pre-release
-- stands before the release.
abbrev dse_key : Option ℕ → ℕ
dse_key none = 0
dse_key (some n) = suc n

abbrev pre_key : Option (List String) → ℕ
pre_key none = 1
pre_key (some l) = 0

abbrev pub key : VersionNumber → List ℕ
key v = v.major ∷ v.minor ∷ or_zero v.patch ∷ dse_key v.dse_patch ∷ pre_key v.pre_releases ∷ []

abbrev pub lexicographic : List ℕ → List ℕ → Comparison
lexicographic [] [] = same
lexicographic [] (y ∷ ys) = lower
lexicographic (x ∷ xs) [] = higher
lexicographic (x ∷ xs) (y ∷ ys) =
    let rest = lexicographic xs ys in if ltb x y then lower else if ltb y x then higher else rest

dse_patch_lem :
    (a b : Option ℕ) (p q : Option (List String))
    → compare_dse_patch a b (compare_pre_releases p q)
      ≡ lexicographic (dse_key a ∷ pre_key p ∷ []) (dse_key b ∷ pre_key q ∷ [])
unfolding compare_dse_patch compare_pre_releases
dse_patch_lem a b p q = ground arith

-- The comparison of two version numbers is the lexicographic comparison of their keys: major, minor,
-- patch (0 where there is none), DSE patch (none before any), and whether it is a release.
pub compare-lexicographic : (a b : VersionNumber) → compare a b ≡ lexicographic (key a) (key b)
unfolding compare
compare-lexicographic a b =
    let rest = dse_patch_lem a.dse_patch b.dse_patch a.pre_releases b.pre_releases in ground arith

lexicographic_trans :
    (k l m : List ℕ)
    → lexicographic k l ≢ higher
    → lexicographic l m ≢ higher
    → lexicographic k m ≢ higher
lexicographic_trans [] l [] p q = ground arith
lexicographic_trans [] [] (z ∷ m) p q = ground arith
lexicographic_trans [] (y ∷ l) (z ∷ m) p q = ground arith
lexicographic_trans (x ∷ k) [] m p q = ground arith
lexicographic_trans (x ∷ k) (y ∷ l) [] p q = ground arith
lexicographic_trans (x ∷ k) (y ∷ l) (z ∷ m) p q =
    let rest = lexicographic_trans k l m in ground arith

-- The order of version numbers is transitive: a version that is not higher than one, which is not
-- higher than another, is not higher than that one.
pub compare_trans :
    (a b c : VersionNumber) → compare a b ≢ higher → compare b c ≢ higher → compare a c ≢ higher
compare_trans a b c =
    rw (compare-lexicographic a b, compare-lexicographic b c, compare-lexicographic a c)
      (lexicographic_trans (key a) (key b) (key c))
