-- ===== src/Types/ProtocolVersion.antt =====
-- lib/types/protocol-version.js: the versions of the native protocol, what each of them supports, and
-- the choice of the highest common one. Messages to the log are not modelled.
pub mod Highest
pub mod Features
mod Tests
use integration_hell.Common.{
  ℕ, zero, suc, ◌-◌, ◌≡◌, Bool, true, false, not, ◌&&◌, ◌||◌, Option, none, some, List, [], ◌∷◌,
  ltb, leb, ◌==◌, if◌then◌else◌, min,
}
use integration_hell.Types.VersionNumber.{VersionNumber, Comparison, lower, same, higher, compare}

abbrev pub v1 : ℕ
v1 = 1

abbrev pub v2 : ℕ
v2 = 2

abbrev pub v3 : ℕ
v3 = 3

abbrev pub v4 : ℕ
v4 = 4

abbrev pub v5 : ℕ
v5 = 5

abbrev pub dse_v1 : ℕ
dse_v1 = 65

abbrev pub dse_v2 : ℕ
dse_v2 = 66

pub is_supported_cassandra : ℕ → Bool
is_supported_cassandra version = leb version 4 && leb 1 version

pub is_supported : ℕ → Bool
unfolding is_supported_cassandra
is_supported version = is_supported_cassandra version

-- The tests of a version by the feature they ask for.
pub data Feature : Type 0 where
  prepare_flags : Feature
  keyspace_in_request : Feature
  result_metadata_id : Feature
  prepared_partition_key : Feature
  schema_change_full_metadata : Feature
  continuous_paging : Feature
  paging : Feature
  timestamp : Feature
  named_parameters : Feature
  unset_parameters : Feature
  failure_reason_map : Feature
  two_bytes_stream_ids : Feature
  four_bytes_collection_length : Feature
  four_bytes_query_flags : Feature
  wrapped_startup_error : Feature

pub supports : Feature → ℕ → Bool
supports prepare_flags version = version == dse_v2
supports keyspace_in_request version = version == dse_v2
supports result_metadata_id version = version == dse_v2
supports prepared_partition_key version = leb v4 version
supports schema_change_full_metadata version = leb v3 version
supports continuous_paging version = false
supports paging version = leb v2 version
supports timestamp version = leb v3 version
supports named_parameters version = leb v3 version
supports unset_parameters version = leb v4 version
supports failure_reason_map version = leb v5 version
supports two_bytes_stream_ids version = leb v3 version
supports four_bytes_collection_length version = leb v3 version
supports four_bytes_query_flags version = false
supports wrapped_startup_error version = leb v4 version

pub get_lower_supported : ℕ → ℕ
get_lower_supported version =
    if leb v5 version then v4 else if leb version v1 then 0 else version - 1

-- `VersionNumber.parse(text)` of a host's version: `absent` for an empty text or none, `unparseable`
-- where it throws.
pub data Parsed : Type 0 where
  absent : Parsed
  unparseable : Parsed
  parsed : VersionNumber → Parsed

pub record Host : Type 0 where
  pub dse_version : Parsed
  pub cassandra_version : Parsed

abbrev pub release : ℕ → ℕ → VersionNumber
release major minor = record {
  major = major;
  minor = minor;
  patch = some 0;
  dse_patch = none;
  pre_releases = none;
  build = none;
}

-- `v.compare(other) >= 0`
abbrev at_least_zero : Comparison → Bool
at_least_zero lower = false
at_least_zero same = true
at_least_zero higher = true

pub at_least : VersionNumber → VersionNumber → Bool
at_least v other = at_least_zero (compare v other)

-- The three variables of the loop of `getHighestCommon`.
pub record Found : Type 0 where
  pub max_version : ℕ
  pub v3_requirement : Bool
  pub max_version_with3_or_more : ℕ

-- The branch of a host by its Cassandra version.
pub visit_cassandra : Parsed → Found → Found
visit_cassandra absent s = s
visit_cassandra unparseable s = s
visit_cassandra (parsed v) s =
    if at_least v (release 3 0)
    then record {
      max_version = min v4 s.max_version;
      v3_requirement = true;
      max_version_with3_or_more = min v4 s.max_version;
    }
    else if at_least v (release 2 2)
    then record {
      max_version = min v4 s.max_version;
      v3_requirement = s.v3_requirement;
      max_version_with3_or_more = min v4 s.max_version;
    }
    else if at_least v (release 2 1)
    then record {
      max_version = min v3 s.max_version;
      v3_requirement = s.v3_requirement;
      max_version_with3_or_more = min v3 s.max_version;
    }
    else if at_least v (release 2 0)
    then record {
      max_version = min v2 s.max_version;
      v3_requirement = s.v3_requirement;
      max_version_with3_or_more = s.max_version_with3_or_more;
    }
    else record {
      max_version = v1;
      v3_requirement = s.v3_requirement;
      max_version_with3_or_more = s.max_version_with3_or_more;
    }

-- A host of the loop; `none` is the error of a DSE version that does not parse.
pub visit : Host → Found → Option Found
unfolding visit_cassandra
visit h s = elim h.dse_version [
  | absent ↦ some (visit_cassandra h.cassandra_version s)
  | unparseable ↦ none
  | parsed dse ↦
      if at_least dse (release 5 1)
      then some (
          let max =
            if at_least dse (release 6 0)
            then min dse_v2 s.max_version
            else min dse_v1 s.max_version in
          record { max_version = max; v3_requirement = true; max_version_with3_or_more = max })
      else some (visit_cassandra h.cassandra_version s)
]

pub visit_all : List Host → Found → Option Found
unfolding visit
visit_all [] s = some s
visit_all (h ∷ hosts) s = elim (visit h s) [ none ↦ none | some t ↦ visit_all hosts t ]

-- The connection is given by its protocol version.
pub get_highest_common : ℕ → List Host → Option ℕ
unfolding visit_all
get_highest_common version hosts =
    elim (visit_all hosts (record {
      max_version = version;
      v3_requirement = false;
      max_version_with3_or_more = version;
    })) [
      | none ↦ none
      | some s ↦ some (
          if s.v3_requirement && ltb s.max_version v3
          then s.max_version_with3_or_more
          else s.max_version)
    ]

pub is_beta : ℕ → Bool
is_beta version = version == v5
