-- ===== src/Types/ProtocolVersion/Tests.antt =====
-- lib/types/protocol-version.js at concrete versions and hosts.
use integration_hell.Common.{ℕ, ◌≡◌, ◌≢◌, refl, arith, true, some, List, [], ◌∷◌, ◌++◌, inr}
use integration_hell.Types.VersionNumber.{compare}
use integration_hell.Types.ProtocolVersion.{
  Host, absent, unparseable, parsed, release, at_least, supports, timestamp, get_highest_common,
}
use integration_hell.Types.ProtocolVersion.Highest.{
  least, get_highest_common-least, get_highest_common-Newer,
}

abbrev cassandra : ℕ → ℕ → Host
cassandra major minor = record {
  dse_version = absent;
  cassandra_version = parsed (release major minor);
}

absent_parses : absent ≢ unparseable
absent_parses = ground arith

three_timestamp : supports timestamp 3 ≡ true
unfolding supports
three_timestamp = refl

abbrev mixed : List Host
mixed = cassandra 2 2 ∷ cassandra 2 1 ∷ cassandra 3 0 ∷ []

get_highest_common-least_example : get_highest_common 66 mixed ≡ some (least 66 mixed)
unfolding at_least compare
get_highest_common-least_example =
    get_highest_common-least 66 mixed (omega arith)
      (absent_parses, (absent_parses, (absent_parses, tt))) (inr (omega arith))

abbrev newer : List Host
newer = cassandra 3 0 ∷ []

abbrev older : List Host
older = cassandra 2 0 ∷ []

get_highest_common-Newer_example : get_highest_common 4 (newer ++ older) ≡ some (least 4 newer)
unfolding at_least compare
get_highest_common-Newer_example =
    get_highest_common-Newer 4 newer older (omega arith) ((absent_parses, refl), tt)
      ((absent_parses, omega arith), tt) refl

newer_then_older : get_highest_common 4 (newer ++ older) ≡ some 4
unfolding get_highest_common at_least compare
newer_then_older = refl

-- The same hosts in the other order.
older_then_newer : get_highest_common 4 (older ++ newer) ≡ some 2
unfolding get_highest_common at_least compare
older_then_newer = refl
