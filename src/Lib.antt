-- ===== src/Lib.antt =====
-- Verification library of the JavaScript part of the driver (lib/). The driver is a set of policies
-- and value types around a native module in Rust (src/), which this library does not model.
--
-- - MutableLong: the class of lib/types/mutable-long.js, four 16-bit limbs. Each method is a function
--   from the object's limbs to the new limbs. `Value` and `Order` state arithmetic and comparison on
--   the value of the limbs, `Multiply`, `Shift` and `Convert` the other operations.
-- - Policies.LoadBalancing: lib/policies/load-balancing.js. A policy is a record of its fields, its
--   `newQueryPlan` gives a plan and the policy's new fields. A plan's `next` is a function on its state;
--   `drain` in Policies/LoadBalancing.antt calls it until it is done, on as much fuel as the theorems
--   name (the plan gives nothing more after that). `shuffleArray` of lib/utils.js is modelled with the
--   default policy, which is the one that calls it; its random numbers are an argument.
-- - Policies.Timestamp, Policies.Retry, Policies.Reconnection and Policies.Speculative: the other
--   policies of lib/policies, one file each. Clocks and random numbers are arguments.
-- - Types.VersionNumber and Types.ProtocolVersion: lib/types/version-number.js and
--   lib/types/protocol-version.js. The loop over the hosts in `getHighestCommon` is `visit_all`; hosts
--   carry the outcome of parsing their versions, since the parser is a regular expression.
-- - Types.Duration: lib/types/duration.js. The builder's methods are functions to a result with the
--   error that the source throws; a text is the list of its items, as the regular expressions of
--   `fromString` find them and as `toString` writes them.
-- - Concurrent: `ArrayBasedExecutor` and `ResultSetGroup` of lib/concurrent/index.js. The asynchronous
--   workers are a step relation: each step is an answer to one of the requests that are under way, in
--   any order.
-- - Metadata.EventDebouncer: lib/metadata/event-debouncer.js, the queue between two runs of
--   `processQueue`; what is called is a list of calls.
-- - Encoder: lib/encoder.js. Buffer has what is used of Node's buffers, and the lengths of collections;
--   Varint the integers of many bytes; Types the column types and the values given for them; Encode and
--   Decode the two directions, one function per type. A run ends with a value or with what is thrown.
--   The other files carry the round trip: Collections, Maps, Fields, Sizes and Vectors are about one
--   encoder of items each, Solid names the values that keep what they are, Sound and Tuples put the
--   types together, and RoundTrip closes the recursion over types. Errors is about what is not taken,
--   Routing about the routing keys. Names has the parser of CQL type names and the names of types, a
--   text being the list of its characters' codes; its fuel is one more than the length of the name.
-- - Profiles: lib/execution-profile.js, the manager of the execution profiles with the load balancing
--   policies of all of them. A host is whatever the caller has, with or without a setDistance.
-- - Mapper: lib/mapping. Tree is the radix tree in which tree.js keeps what the mapper prepares, Selector
--   the tables that object-selector.js chooses for a statement, where what the metadata gives for the
--   name of a table is an argument, and Cache the keys of cache.js in that tree.
-- - Utils: lib/utils.js. Uvint has the packed lengths of vectors (`uvintPack`, with fuel for the at most 9
--   rounds of its loop), Search the binary search (its fuel is one more than the length of the
--   array), Callbacks the loops that call back when all work is done, Mapping the one that collects
--   results, HashSet the set of keys with its abstract view in HashSet/Refinement.antt, Resolver the
--   look-up of addresses, and Params the named parameters of prepared statements.
-- - Common: the library's names and the lemmas that the modules share; Common/Long.antt is the
--   interface of the package `long`, with its documented results on integers that are not negative.
--
-- Numbers of the source that are whole and not negative are natural numbers; an index or a count stays
-- far below 2 ^ 53, above which doubles would be inexact. The loops of the encoder's varints take the
-- number itself as fuel, since each round makes it smaller; what reads a routing key back takes the
-- number of its bytes. Where nothing else is said of fuel, loops go over lists or over a count.
--
-- Not modelled: the encoder's parsers of fully qualified type names and the types whose bytes other
-- classes lay out, the checks of the values that it is given, the client and its options, the rest of
-- the metadata, the rest of the object mapper and most value types, which are left for later or call
-- into the Rust module; lib/types/integer.js is a copy of another library. Log
-- messages and the texts of errors are left out everywhere.
pub mod Common
pub mod Concurrent
pub mod Encoder
pub mod Mapper
pub mod Metadata
pub mod MutableLong
pub mod Policies
pub mod Profiles
pub mod Types
pub mod Utils
