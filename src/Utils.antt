-- ===== src/Utils.antt =====
-- lib/utils.js, less `shuffleArray`, which stands with the load balancing policies.
pub mod Uvint
mod Tests
pub mod Callbacks
pub mod HashSet
pub mod Search
pub mod Resolver
pub mod Params
pub mod Mapping
