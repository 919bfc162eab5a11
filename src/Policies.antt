-- ===== src/Policies.antt =====
-- The policies of lib/policies/: load balancing, retry, reconnection, speculative execution and
-- timestamp generation.
pub mod LoadBalancing
pub mod Timestamp
pub mod Reconnection
pub mod Retry
pub mod Speculative
