-- ===== src/Metadata.antt =====
-- lib/metadata: the handling of the events that a server sends.
pub mod EventDebouncer
