-- ===== src/Types.antt =====
-- lib/types: the values of the driver, less `MutableLong`, which has a module of its own.
pub mod VersionNumber
pub mod ProtocolVersion
pub mod Duration
