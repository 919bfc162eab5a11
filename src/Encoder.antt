-- ===== src/Encoder.antt =====
-- lib/encoder.js: values of CQL types to bytes and back.
pub mod Buffer
pub mod Varint
pub mod Types
pub mod Encode
pub mod Decode
pub mod Collections
pub mod Maps
pub mod Fields
pub mod Sizes
pub mod Vectors
pub mod Solid
pub mod Sound
pub mod Tuples
pub mod RoundTrip
pub mod Errors
pub mod Routing
pub mod Names
mod Tests
