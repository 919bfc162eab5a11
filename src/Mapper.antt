-- ===== src/Mapper.antt =====
-- lib/mapping: the object mapper.
pub mod Tree
pub mod Selector
pub mod Cache
