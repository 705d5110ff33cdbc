-- ===== src/Types.antt =====
-- The containers of internal/types.
pub mod Stack
pub mod OrderedMap
pub mod Union
