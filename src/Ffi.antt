-- ===== src/Ffi.antt =====
-- The boundary to libwirelog: its enums, and the shapes that cross it.
pub mod Enums
pub mod Loader
pub mod Names
pub mod Operators
pub mod Prototypes
pub mod Types
