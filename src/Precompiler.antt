-- ===== src/Precompiler.antt =====
-- The precompiler, ocesql/.
pub mod Filler
pub mod Fields
pub mod Calls
pub mod Statement
pub mod Picture
pub mod Names
pub mod Copying
