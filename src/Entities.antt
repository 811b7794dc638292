-- ===== src/Entities.antt =====
-- src/entities: what the use cases work on.
pub mod Log
pub mod User
