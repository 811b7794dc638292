-- ===== src/Adapters.antt =====
-- src/adapters: what the use cases see of a request and of a response.
pub mod Wrapper
