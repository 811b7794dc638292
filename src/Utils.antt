-- ===== src/Utils.antt =====
-- src/utils: helpers on strings and on the environment.
pub mod Strings
pub mod Env
pub mod Number
