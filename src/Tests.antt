-- ===== src/Tests.antt =====
-- Runs of the theorems on concrete inputs.
mod Parsing
mod Routing
mod Serving
mod Storing
mod Users
mod Sessions
mod Logins
mod Databases
mod Startups
mod Cryptos
mod Apis
mod Servers
mod Traces
mod Singletons
