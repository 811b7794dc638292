-- ===== src/Http.antt =====
-- src/wrappers/http: the HTTP server, its messages, parser, router, responses and connections.
pub mod Message
pub mod Parser
pub mod Cookie
pub mod Mime
pub mod Response
pub mod Connection
pub mod Router
pub mod Server
