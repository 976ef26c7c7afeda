-- ===== src/Http.antt =====
-- The HTTP server's own logic: the request parser, the router, the responses and the sessions of
-- src/server/http.
pub mod Request
pub mod Parser
pub mod Response
pub mod Router
pub mod Session
mod Runs
