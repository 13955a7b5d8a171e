-- ===== src/Example.antt =====
-- awi/example: a server with fixed replies, and a client that sends one request to such a server.
pub mod Server
pub mod Client
