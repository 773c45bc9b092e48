-- ===== src/Echo.antt =====
-- networking/practice_getstarted: a server that answers each of five clients with its message reversed.
pub mod Server
pub mod Client
mod Tests
