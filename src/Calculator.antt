-- ===== src/Calculator.antt =====
-- networking/calculator_client_server_c: a server that evaluates postfix expressions, and its client.
pub mod Arithmetic
pub mod Evaluate
pub mod Server
pub mod Client
pub mod Startup
mod Tests
