-- ===== src/Reservation.antt =====
-- networking/networking_reservation_system_c: the ticket server, its client, and the two together.
pub mod Request
pub mod Server
pub mod Client
pub mod Exchange
pub mod Fleet
pub mod Startup
pub mod Race
mod Tests
