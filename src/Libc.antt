-- ===== src/Libc.antt =====
-- What the programs use of the C library: byte buffers, texts and decimal conversions.
pub mod Text
pub mod Decimal
