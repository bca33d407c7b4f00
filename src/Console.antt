-- ===== src/Console.antt =====
-- internal/consolecodec: the records of the serial and network consoles.
pub mod Extract
pub mod Decoder
pub mod Decimal
pub mod Encoder
