-- ===== src/SerialBridge.antt =====
-- internal/serialbridge: the console of a node at a serial port.
pub mod Port
pub mod Link
pub mod Run
