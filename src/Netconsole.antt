-- ===== src/Netconsole.antt =====
-- internal/netconsole: the text console of a node over TCP.
pub mod Auth
pub mod Bridge
pub mod Run
