-- ===== src/Tests.antt =====
-- Runs of the code at concrete inputs, and the theorems at inputs that meet their hypotheses.
mod Answers
mod Bridges
mod Callsigns
mod Chats
mod Consoles
mod Hours
mod Logs
mod Notices
mod Netconsoles
mod Outboxes
mod Packets
mod Places
mod Reads
mod Serials
mod Settings
mod Stores
mod Updates
