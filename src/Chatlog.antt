-- ===== src/Chatlog.antt =====
-- internal/chatlog/chatlog.go.
pub mod Ids
pub mod Records
pub mod Tables
pub mod BaseCall
pub mod Routing
pub mod Keys
pub mod Threads
