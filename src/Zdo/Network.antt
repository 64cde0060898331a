-- ===== src/Zdo/Network.antt =====
-- The part of framework/mt/Zdo about starting, joining and leaving a network.
pub mod Formats
pub mod Requests
pub mod Payloads
pub mod Responses
pub mod Handlers
pub mod Reading
