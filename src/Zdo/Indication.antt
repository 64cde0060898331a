-- ===== src/Zdo/Indication.antt =====
-- The part of framework/mt/Zdo about messages passed on.
pub mod Formats
pub mod Requests
pub mod Payloads
pub mod Responses
pub mod Handlers
pub mod Reading
