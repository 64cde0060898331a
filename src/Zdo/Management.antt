-- ===== src/Zdo/Management.antt =====
-- The part of framework/mt/Zdo about the management of a network.
pub mod Formats
pub mod Requests
pub mod Payloads
pub mod Responses
pub mod Table
pub mod Handlers
pub mod Reading
pub mod Scatter
