-- ===== src/Zdo/Binding.antt =====
-- The part of framework/mt/Zdo about bindings and link keys.
pub mod Formats
pub mod Requests
pub mod Payloads
pub mod Bind
pub mod Responses
pub mod Handlers
pub mod Reading
