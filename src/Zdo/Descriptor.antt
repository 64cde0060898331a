-- ===== src/Zdo/Descriptor.antt =====
-- The part of framework/mt/Zdo about the descriptors of devices.
pub mod Formats
pub mod Requests
pub mod Payloads
pub mod Responses
pub mod Handlers
pub mod Reading
