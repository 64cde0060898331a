-- ===== src/Sapi.antt =====
-- The simple application interface, framework/mt/Sapi: `Sapi.Formats` has its requests' structs,
-- `Sapi.Requests` the functions that send them, and `Sapi.Encoding` shows what they send.
pub mod Formats
pub mod Requests
pub mod Encoding
pub mod Sent
pub mod Reset
pub mod Events
pub mod Process
pub mod Decoding
mod Tests
