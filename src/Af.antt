-- ===== src/Af.antt =====
-- The application framework interface, framework/mt/Af: `Af.Formats` has its requests' structs,
-- `Af.Requests` the functions that send them, and `Af.Encoding` shows what they send.
pub mod Formats
pub mod Requests
pub mod Encoding
pub mod Sent
pub mod Events
pub mod Process
pub mod Address
pub mod Decoding
mod Tests
