-- ===== src/Sys.antt =====
-- The SYS interface of framework/mt/Sys/mtSys.c.
pub mod Formats
pub mod Requests
pub mod Payloads
pub mod Encoding
pub mod Events
pub mod Handlers
pub mod Reading
pub mod Process
pub mod Decoding
mod Tests
