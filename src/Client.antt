-- ===== src/Client.antt =====
-- The host program's side of an exchange: what becomes of a message once it is taken off the queue,
-- and of a request together with its response.
pub mod Messages
pub mod Process
pub mod Exchange
pub mod Calls
pub mod Status
pub mod Session
pub mod Kept
pub mod Log
pub mod Start
pub mod Overflow
mod Tests
