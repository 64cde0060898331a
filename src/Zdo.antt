-- ===== src/Zdo.antt =====
-- The ZDO interface of framework/mt/Zdo/mtZdo.c.
pub mod Address
pub mod Descriptor
pub mod Binding
pub mod Management
pub mod Indication
pub mod Network
pub mod Requests
pub mod Encoding
pub mod Sent
pub mod Events
pub mod Process
pub mod Messages
pub mod Decoding
pub mod NotUsed
mod Tests
