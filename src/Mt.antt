-- ===== src/Mt.antt =====
-- The monitor and test layer of framework/mt: what its subsystems share. `Mt.Writer` builds the
-- payload of a command, `Mt.Call` sends it, and `Mt.Reader` takes a received message apart.
pub mod Writer
pub mod Host
pub mod Parser
pub mod Client
pub mod Call
pub mod Sent
pub mod Fills
pub mod Reader
pub mod Lists
pub mod Dispatch
pub mod Faults
pub mod Sample
