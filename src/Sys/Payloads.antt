-- ===== src/Sys/Payloads.antt =====
-- The payloads of the requests of framework/mt/Sys/mtSys.c.
pub mod Memory
pub mod Device
