-- ===== src/Tools/Identifiers.antt =====
-- asusrouter/tools/identifiers: the addresses of devices.
pub mod Mac
pub mod Ip
