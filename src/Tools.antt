-- ===== src/Tools.antt =====
-- asusrouter/tools: the conversions that the other parts rest on, and addresses.
pub mod Converters
pub mod Security
pub mod Identifiers
pub mod Readers
pub mod Scaling
