-- ===== src/Data.antt =====
-- The data that messages carry, and the messages.
pub mod Meta
pub mod Devices
pub mod Vehicle
pub mod Message
