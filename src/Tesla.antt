-- ===== src/Tesla.antt =====
-- homecontrol/TeslaManager.cpp and TeslaConnection.cpp: the reader of the car's state.
pub mod Connection
pub mod Website
pub mod Reader
