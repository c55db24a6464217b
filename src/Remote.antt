-- ===== src/Remote.antt =====
-- The JSON form of messages (homecontrol/Message.cpp) and homecontrol/RemoteManager.cpp, which
-- exchanges messages with remote peers.
pub mod Wire
pub mod Manager
