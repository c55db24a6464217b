-- ===== src/Network.antt =====
-- homecontrol/TCPHandler.cpp: the connections over TCP, and what each of them sends.
pub mod Sending
pub mod Receiving
pub mod Requests
pub mod Connections
