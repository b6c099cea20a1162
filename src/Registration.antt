-- ===== src/Registration.antt =====
-- A registration from end to end: the gateway of pmip/mag.cpp, the messages of pmip/mp_sender.cpp and
-- pmip/mp_receiver.cpp, the anchor of pmip/lma.cpp, and the gateway with its server of
-- pmip/addrconf_server.cpp.
pub mod Anchor
pub mod Gateway
pub mod Handshake
pub mod Calls
