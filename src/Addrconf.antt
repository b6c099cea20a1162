-- ===== src/Addrconf.antt =====
-- The address configuration server of pmip/addrconf_server.cpp and addrconf_server.hpp, which
-- advertises prefixes to the attached nodes and answers their DHCPv6 messages.
pub mod State
pub mod Requests
pub mod Answers
pub mod Leases
pub mod Service
pub mod Advertising
pub mod Groups
