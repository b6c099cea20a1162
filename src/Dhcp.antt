-- ===== src/Dhcp.antt =====
-- DHCPv6 messages: net/ip/dhcp_v6.cpp and dhcp_v6.hpp. A buffer that is read is the list of the
-- bytes between its two pointers.
pub mod Buffer
pub mod Generators
pub mod Parsers
pub mod Emits
pub mod Options
pub mod Replies
pub mod Lease
pub mod RoundTrip
