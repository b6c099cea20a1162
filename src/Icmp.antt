-- ===== src/Icmp.antt =====
-- Router solicitations: net/ip/icmp_parser.cpp, and the driver of app/opmip-mag/drivers/icmp.cpp that
-- has the gateway attach the nodes which send them.
pub mod Parser
pub mod Driver
pub mod Reports
pub mod Advert
pub mod Queries
pub mod Scan
pub mod Solicited
