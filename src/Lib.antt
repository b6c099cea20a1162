-- ===== src/Lib.antt =====
-- ODiMM and OPMIP: proxy mobile IPv6. A mobile access gateway sends a binding update for each mobile
-- node that attaches to it, and the local mobility anchor keeps a binding cache, tunnels to the
-- gateways and routes to the nodes, and answers with a binding acknowledgement. This library models
-- the two daemons and what they are built on, and proves what they do.
--
-- The parts, and the code that they translate:
--   Types         lib/opmip/net/ip/prefix.cpp, inc/opmip/net/ip/prefix.hpp and the binding record of
--                 inc/opmip/pmip/types.hpp. Types/Order has the comparisons of prefixes, and
--                 Types/Text their text.
--   Wire          inc/opmip/ip/mproto.hpp, lib/opmip/pmip/mp_sender.cpp and mp_receiver.cpp, byte by
--                 byte: Wire/Flags has the flag accessors, Wire/Message the fixed part of a message,
--                 Wire/Sender and Wire/Receiver the two directions. Wire/Steps, Wire/Encoded and
--                 Wire/RoundTrip join them, and Wire/Limits has the bounds.
--   Tunnels       lib/opmip/pmip/tunnels.cpp, the reference counts of the tunnels and their
--                 collection.
--   Routes        lib/opmip/sys/route_table.cpp, the two maps of routes and the rtnetlink requests
--                 that follow them.
--   Rbtree        lib/opmip/rbtree_hook.cpp and inc/opmip/rbtree.hpp, the tree of the node database.
--                 Rbtree/Removal and Rbtree/Walk have the rest of the hook, Rbtree/Table the
--                 container. Rbtree/Invariant, Insertion, Removal/Rounds and Removal/Whole are about
--                 balance and order, Rbtree/Depth about the length of paths; Rbtree/Table/Keys,
--                 Laws, Insertion, Contents and Refines go from the tree to a map of its keys, and
--                 Rbtree/Table/Dispose is the end of a tree.
--   NodeDb        lib/opmip/pmip/node_db.cpp, routers and mobile nodes with their indexes.
--   Bcache        lib/opmip/pmip/bcache.cpp, the binding cache.
--   Sequence, Lma lib/opmip/pmip/lma.cpp, its object in Lma/State. `Lma.step` is one event: a
--                 datagram, the expiry or the removal timer of an entry, start or stop.
--                 `mp_receive` parses with Wire.Receiver.pbu_parse, `proxy_binding_update` calls `pbu_process`, which finds the
--                 entry (`pbu_get_be`), checks the message in (`pbu_mag_checkin`), and registers or
--                 deregisters, with Tunnels.get, Tunnels.del and the routes by destination.
--   Bulist        lib/opmip/pmip/bulist.cpp, the binding update list of a gateway.
--   Mag           lib/opmip/pmip/mag.cpp, its object in Mag/State: attachment and detachment
--                 of a mobile node, the acknowledgements (`proxy_binding_ack`), retransmission (`proxy_binding_retry`) and
--                 renewal (`proxy_binding_renew`), with the tunnels and routes of both sides. The calls
--                 of the address configuration server are kept in a list, and
--                 `Registration.Calls.serve` is what the server does at each.
--   LinkAddress   lib/opmip/net/link/address_mac.cpp, link addresses and their text.
--   Dhcp          lib/opmip/net/ip/dhcp_v6.cpp: Dhcp/Buffer has the big-endian integers,
--                 Dhcp/Generators and Dhcp/Parsers the two directions. Dhcp/Emits, Dhcp/Options,
--                 Dhcp/Replies and Dhcp/Lease have what the generators write, and Dhcp/RoundTrip joins them.
--   Addrconf      lib/opmip/pmip/addrconf_server.cpp: Addrconf/State has the clients, the timers of
--                 their advertisements (`router_advertisement`) and the multicast groups, and
--                 Addrconf/Requests the DHCPv6 messages (`dhcp6_handle_message`). Addrconf/Answers,
--                 Addrconf/Leases and Addrconf/Service say what a client reads in the answers,
--                 Addrconf/Advertising and Addrconf/Groups what the timers and the groups do.
--   Checksum      inc/opmip/ip/checksum.hpp, and `notify` of inc/opmip/net/ip/icmp6_ra_packet.hpp.
--   Icmp          lib/opmip/net/ip/icmp_parser.cpp (`icmp_rs_parse`) in Icmp/Parser and the driver of
--                 app/opmip-mag/drivers/icmp.cpp in Icmp/Driver, which has a gateway attach the
--                 nodes that send router solicitations; Icmp/Scan and Icmp/Solicited have what they do.
--                 Icmp/Reports is `icmp_mld_report_parser`, and Icmp/Queries is
--                 lib/opmip/net/ip/icmp_generator.cpp, both with inc/opmip/ip/icmp.hpp. Icmp/Advert is
--                 lib/opmip/pmip/icmp_sender.cpp: the bytes of a router advertisement, with
--                 Icmp/Advert/RoundTrip for what a host reads in the options and Icmp/Advert/Valid
--                 for the checksum that it verifies.
--   Pim           the hello messages that lib/opmip/net/ip/pim_gen_parser.cpp generates, with
--                 inc/opmip/net/ip/pim.hpp; Pim/Hello has what a neighbour reads in them.
--   Registration  the parts together: Registration/Handshake takes an attachment to a gateway through
--                 the bytes of the update and of the acknowledgement, with Registration/Anchor and
--                 Registration/Gateway for the two ends, and Registration/Calls joins the gateway
--                 with its address configuration server.
--   Run           how a handler ends: with a value, an exception, a failed assert or undefined
--                 behaviour.
--   Base          numbers, lists, decidable equality and associations with unique keys.
--   Samples, Examples, Lma/Examples, Mag/Examples    concrete data, tests, and the theorems at it.
--
-- The state of a class is a record, and a method is a function from the state to the next one. The
-- strand of a daemon runs one handler at a time, so a run is a list of events. The answers of the
-- system calls behind a tunnel or a route are the parameters `open_tunnel` and `checked_send`, of any
-- behaviour, and each event of a run has its own. Addresses are a type with the operations of
-- Types.AddressOps. Containers with unique keys are associations without an order, and
-- Rbtree/Table/Refines has the tree that the node database keeps behind its own. A pointer into a
-- tree is a position, a subtree with the path to the root, so a parent pointer is a step of the path.
--
-- Numbers are natural numbers. The 32-bit reference count and 16-bit header fields keep their
-- wrap-around. The option loop of the receiver runs on fuel, one round more than there are bytes to
-- read, and parse-ne-exhausted shows that this is enough; so does the one of the DHCPv6 handler, by
-- read_options-ne-exhausted, and the one of the router solicitations, by scan_options-fuel. Every
-- other loop is on a list, or on the count that it counts down from. What the
-- receiver reads behind a datagram is what its buffer held before, which is a parameter.
--
-- Not modelled: the anchor and access router and the central database of lib/odimm, which no build
-- file names and which call members that nothing declares; the join and prune messages and the
-- parsers of PIM, the other drivers and the command lines; sockets, netlink framing and the JSON
-- parser; logging and the measurement of delays. The asserts on the length of a prefix in
-- route_table.cpp, and those on the status in `pbu_get_be` and `pbu_mag_checkin` of lma.cpp, are left
-- out: the constructor of a prefix and the callers have tested the same. After an exception, a failed
-- assert or undefined behaviour the daemon's state is not followed.
pub mod Base
pub mod Types
pub mod Wire
mod Run
pub mod Tunnels
pub mod Routes
pub mod Rbtree
pub mod NodeDb
pub mod Sequence
pub mod Bcache
pub mod Lma
pub mod Bulist
pub mod Mag
pub mod LinkAddress
pub mod Dhcp
pub mod Addrconf
pub mod Checksum
pub mod Icmp
pub mod Pim
pub mod Registration
pub mod Samples
mod Examples
