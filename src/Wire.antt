-- ===== src/Wire.antt =====
-- Proxy binding updates and acknowledgements as bytes: ip/mproto.hpp, pmip/mp_sender.cpp and
-- pmip/mp_receiver.cpp. A message is a list of bytes, in the order in which they are sent.
pub mod Flags
pub mod Message
pub mod Sender
pub mod Receiver
pub mod Steps
pub mod Encoded
pub mod RoundTrip
pub mod Limits
