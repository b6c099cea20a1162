-- ===== src/Dhcp/Replies.antt =====
-- The options and the message that net/ip/dhcp_v6.cpp writes in an answer.
use odi_mm.Base.{ℕ, ◌<◌, List, ◌++◌, arith, length}
use odi_mm.Dhcp.Buffer.{store, be8, be16, be24}
use odi_mm.Dhcp.Generators.{
  client_id, server_id, status_code, gen_option_server_id, gen_option_client_id, gen_option_status,
  gen_message,
}
use odi_mm.Dhcp.Emits.{Emits, store-Emits, then-Emits}
use odi_mm.Dhcp.Options.{
  option_bytes, put_be_uint16-Emits, gen_header-Emits, option-Emits, two_steps-Emits,
  three_steps-Emits,
}

pub server_id-Emits :
    (link_addr : List ℕ)
    → length link_addr < 65532
    → Emits
        (λ b. gen_option_server_id b link_addr)
        (option_bytes server_id ((be16 3 ++ be16 1) ++ link_addr))
unfolding gen_option_server_id
server_id-Emits link_addr h =
    three_steps-Emits server_id _ _ _ _ (put_be_uint16-Emits 3) (put_be_uint16-Emits 1) _ _
      (store-Emits link_addr) (omega (arith, h))

pub status-Emits :
    (st : ℕ) (msg : List ℕ)
    → length msg < 65534
    → Emits (λ b. gen_option_status b st msg) (option_bytes status_code (be16 st ++ msg))
unfolding gen_option_status
status-Emits st msg h =
    two_steps-Emits status_code _ _ _ _ (put_be_uint16-Emits st) (store-Emits msg)
      (omega (arith, h))

pub client_id-Emits :
    (cid : List ℕ)
    → length cid < 65536
    → Emits (λ b. gen_option_client_id b cid) (option_bytes client_id cid)
unfolding gen_option_client_id
client_id-Emits cid h = option-Emits client_id (λ b. store b cid) cid (store-Emits cid) h

pub message-Emits :
    (op tid : ℕ) (link_addr cid : List ℕ)
    → length link_addr < 65532
    → length cid < 65536
    → Emits
        (λ b. gen_message b op tid link_addr cid)
        ((be8 op ++ be24 tid)
          ++ (option_bytes server_id ((be16 3 ++ be16 1) ++ link_addr)
              ++ option_bytes client_id cid))
unfolding gen_message
message-Emits op tid link_addr cid h k =
    then-Emits _ _ _ _ (gen_header-Emits op tid)
      (then-Emits _ _ _ _ (server_id-Emits link_addr h) (client_id-Emits cid k))
