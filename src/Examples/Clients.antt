-- ===== src/Examples/Clients.antt =====
-- The theorems about link addresses, DHCPv6 and the address configuration server at concrete inputs.
use odi_mm.Base.{
  ℕ, ◌≡◌, refl, ◌∷◌, [], ◌++◌, List, true, false, none, some, length, arith, nat_eq, list_eq,
  list_beq, not, ◌≢◌, find, replicate,
}
use odi_mm.Run.{done, threw}
use odi_mm.Samples.{home, wide_addresses}
use odi_mm.LinkAddress.{from_string, to_string, is_null}
use odi_mm.LinkAddress.RoundTrip.{from_string-to_string}
use odi_mm.Dhcp.Buffer.{
  Buffer, be8, be16, be24, get_be_uint8, get_be_uint16, get_be_uint24, get_be_uint32, get_be_uint64,
  put_be_uint8, put_be_uint16, put_be_uint24, put_be_uint32, put_be_uint64,
}
use odi_mm.Dhcp.Generators.{server_id, client_id, status_code, status_no_binding}
use odi_mm.Dhcp.Parsers.{parse_option_duid}
use odi_mm.Dhcp.Emits.{Emits, buffer_at}
use odi_mm.Dhcp.Options.{option_bytes}
use odi_mm.Dhcp.Lease.{gen_lease, lease_bytes, lease-Emits}
use odi_mm.Dhcp.RoundTrip.{ReadsBack, get_be_int-put_be_int}
use odi_mm.Addrconf.State.{
  Advertisement, Client, Server, Multicast, mem, join, start, stop, del, expire, fire,
}
use odi_mm.Addrconf.Requests.{answer_opcode, not_available, dhcp6_handle_message}
use odi_mm.Addrconf.Leases.{read_lease}
use odi_mm.Addrconf.Service.{
  Request, message, IsRequest, IsServed, lease_of, handle_message-grants, handle_message-unknown,
}
use odi_mm.Addrconf.Advertising.{rounds, del-stops, late_deletion-advertises}
use odi_mm.Addrconf.Groups.{IsMulticast, restart_deaf}

abbrev pub link : List ℕ
link = 0 ∷ 1 ∷ 2 ∷ 0xab ∷ 0xcd ∷ 0xef ∷ []

from_string-to_string_example : from_string (to_string link) ≡ link
from_string-to_string_example =
    from_string-to_string 0 1 2 0xab 0xcd 0xef
      (omega arith, (omega arith, (omega arith, (omega arith, (omega arith, (omega arith, tt))))))

-- A text that is too long is not read.
from_string_longer :
    from_string (
      b'0' ∷ b'0' ∷ b':' ∷ b'0' ∷ b'1' ∷ b':' ∷ b'0' ∷ b'2' ∷ b':' ∷ b'a' ∷ b'b' ∷ b':' ∷ b'c'
      ∷ b'd' ∷ b':' ∷ b'e' ∷ b'f' ∷ b':' ∷ [])
    ≡ replicate 6 0
unfolding from_string
from_string_longer = refl

-- Capital letters are read as well.
from_string_capitals :
    from_string (
      b'0' ∷ b'0' ∷ b':' ∷ b'0' ∷ b'1' ∷ b':' ∷ b'0' ∷ b'2' ∷ b':' ∷ b'A' ∷ b'B' ∷ b':' ∷ b'C'
      ∷ b'D' ∷ b':' ∷ b'E' ∷ b'F' ∷ [])
    ≡ link
unfolding from_string
from_string_capitals = refl

-- A buffer that holds a byte, with nine bytes free.
abbrev place : Buffer
place = buffer_at (3 ∷ []) (replicate 9 0xaa)

get_be_int-put_be_int_example :
    ReadsBack place (put_be_uint8 place 0x80000001) get_be_uint8 1
    × ReadsBack place (put_be_uint16 place 0x80000001) get_be_uint16 1
    × ReadsBack place (put_be_uint24 place 0x80000001) get_be_uint24 1
    × ReadsBack place (put_be_uint32 place 0x80000001) get_be_uint32 0x80000001
    × ReadsBack place (put_be_uint64 place 0x80000001) get_be_uint64 0xffffffff80000001
get_be_int-put_be_int_example =
    get_be_int-put_be_int 0x80000001 (3 ∷ []) (replicate 9 0xaa) (omega arith)

-- A lease fills its 44 bytes, and does not fit into 40.
lease-Emits_example :
    Emits
      (gen_lease 1 1800 2880 (replicate 16 1) 3600 3600)
      (lease_bytes 1 1800 2880 (replicate 16 1) 3600 3600)
lease-Emits_example = lease-Emits 1 1800 2880 (replicate 16 1) 3600 3600 refl

abbrev client : Client ℕ
client = record {
  link_addr = link;
  poa_link_addr = 2 ∷ 0 ∷ 0 ∷ 0 ∷ 0 ∷ 1 ∷ [];
  ra_timer = 4;
  home_addr = 9;
  prefixes = home ∷ [];
}

abbrev advertisement : Advertisement ℕ
advertisement = record {
  hop_limit = 64;
  lifetime = 0xffff;
  device_id = 3;
  link_address = client.poa_link_addr;
  dst_link_address = link;
  mtu = 1460;
  prefix_list = home ∷ [];
  source = 1;
  destination = 2;
  home_addr = 9;
}

abbrev server : Server ℕ
server = record {
  clients = (link, client) ∷ [];
  mcast_interfaces = 3 ∷ [];
  next_timer = 5;
  waits = (4, record { ras = advertisement; due = false }) ∷ [];
  joined = 3 ∷ [];
  receives = 1;
  adverts = [];
  replies = [];
}

abbrev pub empty_server : Server ℕ
empty_server = record server { clients = []; waits = [] }

-- A solicitation with the elapsed time behind.
abbrev pub solicit : Request
solicit = record {
  op = 1;
  tid = 0x123456;
  duid = 0 ∷ 3 ∷ 0 ∷ 1 ∷ link;
  id = 77;
  t1 = 0;
  t2 = 0;
  others = record { opt = 8; payload = 0 ∷ 0 ∷ [] } ∷ [];
}

pub solicit-IsRequest : IsRequest solicit link
unfolding parse_option_duid is_null
solicit-IsRequest = record {
  op = omega arith;
  tid = omega arith;
  id = omega arith;
  t1 = omega arith;
  t2 = omega arith;
  fits = omega arith;
  others = (
    (omega arith, omega arith, (λ e. absurd (omega (arith, e))), (λ e. absurd (omega (arith, e)))),
    tt,
  );
  known = refl;
  not_null = refl;
}

client-IsServed : IsServed ⦃ops = wide_addresses⦄ server client link
unfolding find list_beq
client-IsServed = record { found = refl; homed = refl; width = refl; poa = refl }

pub solicit_answer : answer_opcode solicit.op ≡ some (2, false)
unfolding answer_opcode
solicit_answer = refl

pub length-fresh : length {A = ℕ} (replicate 1024 0xaa) ≡ 1024
length-fresh = refl

handle_message-grants_example :
    (bytes : List ℕ) × (dhcp6_handle_message ⦃ops = wide_addresses⦄ 0
        (replicate 1024 0xaa)
        (message solicit)
        server
      ≡ done (some bytes))
    × (read_lease bytes
        ≡ some (lease_of ⦃ops = wide_addresses⦄ 2 0x123456 client (0 ∷ 3 ∷ 0 ∷ 1 ∷ link) 77))
handle_message-grants_example =
    handle_message-grants ⦃ops = wide_addresses⦄ server client 0 (replicate 1024 0xaa) solicit link
      2 solicit-IsRequest solicit_answer client-IsServed length-fresh

pub no_client : find link empty_server.clients ≡ none
unfolding find list_beq
no_client = refl

handle_message-unknown_example :
    dhcp6_handle_message ⦃ops = wide_addresses⦄ 0
      (replicate 1024 0xaa)
      (message solicit)
      empty_server
    ≡ done (
        some (
          ((be8 2 ++ be24 0x123456)
            ++ (option_bytes server_id ((be16 3 ++ be16 1) ++ replicate 6 0)
                ++ option_bytes client_id (0 ∷ 3 ∷ 0 ∷ 1 ∷ link)))
          ++ option_bytes status_code (be16 status_no_binding ++ not_available)))
handle_message-unknown_example =
    handle_message-unknown ⦃ops = wide_addresses⦄ empty_server 0 (replicate 1024 0xaa) solicit link
      2 false solicit-IsRequest solicit_answer no_client length-fresh

-- The same message is answered when it is run.
handle_message_run :
    dhcp6_handle_message ⦃ops = wide_addresses⦄ 0
      (replicate 1024 0xaa)
      (message solicit)
      empty_server
    ≢ done none
unfolding dhcp6_handle_message
handle_message_run = λ e. absurd (cc e)

found_client : find link server.clients ≡ some client
unfolding find list_beq
found_client = refl

found_wait : find 4 server.waits ≡ some (record { ras = advertisement; due = false })
unfolding find list_beq
found_wait = refl

del-stops_example :
    ((del link server).0 ≡ true)
    × (find link (del link server).1.clients ≡ none)
    × (fire 4 (expire 4 (del link server).1) ≡ done (del link server).1)
del-stops_example =
    del-stops server client (record { ras = advertisement; due = false }) link found_client
      found_wait refl

abbrev late_server : Server ℕ
late_server = record server { waits = (4, record { ras = advertisement; due = true }) ∷ [] }

late_wait : find 4 late_server.waits ≡ some (record { ras = advertisement; due = true })
unfolding find list_beq
late_wait = refl

late_deletion-advertises_example :
    (s' : Server ℕ) × (rounds 4 100 (del link late_server).1 ≡ done s')
    × (s'.adverts ≡ replicate 100 advertisement ++ [])
    × (find link s'.clients ≡ none)
late_deletion-advertises_example =
    late_deletion-advertises late_server client advertisement link 100 found_client late_wait

abbrev pub groups : Multicast
groups = record { joins = λ joined d. not (mem d joined); leaves = λ joined d. mem d joined }

groups-IsMulticast : IsMulticast groups
groups-IsMulticast = record { leaves_joined = λ joined d e. e; leaves_none = λ d. refl }

restart_deaf_example :
    (s' : Server ℕ) × (stop groups server ≡ done s')
    × (s'.joined ≡ [])
    × (join groups 3 (start s') ≡ done (start s'))
    × (stop groups (start s') ≡ threw)
restart_deaf_example = restart_deaf groups groups-IsMulticast 3 [] server refl refl
