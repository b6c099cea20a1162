-- ===== src/Addrconf/Leases.antt =====
-- The leases that a client of pmip/addrconf_server.cpp reads in the answers to its messages.
use odi_mm.Base.{
  ℕ, ◌+◌, ◌%◌, ◌<◌, ◌≡◌, refl, List, [], ◌++◌, append_assoc, arith, Option, none, some, length,
  drop, take, take_append, drop_append, length-append, list_eq, nat_eq, nat_beq, if◌then◌else◌,
}
use odi_mm.Dhcp.Buffer.{be8, be16, be24, be32, get_be_uint32}
use odi_mm.Dhcp.Generators.{client_id, server_id, ia_na, ia_addr}
use odi_mm.Dhcp.Parsers.{
  ◌>>=◌, parse_header, Choice, parse_option, parse_option_duid, parse_option_ia,
}
use odi_mm.Dhcp.Options.{option_bytes}
use odi_mm.Dhcp.Lease.{ia_bytes, addr_bytes, lease_bytes}
use odi_mm.Dhcp.RoundTrip.{
  parse_header-gen, parse_option-option_bytes, parse_option-alone, get_be_uint32-be32,
  parse_option_duid-link, parse_option_ia-ia_bytes,
}

-- What a client reads in an answer that carries an address.
pub record Lease : Type 0 where
  pub op : ℕ
  pub tid : ℕ
  pub server : List ℕ
  pub client : List ℕ
  pub id : ℕ
  pub t1 : ℕ
  pub t2 : ℕ
  pub address : List ℕ
  pub pref_lifetime : ℕ
  pub val_lifetime : ℕ

abbrev is_option : ℕ → Choice → Option Choice
is_option opt c = if nat_beq c.opt opt then some c else none

unfoldable pub read_lease : List ℕ → Option Lease
unfolding ◌>>=◌
read_lease bytes = do
  (header, b) ← parse_header bytes
  (sid, b) ← parse_option b
  sid ← is_option server_id sid
  server ← parse_option_duid sid.payload
  (cid, b) ← parse_option b
  cid ← is_option client_id cid
  (ia, b) ← parse_option b
  ia ← is_option ia_na ia
  (times, inner) ← parse_option_ia ia.payload
  (addr, b) ← parse_option inner
  addr ← is_option ia_addr addr
  (pref, b) ← get_be_uint32 (drop 16 addr.payload)
  (valid, b) ← get_be_uint32 b
  let lease : Lease = record {
    op = header.op;
    tid = header.tid;
    server = server;
    client = cid.payload;
    id = times.id;
    t1 = times.t1;
    t2 = times.t2;
    address = take 16 addr.payload;
    pref_lifetime = pref;
    val_lifetime = valid;
  } in
      some lease

module _ (op tid : ℕ) (server client : List ℕ) (id t1 t2 : ℕ) (address : List ℕ)
    (pref valid : ℕ) where
  abbrev pub lease_answer : List ℕ
  lease_answer =
      ((be8 op ++ be24 tid)
        ++ (option_bytes server_id ((be16 3 ++ be16 1) ++ server) ++ option_bytes client_id client))
      ++ lease_bytes id t1 t2 address pref valid

  abbrev lease_in : List ℕ
  lease_in = option_bytes ia_addr (addr_bytes address pref valid)

  pub length-lease_answer :
      length server ≡ 6 → length address ≡ 16 → length lease_answer ≡ 66 + length client
  length-lease_answer hs ha =
      let sid = (be16 3 ++ be16 1) ++ server in
      omega (
        arith,
        hs,
        ha,
        length-append
            ((be8 op ++ be24 tid) ++ (option_bytes server_id sid ++ option_bytes client_id client))
            (lease_bytes id t1 t2 address pref valid),
        length-append (be8 op ++ be24 tid)
            (option_bytes server_id sid ++ option_bytes client_id client),
        length-append (option_bytes server_id sid) (option_bytes client_id client),
        length-append (address ++ be32 pref) (be32 valid),
        length-append address (be32 pref),
      )

  pub read_lease-answer :
      op < 256
      → length server ≡ 6
      → length client < 65536
      → id < 4294967296
      → t1 < 4294967296
      → t2 < 4294967296
      → length address ≡ 16
      → pref < 4294967296
      → valid < 4294967296
      → read_lease lease_answer
        ≡ some (record {
          op = op;
          tid = tid % 16777216;
          server = server;
          client = client;
          id = id;
          t1 = t1;
          t2 = t2;
          address = address;
          pref_lifetime = pref;
          val_lifetime = valid;
        })
  unfolding read_lease ◌>>=◌
  read_lease-answer ho hs hc hi h1 h2 ha hp hv =
      let sid = (be16 3 ++ be16 1) ++ server in
      let times = ia_bytes id t1 t2 in
      let last = lease_bytes id t1 t2 address pref valid in
      let size : length lease_in ≡ 28 = omega (
        arith,
        ha,
        length-append (address ++ be32 pref) (be32 valid),
        length-append address (be32 pref),
      ) in
      let w : length (times ++ lease_in) < 65536 = omega (arith, size) in
      let wa : length (addr_bytes address pref valid) < 65536 = omega (arith, size) in
      let ws : length sid < 65536 = omega (arith, hs) in
      let wide : 16 ≡ length address = rw ha refl in
      rw
        (
          append_assoc (be8 op ++ be24 tid)
              (option_bytes server_id sid ++ option_bytes client_id client) last,
          append_assoc (option_bytes server_id sid) (option_bytes client_id client) last,
          read_lease,
          parse_header-gen op tid
              (option_bytes server_id sid ++ (option_bytes client_id client ++ last)) ho,
          ◌>>=◌,
          parse_option-option_bytes server_id sid (option_bytes client_id client ++ last)
              (omega arith) ws,
          ◌>>=◌,
          parse_option_duid-link server hs,
          ◌>>=◌,
          parse_option-option_bytes client_id client last (omega arith) hc,
          ◌>>=◌,
          parse_option-alone ia_na (times ++ lease_in) (omega arith) w,
          ◌>>=◌,
          parse_option_ia-ia_bytes id t1 t2 lease_in hi h1 h2,
          ◌>>=◌,
          parse_option-alone ia_addr (addr_bytes address pref valid) (omega arith) wa,
          ◌>>=◌,
          append_assoc address (be32 pref) (be32 valid),
          drop_append 16 address (be32 pref ++ be32 valid) wide,
          take_append 16 address (be32 pref ++ be32 valid) wide,
          get_be_uint32-be32 pref (be32 valid) hp,
          ◌>>=◌,
          get_be_uint32-be32 valid [] hv,
          ◌>>=◌,
        )
        refl
