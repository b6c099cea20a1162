-- ===== src/Addrconf/Service.antt =====
-- What pmip/addrconf_server.cpp does with a DHCPv6 message of a client, and of a stranger.
use odi_mm.Base.{
  ℕ, ◌%◌, ◌≤◌, ◌<◌, ◌≡◌, refl, ap, replicate, ◌∙◌, Bool, false, List, [], ◌++◌, arith, All, none,
  some, length, length-append, find, list_eq, nat_eq,
}
use odi_mm.Run.{done}
use odi_mm.Types.{AddressOps}
use odi_mm.LinkAddress.{no_address, is_null}
use odi_mm.Dhcp.Buffer.{be8, be16, be24}
use odi_mm.Dhcp.Generators.{client_id, server_id, status_code, status_no_binding}
use odi_mm.Dhcp.Parsers.{Header, parse_header, Choice, parse_option_duid}
use odi_mm.Dhcp.Emits.{then-Emits}
use odi_mm.Dhcp.Options.{option_bytes}
use odi_mm.Dhcp.Replies.{message-Emits}
use odi_mm.Dhcp.RoundTrip.{parse_header-gen}
use odi_mm.Addrconf.State.{Client, Server}
use odi_mm.Addrconf.Requests.{
  Locals, parsed, read_options, not_available, answer_opcode, dhcp6_reply_message, lookup,
  dhcp6_handle_message,
}
use odi_mm.Addrconf.Answers.{
  IsOther, encode, request_options, read_options-request, read_options-bare, reply-emitted,
  body-lease, body-status,
}
use odi_mm.Addrconf.Leases.{Lease, read_lease, lease_answer, length-lease_answer, read_lease-answer}

-- A message that asks for an address, with options that the server does not look at behind.
pub record Request : Type 0 where
  pub op : ℕ
  pub tid : ℕ
  pub duid : List ℕ
  pub id : ℕ
  pub t1 : ℕ
  pub t2 : ℕ
  pub others : List Choice

abbrev pub message : Request → List ℕ
message r = (be8 r.op ++ be24 r.tid) ++ request_options r.duid r.id r.t1 r.t2 r.others

-- What the widths of the fields bound, and that the identifier is of the link address `addr`.
pub record IsRequest (r : Request) (addr : List ℕ) : Type 0 where
  pub op : r.op < 256
  pub tid : r.tid < 16777216
  pub id : r.id < 4294967296
  pub t1 : r.t1 < 4294967296
  pub t2 : r.t2 < 4294967296
  pub fits : length r.duid ≤ 958
  pub others : All IsOther r.others
  pub known : parse_option_duid r.duid ≡ some addr
  pub not_null : is_null addr ≡ false

abbrev pub bare_message : Request → List ℕ
bare_message r = (be8 r.op ++ be24 r.tid) ++ (option_bytes client_id r.duid ++ encode r.others)

answer_opcode-byte :
    (op answer : ℕ) (hdonly : Bool) → answer_opcode op ≡ some (answer, hdonly) → answer < 256
unfolding answer_opcode
answer_opcode-byte op answer hdonly e = ground arith

module _ {A : Type 0} ⦃ops : AddressOps A⦄ where
  -- The server knows the client of a link address, with the widths of its addresses.
  pub record IsServed (s : Server A) (c : Client A) (addr : List ℕ) : Type 0 where
    pub found : find addr s.clients ≡ some c
    pub homed : ops.is_unspecified c.home_addr ≡ false
    pub width : length (ops.to_bytes c.home_addr) ≡ 16
    pub poa : length c.poa_link_addr ≡ 6

  abbrev pub lease_of : ℕ → ℕ → Client A → List ℕ → ℕ → Lease
  lease_of op tid c client id = record {
    op = op;
    tid = tid;
    server = c.poa_link_addr;
    client = client;
    id = id;
    t1 = 1800;
    t2 = 2880;
    address = ops.to_bytes c.home_addr;
    pref_lifetime = 3600;
    val_lifetime = 3600;
  }

  lookup-client :
      (addr : List ℕ) (s : Server A) (c : Client A)
      → find addr s.clients ≡ some c
      → lookup addr s ≡ (c.home_addr, c.poa_link_addr)
  unfolding lookup
  lookup-client addr s c e = rw (lookup, e) refl

  lookup-stranger :
      (addr : List ℕ) (s : Server A)
      → find addr s.clients ≡ none
      → lookup addr s ≡ (ops.any, no_address)
  unfolding lookup
  lookup-stranger addr s e = rw (lookup, e) refl

  handle-parsed :
      (s : Server A) (junk : ℕ) (fresh buff rest : List ℕ) (h : Header) (l : Locals) (answer : ℕ)
      (hdonly : Bool)
      → parse_header buff ≡ some (h, rest)
      → read_options (length rest) rest (record { cid = []; clink_addr = no_address; ia_id = junk })
        ≡ parsed l
      → is_null l.clink_addr ≡ false
      → answer_opcode h.op ≡ some (answer, hdonly)
      → dhcp6_handle_message junk fresh buff s
        ≡ dhcp6_reply_message fresh answer h.tid
            (lookup l.clink_addr s).1
            l.cid
            l.ia_id
            (lookup l.clink_addr s).0
            hdonly
  unfolding dhcp6_handle_message
  handle-parsed s junk fresh buff rest h l answer hdonly eh el en ea =
      rw (dhcp6_handle_message, eh, el, en, ea) refl

  -- The answer for a client that the server knows, whatever its message was.
  handle-lease :
      (s : Server A) (c : Client A) (junk : ℕ) (fresh buff rest : List ℕ) (h : Header) (l : Locals)
      (answer : ℕ)
      → parse_header buff ≡ some (h, rest)
      → read_options (length rest) rest (record { cid = []; clink_addr = no_address; ia_id = junk })
        ≡ parsed l
      → is_null l.clink_addr ≡ false
      → answer_opcode h.op ≡ some (answer, false)
      → h.tid < 16777216
      → l.ia_id < 4294967296
      → length l.cid ≤ 958
      → IsServed s c l.clink_addr
      → length fresh ≡ 1024
      → (bytes : List ℕ) × (dhcp6_handle_message junk fresh buff s ≡ done (some bytes))
        × (read_lease bytes ≡ some (lease_of answer h.tid c l.cid l.ia_id))
  handle-lease s c junk fresh buff rest h l answer eh el en ea ht hi hc v size =
      let home = ops.to_bytes c.home_addr in
      let bytes =
        lease_answer answer h.tid c.poa_link_addr l.cid l.ia_id 1800 2880 home 3600 3600 in
      let whole : h.tid % 16777216 ≡ h.tid = omega (arith, ht) in
      let short : length l.cid < 65536 = omega (arith, hc) in
      let narrow : length c.poa_link_addr < 65532 = omega (arith, v.poa) in
      let written =
        then-Emits _ _ _ _ (message-Emits answer h.tid c.poa_link_addr l.cid narrow short)
          (body-lease l.ia_id c.home_addr v.homed v.width) in
      let room : length bytes ≤ length fresh = omega (
        arith,
        hc,
        size,
        length-lease_answer answer h.tid c.poa_link_addr l.cid l.ia_id 1800 2880 home 3600 3600
            v.poa v.width,
      ) in
      (
        bytes,
        handle-parsed s junk fresh buff rest h l answer false eh el en ea
            ∙ rw (lookup-client l.clink_addr s c v.found) (
                reply-emitted fresh answer h.tid c.poa_link_addr l.cid l.ia_id c.home_addr false
                  bytes written room),
        read_lease-answer answer h.tid c.poa_link_addr l.cid l.ia_id 1800 2880 home 3600 3600
              (answer_opcode-byte h.op answer false ea) v.poa short hi (omega arith) (omega arith)
              v.width (omega arith) (omega arith)
            ∙ rw whole refl,
      )

  -- The answer to a solicitation, or to a request, a renewal or a confirmation, of a client that the
  -- server knows is read by the client as a lease of its home address: it carries the identifiers
  -- of the transaction, of the client and of the association, and the link address of the point of
  -- attachment. The identifier of the client is at most 958 bytes long, and other options may
  -- follow behind.
  pub handle_message-grants :
      (s : Server A) (c : Client A) (junk : ℕ) (fresh : List ℕ) (r : Request) (addr : List ℕ)
      (answer : ℕ)
      → IsRequest r addr
      → answer_opcode r.op ≡ some (answer, false)
      → IsServed s c addr
      → length fresh ≡ 1024
      → (bytes : List ℕ) × (dhcp6_handle_message junk fresh (message r) s ≡ done (some bytes))
        × (read_lease bytes ≡ some (lease_of answer r.tid c r.duid r.id))
  handle_message-grants s c junk fresh r addr answer v e served size =
      let options = request_options r.duid r.id r.t1 r.t2 r.others in
      let short : length r.duid < 65536 = omega (arith, v.fits) in
      let whole : r.tid % 16777216 ≡ r.tid = omega (arith, v.tid) in
      handle-lease s c junk fresh (message r) options (record { op = r.op; tid = r.tid })
        (record { cid = r.duid; clink_addr = addr; ia_id = r.id }) answer
        (parse_header-gen r.op r.tid options v.op
          ∙ ap (λ t. some (record { op = r.op; tid = t }, options)) whole)
        (read_options-request r.duid addr v.known r.id r.t1 r.t2 v.id v.t1 v.t2 r.others _ short
          v.others)
        v.not_null e v.tid v.id v.fits served size

  -- A solicitation, or a request, a renewal or a confirmation, without an identity association is
  -- answered with one: its identifier is what the place of the variable on the stack held.
  pub handle_message-junk :
      (s : Server A) (c : Client A) (junk : ℕ) (fresh : List ℕ) (r : Request) (addr : List ℕ)
      (answer : ℕ)
      → IsRequest r addr
      → answer_opcode r.op ≡ some (answer, false)
      → IsServed s c addr
      → junk < 4294967296
      → length fresh ≡ 1024
      → (bytes : List ℕ) × (dhcp6_handle_message junk fresh (bare_message r) s ≡ done (some bytes))
        × (read_lease bytes ≡ some (lease_of answer r.tid c r.duid junk))
  handle_message-junk s c junk fresh r addr answer v e served small size =
      let options = option_bytes client_id r.duid ++ encode r.others in
      let short : length r.duid < 65536 = omega (arith, v.fits) in
      let whole : r.tid % 16777216 ≡ r.tid = omega (arith, v.tid) in
      handle-lease s c junk fresh (bare_message r) options (record { op = r.op; tid = r.tid })
        (record { cid = r.duid; clink_addr = addr; ia_id = junk }) answer
        (parse_header-gen r.op r.tid options v.op
          ∙ ap (λ t. some (record { op = r.op; tid = t }, options)) whole)
        (read_options-bare r.duid addr v.known r.others _ short v.others) v.not_null e v.tid small
        v.fits served size

  -- A well-formed message of one of the kinds that the server answers, from a client that it does
  -- not know, with an identifier short enough for the answer to fit (at most 958 bytes), is answered
  -- with the status code for no binding, under an identifier of the server that is made of a link
  -- address of zeros.
  pub handle_message-unknown :
      (s : Server A) (junk : ℕ) (fresh : List ℕ) (r : Request) (addr : List ℕ) (answer : ℕ)
      (hdonly : Bool)
      → IsRequest r addr
      → answer_opcode r.op ≡ some (answer, hdonly)
      → find addr s.clients ≡ none
      → length fresh ≡ 1024
      → dhcp6_handle_message junk fresh (message r) s
        ≡ done (
            some (
              ((be8 answer ++ be24 r.tid)
                ++ (option_bytes server_id ((be16 3 ++ be16 1) ++ replicate 6 0)
                    ++ option_bytes client_id r.duid))
              ++ option_bytes status_code (be16 status_no_binding ++ not_available)))
  handle_message-unknown s junk fresh r addr answer hdonly v e stranger size =
      let options = request_options r.duid r.id r.t1 r.t2 r.others in
      let short : length r.duid < 65536 = omega (arith, v.fits) in
      let whole : r.tid % 16777216 ≡ r.tid = omega (arith, v.tid) in
      let narrow : length {A = ℕ} (replicate 6 0) < 65532 = omega arith in
      let written =
        then-Emits _ _ _ _ (message-Emits answer r.tid (replicate 6 0) r.duid narrow short)
          (body-status r.id ops.any hdonly ops.is_unspecified-any) in
      handle-parsed s junk fresh (message r) options (record { op = r.op; tid = r.tid })
        (record { cid = r.duid; clink_addr = addr; ia_id = r.id }) answer hdonly
        (parse_header-gen r.op r.tid options v.op
          ∙ ap (λ t. some (record { op = r.op; tid = t }, options)) whole)
        (read_options-request r.duid addr v.known r.id r.t1 r.t2 v.id v.t1 v.t2 r.others _ short
          v.others)
        v.not_null e
      ∙ rw (lookup-stranger addr s stranger) (
          reply-emitted fresh answer r.tid (replicate 6 0) r.duid r.id ops.any hdonly _ written (
            omega (
              arith,
              size,
              v.fits,
              length-append r.duid
                  (option_bytes status_code (be16 status_no_binding ++ not_available)),
            )))
