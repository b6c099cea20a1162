-- ===== src/Addrconf/Requests.antt =====
-- How pmip/addrconf_server.cpp reads a DHCPv6 message and answers it.
use odi_mm.Base.{
  ℕ, zero, suc, ◌-◌, ◌||◌, Bool, true, false, not, List, [], ◌∷◌, Option, none, some, length, take,
  find, list_eq, nat_eq, nat_beq, if◌then◌else◌,
}
use odi_mm.Run
use odi_mm.Run.{Run, done, asserted, check, ◌>>◌}
use odi_mm.Types.{AddressOps}
use odi_mm.LinkAddress.{no_address, is_null}
use odi_mm.Dhcp.Buffer.{Buffer, Gen, wrote, full, failed, ◌>>=◌}
use odi_mm.Dhcp.Generators.{
  solicitation, advertise, request, confirm, renew, reply, info_request, client_id, ia_na,
  status_no_binding, gen_message, gen_option_status, gen_option_ia, gen_option_addr,
}
use odi_mm.Dhcp.Parsers.{parse_header, parse_option, parse_option_duid, parse_option_ia}
use odi_mm.Addrconf.State.{Server, ErrorCode, is_success, is_canceled}

abbrev pub k_lifetime : ℕ
k_lifetime = 3600

-- "client record not available"
abbrev pub not_available : List ℕ
not_available =
    b'c' ∷ b'l' ∷ b'i' ∷ b'e' ∷ b'n' ∷ b't' ∷ b' ' ∷ b'r' ∷ b'e' ∷ b'c' ∷ b'o' ∷ b'r' ∷ b'd' ∷ b' '
    ∷ b'n' ∷ b'o' ∷ b't' ∷ b' ' ∷ b'a' ∷ b'v' ∷ b'a' ∷ b'i' ∷ b'l' ∷ b'a' ∷ b'b' ∷ b'l' ∷ b'e' ∷ []

-- The locals of `dhcp6_handle_message` that the options set. `ia_id` is not initialised: it starts
-- as what its place on the stack holds.
pub record Locals : Type 0 where
  pub cid : List ℕ
  pub clink_addr : List ℕ
  pub ia_id : ℕ

pub data Parsed : Type 0 where
  parsed : Locals → Parsed
  malformed exhausted : Parsed

-- The `switch` on an option.
unfoldable pub read_option : ℕ → List ℕ → Locals → Option Locals
unfolding parse_option_duid parse_option_ia
read_option opt payload s =
    if nat_beq opt client_id
    then elim (parse_option_duid payload) [
      | none ↦ none
      | some addr ↦ some (record s { cid = payload; clink_addr = addr })
    ]
    else if nat_beq opt ia_na
    then elim (parse_option_ia payload) [
      | none ↦ none
      | some (ia, rest) ↦ some (record s { ia_id = ia.id })
    ]
    else some s

-- The loop over the options, on fuel.
unfoldable pub read_options : ℕ → List ℕ → Locals → Parsed
unfolding parse_option read_option
read_options fuel [] s = parsed s
read_options zero (b ∷ bs) s = exhausted
read_options (suc fuel) (b ∷ bs) s = elim (parse_option (b ∷ bs)) [
  | none ↦ malformed
  | some (choice, rest) ↦ elim (read_option choice.opt choice.payload s) [
    | none ↦ malformed
    | some s' ↦ read_options fuel rest s'
  ]
]

-- The opcode of the answer, and `hdonly`.
unfoldable pub answer_opcode : ℕ → Option (ℕ × Bool)
answer_opcode op =
    if nat_beq op solicitation
    then some (advertise, false)
    else if nat_beq op info_request
    then some (reply, true)
    else if nat_beq op request || (nat_beq op renew || nat_beq op confirm)
    then some (reply, false)
    else none

-- `asio::buffer(buffer.get(), buff.first - buffer.get())`
unfoldable pub written : Buffer → List ℕ
written buff = take buff.first buff.memory

module _ {A : Type 0} ⦃ops : AddressOps A⦄ where
  unfoldable pub gen_body : ℕ → A → Bool → Buffer → Gen Buffer
  unfolding ◌>>=◌ gen_option_status gen_option_ia gen_option_addr
  gen_body ia_id home_addr hdonly buff =
      if ops.is_unspecified home_addr
      then gen_option_status buff status_no_binding not_available
      else if hdonly
      then wrote buff
      else gen_option_ia buff ia_id 1800 2880 >>= λ (b, state).
          gen_option_addr b (ops.to_bytes home_addr) k_lifetime k_lifetime state

  -- `fresh` is the array as `new` gives it. The result is what is sent, if anything is.
  unfoldable pub dhcp6_reply_message :
      List ℕ → ℕ → ℕ → List ℕ → List ℕ → ℕ → A → Bool → Run (Option (List ℕ))
  unfolding gen_message gen_body written ◌>>=◌
  dhcp6_reply_message fresh op tid poa_addr cid ia_id home_addr hdonly =
      let buff : Buffer = record { memory = fresh; first = 0 } in
      elim (gen_message buff op tid poa_addr cid >>= gen_body ia_id home_addr hdonly) [
        | wrote b ↦ done (some (written b))
        | full ↦ done none
        | failed ↦ asserted
      ]

  -- The home address and the link address of the point of attachment of a client.
  unfoldable pub lookup : List ℕ → Server A → A × List ℕ
  unfolding find
  lookup addr s = elim (find addr s.clients) [
    | none ↦ (ops.any, no_address)
    | some c ↦ (c.home_addr, c.poa_link_addr)
  ]

  -- `junk` is what the place of `ia_id` holds.
  unfoldable pub dhcp6_handle_message : ℕ → List ℕ → List ℕ → Server A → Run (Option (List ℕ))
  unfolding parse_header read_options is_null lookup answer_opcode dhcp6_reply_message
  dhcp6_handle_message junk fresh buff s = elim (parse_header buff) [
    | none ↦ done none
    | some (header, rest) ↦
        let start : Locals = record { cid = []; clink_addr = no_address; ia_id = junk } in
        elim (read_options (length rest) rest start) [
          | malformed ↦ done none
          | exhausted ↦ done none
          | parsed l ↦ if is_null l.clink_addr then done none else elim (answer_opcode header.op) [
            | none ↦ done none
            | some (op, hdonly) ↦
                let (home_addr, poa_addr) = lookup l.clink_addr s in
                dhcp6_reply_message fresh op header.tid poa_addr l.cid l.ia_id home_addr hdonly
          ]
        ]
  ]

  unfoldable pub dhcp6_receive_handler : ℕ → List ℕ → ErrorCode → List ℕ → Server A → Run (Server A)
  unfolding is_success is_canceled dhcp6_handle_message Run.◌>>=◌
  dhcp6_receive_handler junk fresh ec buff s =
      if not (is_success ec)
      then check (is_canceled ec) >> done (record s { receives = s.receives - 1 })
      else Run.◌>>=◌ (dhcp6_handle_message junk fresh buff s) (λ sent. elim sent [
        | none ↦ done s
        | some bytes ↦ done (record s { replies = bytes ∷ s.replies })
      ])
