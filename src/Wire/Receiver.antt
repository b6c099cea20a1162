-- ===== src/Wire/Receiver.antt =====
-- pmip/mp_receiver.cpp. The buffer is the whole array; only its first `rbytes` bytes are of this
-- message, and what follows was left by earlier ones. An option's contents are read without a
-- look at the option's length, so such a read may leave the message, and the array.
use odi_mm.Base.{
  ℕ, zero, suc, ◌+◌, ◌-◌, ◌*◌, Bool, true, false, not, ◌||◌, List, [], ◌∷◌, ◌++◌, Option, none,
  some, length, take, drop, ltb, nat_beq, if◌then◌else◌,
}
use odi_mm.Types.{prefix_v6, ProxyBindingInfo, AddressOps, proxy_binding_info}
use odi_mm.Wire.Flags.{get_flag, pbu_proxy_reg, pba_proxy_reg}
use odi_mm.Wire.Message.{
  Outcome, ok, refused, fault, exhausted, out_of_bounds, length_error, ◌>>=◌, message_size, mh_pbu,
  mh_pba, ntohs, byte_at, header_cast, message_cast,
}

-- An option where the parser stands: its type, its length field, and all bytes behind them.
pub record TypedOption : Type 0 where
  pub type : ℕ
  pub len : ℕ
  pub body : List ℕ

-- `option::cast` on the bytes from `pos` on, of which `length` are of the message.
unfoldable pub option_cast : List ℕ → ℕ → Option TypedOption
option_cast [] length = none
option_cast (t ∷ []) length = none
option_cast (t ∷ l ∷ body) length =
    if ltb length 2 || ltb length (l + 2)
    then none
    else some (record { type = t; len = l; body = body })

-- `option::size`
unfoldable pub option_size : TypedOption → ℕ
option_size opt = if nat_beq opt.type 0 then 1 else opt.len + 2

-- The locals of `parse_options`: the message, and which of `nai`, `hof`, `att` are not null.
pub record Scan (A : Type 0) : Type 0 where
  pub info : ProxyBindingInfo A
  pub nai : Bool
  pub hof : Bool
  pub att : Bool

-- The payloads that the `get<T>` pointers are read as.
read_nai : {A : Type 0} → Scan A → ℕ → List ℕ → Outcome (Scan A)
read_nai s len [] = fault out_of_bounds
read_nai s len (subtype ∷ id) =
    if not (nat_beq subtype 1)
    then refused
    else if nat_beq len 0
    then fault length_error
    else ok (record s { info = record s.info { id = take (len - 1) id }; nai = true })

read_netprefix : {A : Type 0} → Scan A → List ℕ → Outcome (Scan A)
unfolding prefix_v6
read_netprefix s [] = fault out_of_bounds
read_netprefix s (reserved ∷ []) = fault out_of_bounds
read_netprefix s (reserved ∷ len ∷ body) =
    if ltb (length body) 16
    then fault out_of_bounds
    else ok (record s {
      info = record s.info {
        prefix_list = s.info.prefix_list ++ prefix_v6 (take 16 body) len ∷ [];
      };
    })

read_handoff : {A : Type 0} → Scan A → List ℕ → Outcome (Scan A)
read_handoff s [] = fault out_of_bounds
read_handoff s (reserved ∷ []) = fault out_of_bounds
read_handoff s (reserved ∷ indicator ∷ _) =
    ok (record s { info = record s.info { handoff = indicator }; hof = true })

read_att : {A : Type 0} → Scan A → List ℕ → Outcome (Scan A)
read_att s [] = fault out_of_bounds
read_att s (reserved ∷ []) = fault out_of_bounds
read_att s (reserved ∷ tech_type ∷ _) =
    ok (record s { info = record s.info { link_type = tech_type }; att = true })

-- The `switch`.
unfoldable pub read_option : {A : Type 0} → Scan A → TypedOption → Outcome (Scan A)
unfolding read_nai read_netprefix read_handoff read_att
read_option s opt =
    if nat_beq opt.type 8
    then (if s.nai then refused else read_nai s opt.len opt.body)
    else if nat_beq opt.type 22
    then read_netprefix s opt.body
    else if nat_beq opt.type 23
    then (if s.hof then refused else read_handoff s opt.body)
    else if nat_beq opt.type 24
    then (if s.att then refused else read_att s opt.body)
    else ok s

-- The loop, on fuel. `remaining` is `length - pos`.
unfoldable pub parse_options : {A : Type 0} → ℕ → List ℕ → ℕ → Scan A → Outcome (Scan A)
unfolding option_cast option_size read_option
parse_options zero bytes remaining s = exhausted
parse_options (suc fuel) bytes remaining s = elim (option_cast bytes remaining) [
  | none ↦ ok s
  | some opt ↦ read_option s opt >>= λ s'.
      parse_options fuel (drop (option_size opt) bytes) (remaining - option_size opt) s'
]

module _ {A : Type 0} ⦃ops : AddressOps A⦄ where
  unfoldable pub parse_from : ProxyBindingInfo A → ℕ → List ℕ → Outcome (ProxyBindingInfo A)
  unfolding parse_options
  parse_from info rbytes buffer =
      let remaining = rbytes - message_size in
      parse_options (suc remaining) (drop message_size buffer) remaining
        (record { info = info; nai = false; hof = false; att = false })
      >>= λ s. ok s.info

  -- `endpoint` is the address that the message came from.
  unfoldable pub pbu_parse : A → ℕ → List ℕ → Outcome (ProxyBindingInfo A)
  unfolding parse_from header_cast message_cast get_flag proxy_binding_info
  pbu_parse endpoint rbytes buffer =
      if not (header_cast buffer rbytes)
      then refused
      else if not (message_cast mh_pbu buffer)
      then refused
      else if not (get_flag pbu_proxy_reg (byte_at buffer 8))
      then refused
      else parse_from
          (record (proxy_binding_info {A = A}) {
            address = endpoint;
            sequence = ntohs (byte_at buffer 6) (byte_at buffer 7);
            lifetime = 4 * ntohs (byte_at buffer 10) (byte_at buffer 11);
          })
          rbytes buffer

  unfoldable pub pba_parse : A → ℕ → List ℕ → Outcome (ProxyBindingInfo A)
  unfolding parse_from header_cast message_cast get_flag proxy_binding_info
  pba_parse endpoint rbytes buffer =
      if not (header_cast buffer rbytes)
      then refused
      else if not (message_cast mh_pba buffer)
      then refused
      else if not (get_flag pba_proxy_reg (byte_at buffer 7))
      then refused
      else parse_from
          (record (proxy_binding_info {A = A}) {
            address = endpoint;
            sequence = ntohs (byte_at buffer 8) (byte_at buffer 9);
            lifetime = 4 * ntohs (byte_at buffer 10) (byte_at buffer 11);
            status = byte_at buffer 6;
          })
          rbytes buffer
