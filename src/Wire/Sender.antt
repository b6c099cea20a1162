-- ===== src/Wire/Sender.antt =====
-- pmip/mp_sender.cpp. The buffer is zeroed first, so the bytes that no option writes are 0. A write
-- past the buffer is a fault, and so is a failed BOOST_ASSERT.
use odi_mm.Base.{
  ℕ, ◌+◌, ◌-◌, ◌/◌, ◌%◌, true, List, [], ◌∷◌, ◌++◌, length, take, replicate, ltb, leb,
  if◌then◌else◌,
}
use odi_mm.Types.{Prefix, ProxyBindingInfo}
use odi_mm.Wire.Flags.{set_flag, pbu_ack, pbu_proxy_reg, pba_proxy_reg}
use odi_mm.Wire.Message.{
  Outcome, ok, fault, assertion, out_of_bounds, buffer_size, message_size, mh_pbu, mh_pba, htons,
  align_to, init,
}

-- `option(OptionT, xlength)` with what is written behind it.
abbrev pub option : ℕ → ℕ → List ℕ → List ℕ
option type len payload = type ∷ (len % 256) ∷ payload

abbrev pub nai_option : List ℕ → List ℕ
nai_option id = option 8 (1 + length id) (1 ∷ id)

abbrev pub netprefix_option : ℕ → List ℕ → List ℕ
netprefix_option len prefix = option 22 18 (0 ∷ len ∷ prefix)

-- The loop over the prefix list.
unfoldable pub netprefix_options : List Prefix → List ℕ
netprefix_options [] = []
netprefix_options (p ∷ ps) = netprefix_option p.length p.bytes ++ netprefix_options ps

-- An empty list still sends one option, of zeros.
unfoldable pub netprefix_part : List Prefix → List ℕ
unfolding netprefix_options
netprefix_part [] = netprefix_option 0 (replicate 16 0)
netprefix_part (p ∷ ps) = netprefix_options (p ∷ ps)

abbrev pub handoff_option : ℕ → List ℕ
handoff_option indicator = option 23 2 (0 ∷ indicator ∷ [])

abbrev pub att_option : ℕ → List ℕ
att_option tech_type = option 24 2 (0 ∷ tech_type ∷ [])

module _ {A : Type 0} where
  unfoldable pub append_options : ProxyBindingInfo A → List ℕ
  append_options p =
      nai_option p.id
      ++ (netprefix_part p.prefix_list
          ++ (handoff_option (p.handoff % 256) ++ att_option (p.link_type % 256)))

  unfoldable pub pbu_content : ProxyBindingInfo A → List ℕ
  unfolding append_options init set_flag
  pbu_content p =
      let options = append_options p in
      init mh_pbu (align_to (message_size + length options)) (
        htons p.sequence (
          set_flag pbu_proxy_reg true (set_flag pbu_ack true 0)
          ∷ 0
          ∷ htons (p.lifetime / 4) options))

  unfoldable pub pba_content : ProxyBindingInfo A → List ℕ
  unfolding append_options init set_flag
  pba_content p =
      let options = append_options p in
      init mh_pba (align_to (message_size + length options)) (
        (p.status % 256)
        ∷ set_flag pba_proxy_reg true 0
        ∷ htons p.sequence (htons (p.lifetime / 4) options))

-- `asio::buffer(_buffer, _length)`: the first `_length` bytes of the zeroed buffer.
unfoldable pub sent : List ℕ → List ℕ
sent content =
    take (align_to (length content)) (content ++ replicate (buffer_size - length content) 0)

-- The asserts of `option` on the identifier's length, and the writes into the buffer.
unfoldable pub checked : List ℕ → List ℕ → Outcome (List ℕ)
checked id content =
    if leb 254 (length id)
    then fault assertion
    else if ltb buffer_size (length content)
    then fault out_of_bounds
    else ok (sent content)

module _ {A : Type 0} where
  unfoldable pub pbu_sender : ProxyBindingInfo A → Outcome (List ℕ)
  unfolding pbu_content checked sent
  pbu_sender p = checked p.id (pbu_content p)

  unfoldable pub pba_sender : ProxyBindingInfo A → Outcome (List ℕ)
  unfolding pba_content checked sent
  pba_sender p = checked p.id (pba_content p)
