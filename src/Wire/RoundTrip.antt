-- ===== src/Wire/RoundTrip.antt =====
-- mp_sender.cpp and mp_receiver.cpp together: what the receiver reads of what the sender sends.
use odi_mm.Base.{
  ℕ, suc, ◌+◌, ◌*◌, ◌/◌, ◌%◌, ◌-◌, ◌≤◌, ◌≡◌, refl, ap, ◌∙◌, true, false, List, [], ◌∷◌, ◌++◌, arith,
  length, replicate, append_assoc, length-append, drop_append, sym,
}
use odi_mm.Types.{ProxyBindingInfo, AddressOps, proxy_binding_info}
use odi_mm.Wire.Message.{
  ok, align_to, message_size, init, header_cast, message_cast, header_length, byte_at, ntohs, htons,
  mh_pbu, mh_pba,
}
use odi_mm.Wire.Flags.{get_flag, set_flag}
use odi_mm.Wire.Sender.{append_options, sent, checked, pbu_sender, pba_sender}
use odi_mm.Wire.Receiver.{parse_from, pbu_parse, pba_parse}
use odi_mm.Wire.Encoded.{
  carried, IsSendable, length-append_options, parse-append_options, sent-padded, length-sent,
  checked-sent, length-options, header_cast-whole, message_cast-whole, ntohs-htons,
}

module _ {A : Type 0} ⦃ops : AddressOps A⦄ (p : ProxyBindingInfo A) (v : IsSendable p) where
  -- The message that the option loop makes of one that starts as `info`.
  abbrev filled : ProxyBindingInfo A → ProxyBindingInfo A
  filled info = record info {
    id = p.id;
    prefix_list = info.prefix_list ++ carried p.prefix_list;
    handoff = p.handoff;
    link_type = p.link_type;
  }

  parse_from-sent :
      (info : ProxyBindingInfo A) (fixed stale : List ℕ)
      → length fixed ≡ 12
      → parse_from info (align_to (12 + length (append_options p))) (
          (fixed ++ append_options p)
          ++ (replicate
                (align_to (12 + length (append_options p)) - (12 + length (append_options p)))
                0
              ++ stale))
        ≡ ok (filled info)
  unfolding parse_from
  parse_from-sent info fixed stale e =
      let o = append_options p in
      let n = length (carried p.prefix_list) in
      let k = align_to (12 + length o) - (12 + length o) in
      let f = length o + k - n - 3 in
      let lo = length-append_options p v.prefixes in
      let size : align_to (12 + length o) - message_size
          ≡ length p.id + 3 + (20 * n + (4 + (4 + k))) =
        omega (arith, lo) in
      let fuel : suc (align_to (12 + length o) - message_size) ≡ suc (n + suc (suc (suc f))) =
        omega (arith, lo) in
      rw
        (
          append_assoc fixed o (replicate k 0 ++ stale),
          drop_append 12 fixed (o ++ (replicate k 0 ++ stale)) (sym e),
          fuel,
          size,
        )
        (rw (
          parse-append_options p f k stale
            (record { info = info; nai = false; hof = false; att = false }) v refl refl refl
            (omega (arith, lo))))

  -- The sent bytes in the receiver's buffer: the fixed part, the options, the padding, the rest.
  padded : List ℕ → List ℕ → List ℕ
  padded fixed stale =
      (fixed ++ append_options p)
      ++ (replicate (align_to (12 + length (append_options p)) - (12 + length (append_options p))) 0
          ++ stale)

  sent-fixed :
      (fixed stale : List ℕ)
      → length fixed ≡ 12
      → (sent (fixed ++ append_options p) ++ stale ≡ padded fixed stale)
        × (length (sent (fixed ++ append_options p)) ≡ align_to (12 + length (append_options p)))
  unfolding padded
  sent-fixed fixed stale e =
      let l : length (fixed ++ append_options p) ≡ 12 + length (append_options p) =
        omega (arith, length-append fixed (append_options p)) in
      let h : length (fixed ++ append_options p) ≤ 1456 = omega (arith, length-options p v) in
      (
        rw (
          sent-padded (fixed ++ append_options p) h,
          append_assoc (fixed ++ append_options p)
              (replicate
                (align_to (length (fixed ++ append_options p)) - length (fixed ++ append_options p))
                0)
              stale,
          l,
        ),
        length-sent (fixed ++ append_options p) h ∙ ap align_to l,
      )

  pbu_fixed : List ℕ
  unfolding init set_flag
  pbu_fixed =
      init mh_pbu (align_to (12 + length (append_options p)))
        (htons p.sequence (0x82 ∷ 0 ∷ htons (p.lifetime / 4) []))

  pba_fixed : List ℕ
  unfolding init set_flag
  pba_fixed =
      init mh_pba (align_to (12 + length (append_options p)))
        ((p.status % 256) ∷ 0x20 ∷ htons p.sequence (htons (p.lifetime / 4) []))

  pbu_parse_whole :
      (endpoint : A) (len : ℕ) (buff : List ℕ)
      → header_cast buff len ≡ true
      → message_cast mh_pbu buff ≡ true
      → get_flag 0x02 (byte_at buff 8) ≡ true
      → pbu_parse endpoint len buff
        ≡ parse_from
            (record (proxy_binding_info {A = A}) {
              address = endpoint;
              sequence = ntohs (byte_at buff 6) (byte_at buff 7);
              lifetime = 4 * ntohs (byte_at buff 10) (byte_at buff 11);
            })
            len
            buff
  unfolding pbu_parse
  pbu_parse_whole endpoint len buff h m f = rw (h, m, f)

  pba_parse_whole :
      (endpoint : A) (len : ℕ) (buff : List ℕ)
      → header_cast buff len ≡ true
      → message_cast mh_pba buff ≡ true
      → get_flag 0x20 (byte_at buff 7) ≡ true
      → pba_parse endpoint len buff
        ≡ parse_from
            (record (proxy_binding_info {A = A}) {
              address = endpoint;
              sequence = ntohs (byte_at buff 8) (byte_at buff 9);
              lifetime = 4 * ntohs (byte_at buff 10) (byte_at buff 11);
              status = byte_at buff 6;
            })
            len
            buff
  unfolding pba_parse
  pba_parse_whole endpoint len buff h m f = rw (h, m, f)

  pbu-received :
      (endpoint : A) (stale : List ℕ)
      → pbu_parse endpoint (align_to (12 + length (append_options p))) (padded pbu_fixed stale)
        ≡ ok (record (proxy_binding_info {A = A}) {
          id = p.id;
          address = endpoint;
          lifetime = 4 * (p.lifetime / 4);
          sequence = p.sequence;
          handoff = p.handoff;
          prefix_list = carried p.prefix_list;
          link_type = p.link_type;
        })
  unfolding pbu_fixed padded get_flag proxy_binding_info
  pbu-received endpoint stale =
      let total = align_to (12 + length (append_options p)) in
      let buff = padded pbu_fixed stale in
      let whole : header_length buff ≡ total = omega (arith, length-options p v) in
      pbu_parse_whole endpoint total buff (header_cast-whole buff total whole (omega arith))
        (message_cast-whole mh_pbu total buff refl whole (omega arith)) refl
      ∙ parse_from-sent _ pbu_fixed stale refl
      ∙ rw (ntohs-htons p.sequence v.sequence, ntohs-htons (p.lifetime / 4) v.lifetime)

  pba-received :
      (endpoint : A) (stale : List ℕ)
      → pba_parse endpoint (align_to (12 + length (append_options p))) (padded pba_fixed stale)
        ≡ ok (record p {
          address = endpoint;
          lifetime = 4 * (p.lifetime / 4);
          prefix_list = carried p.prefix_list;
        })
  unfolding pba_fixed padded get_flag proxy_binding_info
  pba-received endpoint stale =
      let total = align_to (12 + length (append_options p)) in
      let buff = padded pba_fixed stale in
      let whole : header_length buff ≡ total = omega (arith, length-options p v) in
      let status : p.status % 256 ≡ p.status = omega (arith, v.status) in
      pba_parse_whole endpoint total buff (header_cast-whole buff total whole (omega arith))
        (message_cast-whole mh_pba total buff refl whole (omega arith)) refl
      ∙ parse_from-sent _ pba_fixed stale refl
      ∙ rw (ntohs-htons p.sequence v.sequence, ntohs-htons (p.lifetime / 4) v.lifetime, status)

  checked-fixed :
      (fixed : List ℕ)
      → length fixed ≡ 12
      → checked p.id (fixed ++ append_options p) ≡ ok (sent (fixed ++ append_options p))
  checked-fixed fixed e =
      checked-sent p v (fixed ++ append_options p)
        (omega (arith, length-append fixed (append_options p), length-options p v))

  -- A proxy binding update arrives as it was sent: whatever bytes `stale` stand behind it in the
  -- receiver's buffer, `pbu_parse` of what `pbu_sender` sends gives the sender's identifier,
  -- sequence number, handoff indicator, link technology and prefixes (`::/0` for none), its
  -- lifetime rounded down to a multiple of 4, and the address that it came from.
  pub pbu_parse-pbu_sender :
      (endpoint : A) (stale : List ℕ)
      → (bytes : List ℕ) × (pbu_sender p ≡ ok bytes)
        × (pbu_parse endpoint (length bytes) (bytes ++ stale)
            ≡ ok (record (proxy_binding_info {A = A}) {
              id = p.id;
              address = endpoint;
              lifetime = 4 * (p.lifetime / 4);
              sequence = p.sequence;
              handoff = p.handoff;
              prefix_list = carried p.prefix_list;
              link_type = p.link_type;
            }))
  unfolding pbu_sender pbu_fixed
  pbu_parse-pbu_sender endpoint stale = (
    sent (pbu_fixed ++ append_options p),
    checked-fixed pbu_fixed refl,
    rw ((sent-fixed pbu_fixed stale refl).0, (sent-fixed pbu_fixed stale refl).1)
        (pbu-received endpoint stale),
  )

  -- For an acknowledgement that fits the buffer, and whatever the receiver's buffer held behind it,
  -- `pba_parse` of what `pba_sender` sends gives the sender's identifier, sequence number, status,
  -- handoff indicator, link technology and prefixes (`::/0` for none), its lifetime rounded down to
  -- a multiple of 4, and the address that it came from.
  pub pba_parse-pba_sender :
      (endpoint : A) (stale : List ℕ)
      → (bytes : List ℕ) × (pba_sender p ≡ ok bytes)
        × (pba_parse endpoint (length bytes) (bytes ++ stale)
            ≡ ok (record p {
              address = endpoint;
              lifetime = 4 * (p.lifetime / 4);
              prefix_list = carried p.prefix_list;
            }))
  unfolding pba_sender pba_fixed
  pba_parse-pba_sender endpoint stale = (
    sent (pba_fixed ++ append_options p),
    checked-fixed pba_fixed refl,
    rw ((sent-fixed pba_fixed stale refl).0, (sent-fixed pba_fixed stale refl).1)
        (pba-received endpoint stale),
  )
