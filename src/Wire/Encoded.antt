-- ===== src/Wire/Encoded.antt =====
-- Messages with a NAI, prefixes, a handoff indicator and an access technology as mp_sender.cpp lays
-- them out, and how the option loop of mp_receiver.cpp and the two header casts read them.
use odi_mm.Base.{
  ℕ, zero, suc, ◌+◌, ◌*◌, ◌/◌, ◌%◌, ◌-◌, ◌≤◌, ◌<◌, ◌≡◌, refl, ap, ◌∙◌, true, false, List, [], ◌∷◌,
  ◌++◌, arith, length, take, replicate, All, append_assoc, length-append, length-replicate,
}
use odi_mm.Types.{Prefix, IsPrefix, ProxyBindingInfo}
use odi_mm.Wire.Message.{
  ok, align_to, message_size, buffer_size, init, header_cast, message_cast, header_length,
  header_size, byte_at, ntohs,
}
use odi_mm.Wire.Sender.{
  netprefix_options, netprefix_part, handoff_option, att_option, append_options, sent, checked,
}
use odi_mm.Wire.Receiver.{Scan, parse_options}
use odi_mm.Wire.Steps.{
  with_id, with_prefixes, with_handoff, with_link_type, parse-nai, parse-prefixes, parse-handoff,
  parse-att, parse-padding,
}

-- The prefixes that a message carries: an empty list is sent as the prefix `::/0`.
abbrev pub carried : List Prefix → List Prefix
carried [] = record { bytes = replicate 16 0; length = 0 } ∷ []
carried (p ∷ ps) = p ∷ ps

pub netprefix_part-carried : (ps : List Prefix) → netprefix_part ps ≡ netprefix_options (carried ps)
unfolding netprefix_part
netprefix_part-carried [] = refl
netprefix_part-carried (p ∷ ps) = refl

pub carried-IsPrefix : (ps : List Prefix) → All IsPrefix ps → All IsPrefix (carried ps)
carried-IsPrefix [] v = (record { width = refl; short = omega arith }, tt)
carried-IsPrefix (p ∷ ps) v = v

pub length-netprefix_options :
    (ps : List Prefix) → All IsPrefix ps → length (netprefix_options ps) ≡ 20 * length ps
unfolding netprefix_options
length-netprefix_options [] v = omega arith
length-netprefix_options (p ∷ ps) v = omega (
  arith,
  length-append p.bytes (netprefix_options ps),
  v.0.width,
  length-netprefix_options ps v.1,
)

-- What the types of the fields and the asserts bound, and that the message fits the buffers.
pub record IsSendable {A : Type 0} (p : ProxyBindingInfo A) : Type 0 where
  pub named : length p.id < 254
  pub prefixes : All IsPrefix p.prefix_list
  pub fits : 23 + length p.id + 20 * length (carried p.prefix_list) ≤ 1456
  pub sequence : p.sequence < 65536
  pub lifetime : p.lifetime / 4 < 65536
  pub handoff : p.handoff < 256
  pub status : p.status < 256
  pub link_type : p.link_type < 256

module _ {A : Type 0} (p : ProxyBindingInfo A) where
  pub length-append_options :
      All IsPrefix p.prefix_list
      → length (append_options p) ≡ 11 + length p.id + 20 * length (carried p.prefix_list)
  unfolding append_options
  length-append_options v = rw (netprefix_part-carried p.prefix_list) (
      omega (
        arith,
        length-append p.id (
            netprefix_options (carried p.prefix_list)
            ++ (handoff_option (p.handoff % 256) ++ att_option (p.link_type % 256))),
        length-append (netprefix_options (carried p.prefix_list))
            (handoff_option (p.handoff % 256) ++ att_option (p.link_type % 256)),
        length-netprefix_options (carried p.prefix_list) (carried-IsPrefix p.prefix_list v),
      ))

  -- The loop over the options of a message, the padding included.
  pub parse-append_options :
      (f k : ℕ) (stale : List ℕ) (s : Scan A)
      → IsSendable p
      → s.nai ≡ false
      → s.hof ≡ false
      → s.att ≡ false
      → k ≤ f
      → parse_options
          (suc (length (carried p.prefix_list) + suc (suc (suc f))))
          (append_options p ++ (replicate k 0 ++ stale))
          (length p.id + 3 + (20 * length (carried p.prefix_list) + (4 + (4 + k))))
          s
        ≡ ok (
            with_link_type
              (with_handoff (with_prefixes (with_id s p.id) (carried p.prefix_list)) p.handoff)
              p.link_type)
  unfolding append_options
  parse-append_options f k stale s v nai hof att h =
      let ps = carried p.prefix_list in
      let tail = replicate k 0 ++ stale in
      let last = att_option p.link_type ++ tail in
      let named = with_id s p.id in
      let listed = with_prefixes named ps in
      let handed = with_handoff listed p.handoff in
      let eh : p.handoff % 256 ≡ p.handoff = omega (arith, v.handoff) in
      let et : p.link_type % 256 ≡ p.link_type = omega (arith, v.link_type) in
      rw
        (
          netprefix_part-carried p.prefix_list,
          eh,
          et,
          append_assoc p.id
              (netprefix_options ps ++ (handoff_option p.handoff ++ att_option p.link_type)) tail,
          append_assoc (netprefix_options ps) (handoff_option p.handoff ++ att_option p.link_type)
              tail,
        )
        (parse-nai (length ps + suc (suc (suc f))) (20 * length ps + (4 + (4 + k)))
            (netprefix_options ps ++ (handoff_option p.handoff ++ last)) s p.id nai v.named
          ∙ parse-prefixes (suc (suc (suc f))) (4 + (4 + k)) ps (handoff_option p.handoff ++ last)
              named (carried-IsPrefix p.prefix_list v.prefixes)
          ∙ parse-handoff (suc (suc f)) (4 + k) last listed p.handoff hof
          ∙ parse-att (suc f) k tail handed p.link_type att
          ∙ parse-padding f k stale (with_link_type handed p.link_type) h)

pub take-replicate : (n m : ℕ) → n ≤ m → take {A = ℕ} n (replicate m 0) ≡ replicate n 0
take-replicate zero m h = refl
take-replicate (suc n) zero h = absurd (omega arith)
take-replicate (suc n) (suc m) h = ap (◌∷◌ 0) (take-replicate n m (omega arith))

pub take_padded :
    (n m : ℕ) (xs : List ℕ)
    → length xs ≤ n
    → n ≤ length xs + m
    → take n (xs ++ replicate m 0) ≡ xs ++ replicate (n - length xs) 0
take_padded n m [] h k = let e : n - 0 ≡ n = omega arith in rw e (take-replicate n m (omega arith))
take_padded zero m (x ∷ xs) h k = absurd (omega arith)
take_padded (suc n) m (x ∷ xs) h k =
    let e : suc n - suc (length xs) ≡ n - length xs = omega arith in
    rw e (ap (◌∷◌ x) (take_padded n m xs (omega arith) (omega arith)))

-- A message that fits is sent whole, and padded with zeros to a multiple of 8 bytes.
pub sent-padded :
    (content : List ℕ)
    → length content ≤ 1456
    → sent content ≡ content ++ replicate (align_to (length content) - length content) 0
unfolding sent
sent-padded content h =
    take_padded (align_to (length content)) (buffer_size - length content) content (omega arith)
      (omega arith)

pub length-sent :
    (content : List ℕ) → length content ≤ 1456 → length (sent content) ≡ align_to (length content)
length-sent content h = rw (sent-padded content h) (
    omega (
      arith,
      length-append content (replicate (align_to (length content) - length content) 0),
      length-replicate {A = ℕ} (align_to (length content) - length content) 0,
    ))

module _ {A : Type 0} (p : ProxyBindingInfo A) (v : IsSendable p) where
  pub checked-sent :
      (content : List ℕ) → length content ≤ 1456 → checked p.id content ≡ ok (sent content)
  unfolding checked
  checked-sent content h = ground (arith, v.named)

  pub length-options : length (append_options p) ≤ 1444
  length-options = omega (arith, length-append_options p v.prefixes, v.fits)

-- The length field of the header stands for the whole padded message.
pub header_length-init :
    (type len : ℕ) (rest : List ℕ)
    → 0 < len
    → len ≤ 1456
    → header_length (init type (align_to len) rest) ≡ align_to len
unfolding init
header_length-init type len rest pos h = omega arith

pub header_cast-whole :
    (buff : List ℕ) (len : ℕ)
    → header_length buff ≡ len
    → header_size ≤ len
    → header_cast buff len ≡ true
unfolding header_cast
header_cast-whole buff len e h = ground arith

pub message_cast-whole :
    (mh_type len : ℕ) (buff : List ℕ)
    → byte_at buff 2 ≡ mh_type
    → header_length buff ≡ len
    → message_size ≤ len
    → message_cast mh_type buff ≡ true
unfolding message_cast
message_cast-whole mh_type len buff t e h = ground arith

pub ntohs-htons : (n : ℕ) → n < 65536 → ntohs (n / 256 % 256) (n % 256) ≡ n
ntohs-htons n h = omega arith
