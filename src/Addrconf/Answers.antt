-- ===== src/Addrconf/Answers.antt =====
-- What pmip/addrconf_server.cpp answers to a DHCPv6 message, as the client reads it.
use odi_mm.Base.{
  ℕ, zero, suc, ◌≤◌, ◌<◌, ◌≡◌, ◌≢◌, refl, ◌∙◌, Bool, true, false, List, [], ◌∷◌, ◌++◌, arith, All,
  some, Option-cases, inl, inr, length, drop, length-append, take-length_append, list_eq, nat_eq,
}
use odi_mm.Run.{done}
use odi_mm.Types.{AddressOps}
use odi_mm.Dhcp.Buffer.{◌>>=◌, be16}
use odi_mm.Dhcp.Generators.{client_id, ia_na, status_code, status_no_binding, gen_message}
use odi_mm.Dhcp.Parsers.{
  Choice, parse_option, parse_option_duid, IaNa, parse_option_ia, parse_option-shorter,
}
use odi_mm.Dhcp.Emits.{Emits, emitted-wrote}
use odi_mm.Dhcp.Options.{option_bytes}
use odi_mm.Dhcp.Replies.{status-Emits}
use odi_mm.Dhcp.Lease.{ia_bytes, lease_bytes, lease-Emits}
use odi_mm.Dhcp.RoundTrip.{parse_option-option_bytes, parse_option_ia-ia_bytes}
use odi_mm.Addrconf.Requests.{
  Locals, parsed, exhausted, read_option, read_options, written, not_available, gen_body,
  dhcp6_reply_message,
}

-- The loop over the options always ends before its fuel does.
pub read_options-ne-exhausted :
    (fuel : ℕ) (bytes : List ℕ) (s : Locals)
    → length bytes ≤ fuel
    → read_options fuel bytes s ≢ exhausted
unfolding read_options
read_options-ne-exhausted fuel [] s h = λ e. absurd (cc e)
read_options-ne-exhausted zero (b ∷ bs) s h = absurd (omega (arith, h))
read_options-ne-exhausted (suc fuel) (b ∷ bs) s h = elim (Option-cases (parse_option (b ∷ bs))) [
  | inl e ↦ rw (read_options, e) (λ e. absurd (cc e))
  | inr ((choice, rest), e) ↦
      let shorter = parse_option-shorter (b ∷ bs) rest choice e in
      elim (Option-cases (read_option choice.opt choice.payload s)) [
        | inl r ↦ rw (read_options, e, r) (λ e. absurd (cc e))
        | inr (s', r) ↦
            rw (read_options, e, r)
              (read_options-ne-exhausted fuel rest s' (omega (arith, h, shorter)))
      ]
]

-- One round over an option that is whole.
read_options-option :
    (fuel opt : ℕ) (payload rest : List ℕ) (s s' : Locals)
    → opt < 65536
    → length payload < 65536
    → read_option opt payload s ≡ some s'
    → read_options (suc fuel) (option_bytes opt payload ++ rest) s ≡ read_options fuel rest s'
unfolding read_options
read_options-option fuel opt payload rest s s' h k e =
    rw (read_options, parse_option-option_bytes opt payload rest h k, e) refl

-- Options that the server does not look at, as they are sent.
abbrev pub IsOther : Choice → Type 0
IsOther o = (o.opt < 65536) × (length o.payload < 65536) × (o.opt ≢ client_id) × (o.opt ≢ ia_na)

abbrev pub encode : List Choice → List ℕ
encode [] = []
encode (o ∷ os) = option_bytes o.opt o.payload ++ encode os

read_option-other :
    (o : Choice) (s : Locals)
    → o.opt ≢ client_id
    → o.opt ≢ ia_na
    → read_option o.opt o.payload s ≡ some s
unfolding read_option
read_option-other o s h k = ground arith

length-encode : (os : List Choice) → length os ≤ length (encode os)
length-encode [] = omega arith
length-encode (o ∷ os) = omega (arith, length-encode os, length-append o.payload (encode os))

read_options-others :
    (fuel : ℕ) (os : List Choice) (s : Locals)
    → length os ≤ fuel
    → All IsOther os
    → read_options fuel (encode os) s ≡ parsed s
unfolding read_options
read_options-others fuel [] s h v = refl
read_options-others zero (o ∷ os) s h v = absurd (omega (arith, h))
read_options-others (suc fuel) (o ∷ os) s h ((small, short, c, i), v) =
    read_options-option fuel o.opt o.payload (encode os) s s small short (read_option-other o s c i)
    ∙ read_options-others fuel os s (omega (arith, h)) v

parse_option_ia-whole :
    (id t1 t2 : ℕ)
    → id < 4294967296
    → t1 < 4294967296
    → t2 < 4294967296
    → parse_option_ia (ia_bytes id t1 t2) ≡ some (record { id = id; t1 = t1; t2 = t2 }, [])
parse_option_ia-whole id t1 t2 = parse_option_ia-ia_bytes id t1 t2 []

read_option-association :
    (payload rest : List ℕ) (ia : IaNa) (s : Locals)
    → parse_option_ia payload ≡ some (ia, rest)
    → read_option ia_na payload s ≡ some (record s { ia_id = ia.id })
unfolding read_option
read_option-association payload rest ia s e = rw (read_option, e) refl

-- The options of a request: the client's identifier, an identity association, and others.
abbrev pub request_options : List ℕ → ℕ → ℕ → ℕ → List Choice → List ℕ
request_options duid id t1 t2 os =
    option_bytes client_id duid ++ (option_bytes ia_na (ia_bytes id t1 t2) ++ encode os)

module _ (duid addr : List ℕ) (known : parse_option_duid duid ≡ some addr) where
  read_option-client_id :
      (s : Locals)
      → read_option client_id duid s ≡ some (record s { cid = duid; clink_addr = addr })
  unfolding read_option
  read_option-client_id s = rw (read_option, known) refl

  pub read_options-bare :
      (os : List Choice) (s : Locals)
      → length duid < 65536
      → All IsOther os
      → read_options
          (length (option_bytes client_id duid ++ encode os))
          (option_bytes client_id duid ++ encode os)
          s
        ≡ parsed (record s { cid = duid; clink_addr = addr })
  read_options-bare os s h v =
      let n = length (duid ++ encode os) in
      let first = record s { cid = duid; clink_addr = addr } in
      read_options-option (suc (suc (suc n))) client_id duid (encode os) s first (omega arith) h
        (read_option-client_id s)
      ∙ read_options-others (suc (suc (suc n))) os first
          (omega (arith, length-encode os, length-append duid (encode os))) v

  module _ (id t1 t2 : ℕ) (wid : id < 4294967296) (w1 : t1 < 4294967296)
      (w2 : t2 < 4294967296) where
    read_option-ia_na :
        (s : Locals) → read_option ia_na (ia_bytes id t1 t2) s ≡ some (record s { ia_id = id })
    read_option-ia_na s =
        read_option-association (ia_bytes id t1 t2) [] _ s
          (parse_option_ia-whole id t1 t2 wid w1 w2)

    pub read_options-request :
        (os : List Choice) (s : Locals)
        → length duid < 65536
        → All IsOther os
        → read_options
            (length (request_options duid id t1 t2 os))
            (request_options duid id t1 t2 os)
            s
          ≡ parsed (record { cid = duid; clink_addr = addr; ia_id = id })
    read_options-request os s h v =
        let behind = option_bytes ia_na (ia_bytes id t1 t2) ++ encode os in
        let n = length (duid ++ behind) in
        let first = record s { cid = duid; clink_addr = addr } in
        read_options-option (suc (suc (suc n))) client_id duid behind s first (omega arith) h
          (read_option-client_id s)
        ∙ read_options-option (suc (suc n)) ia_na (ia_bytes id t1 t2) (encode os) first
            (record first { ia_id = id }) (omega arith) (omega arith) (read_option-ia_na first)
        ∙ read_options-others (suc (suc n)) os (record first { ia_id = id })
            (omega (arith, length-encode os, length-append duid behind)) v

-- What is sent, when the space is enough for it.
module _ {A : Type 0} ⦃ops : AddressOps A⦄ where
  pub reply-emitted :
      (fresh : List ℕ) (op tid : ℕ) (poa cid : List ℕ) (id : ℕ) (home : A) (hdonly : Bool)
      (bytes : List ℕ)
      → Emits (λ b. gen_message b op tid poa cid >>= gen_body id home hdonly) bytes
      → length bytes ≤ length fresh
      → dhcp6_reply_message fresh op tid poa cid id home hdonly ≡ done (some bytes)
  unfolding dhcp6_reply_message written
  reply-emitted fresh op tid poa cid id home hdonly bytes e h =
      rw
        (
          dhcp6_reply_message,
          e.at [] fresh,
          emitted-wrote bytes [] fresh h,
          take-length_append bytes (drop (length bytes) fresh),
        )
        refl

  pub body-lease :
      (id : ℕ) (home : A)
      → ops.is_unspecified home ≡ false
      → length (ops.to_bytes home) ≡ 16
      → Emits (gen_body id home false) (lease_bytes id 1800 2880 (ops.to_bytes home) 3600 3600)
  unfolding gen_body
  body-lease id home known width =
      rw (gen_body, known) (lease-Emits id 1800 2880 (ops.to_bytes home) 3600 3600 width)

  pub body-status :
      (id : ℕ) (home : A) (hdonly : Bool)
      → ops.is_unspecified home ≡ true
      → Emits
          (gen_body id home hdonly)
          (option_bytes status_code (be16 status_no_binding ++ not_available))
  unfolding gen_body
  body-status id home hdonly unknown =
      rw (gen_body, unknown) (status-Emits status_no_binding not_available (omega arith))
