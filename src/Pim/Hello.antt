-- ===== src/Pim/Hello.antt =====
-- What a neighbour reads in the hello messages of lib/opmip/net/ip/pim_gen_parser.cpp.
use odi_mm.Base.{
  true, nat_beq, if◌then◌else◌, Bool-cases, inl, inr, lt→ltb, ltb→lt, ltb, ℕ, suc, ◌+◌, ◌*◌, ◌/◌,
  ◌%◌, ◌^◌, ◌≤◌, ◌<◌, ◌≡◌, refl, sym, ap, ◌∙◌, List, [], ◌∷◌, ◌++◌, Option, none, some, All, length,
  length-append, map, take_append, drop_append, append_assoc, append-nil, arith, le→ltb_false,
}
use odi_mm.Types.{AddressOps}
use odi_mm.Icmp.Advert.{short_bytes, long_bytes}
use odi_mm.Pim.{
  HelloMsg, hello_header, hello_option, holdtime_option, dr_priority_option, generation_id_option,
  address_list_option, put_option, unicasts, hello_gen, hello_size, optional_size, list_size,
  read_hello, read_message, take_option, read_unicasts,
}

abbrev bytes_of : Option (List ℕ) → List ℕ
bytes_of none = []
bytes_of (some bytes) = bytes

-- Bytes that are there if the buffer has room for them.
unfoldable capped : ℕ → List ℕ → Option (List ℕ)
capped room bytes = if ltb room (length bytes) then none else some bytes

put_option-capped :
    (room : ℕ) (opt : Option (List ℕ)) (out : List ℕ)
    → put_option room opt (capped room out) ≡ capped room (out ++ bytes_of opt)
unfolding capped put_option
put_option-capped room none out = elim (Bool-cases (ltb room (length out))) [
  | inl over ↦ rw (append-nil out, over) refl
  | inr fits ↦ rw (append-nil out, fits) refl
]
put_option-capped room (some bytes) out = elim (Bool-cases (ltb room (length out))) [
  | inl over ↦
      let longer =
        lt→ltb room (length (out ++ bytes))
          (omega (arith, ltb→lt room (length out) over, length-append out bytes)) in
      rw (over, longer) refl
  | inr fits ↦ rw (fits, length-append out bytes) refl
]

-- One option in front.
read_hello-option :
    (fuel type : ℕ) (value rest : List ℕ) (m : HelloMsg (List ℕ))
    → type < 65536
    → length value < 65536
    → read_hello fuel rest ≡ some m
    → read_hello (suc fuel) (hello_option type value ++ rest) ≡ take_option type value m
unfolding read_hello hello_option
read_hello-option fuel type value rest m ht hv e =
    let n : length value / 256 % 256 * 256 + length value % 256 ≡ length value =
      omega (arith, hv) in
    let t : type / 256 % 256 * 256 + type % 256 ≡ type = omega (arith, ht) in
    let inside =
      le→ltb_false (length (value ++ rest)) (length value)
        (omega (arith, length-append value rest)) in
    rw
      (
        n,
        inside,
        drop_append (length value) value rest refl,
        e,
        n,
        take_append (length value) value rest refl,
        t,
      )
      refl

-- A list of addresses of sixteen bytes each.
read_unicasts-unicasts :
    {A : Type 0} ⦃ops : AddressOps A⦄ (addresses : List A)
    → All (λ a. length (ops.to_bytes a) ≡ 16) addresses
    → read_unicasts (length addresses) (unicasts addresses) ≡ some (map ops.to_bytes addresses)
unfolding unicasts
read_unicasts-unicasts [] h = refl
read_unicasts-unicasts ⦃ops⦄ (a ∷ rest) h =
    rw
      (
        drop_append 16 (ops.to_bytes a) (unicasts rest) (sym h.0),
        read_unicasts-unicasts rest h.1,
        take_append 16 (ops.to_bytes a) (unicasts rest) (sym h.0),
      )
      refl

length-unicasts :
    {A : Type 0} ⦃ops : AddressOps A⦄ (addresses : List A)
    → All (λ a. length (ops.to_bytes a) ≡ 16) addresses
    → length (unicasts addresses) ≡ 18 * length addresses
unfolding unicasts
length-unicasts [] h = omega arith
length-unicasts ⦃ops⦄ (a ∷ rest) h =
    omega (arith, length-append (ops.to_bytes a) (unicasts rest), h.0, length-unicasts rest h.1)

abbrev heard : Option ℕ → Option ℕ → Option ℕ → List (List ℕ) → HelloMsg (List ℕ)
heard h d g l = record { holdtime = h; dr_priority = d; generation_id = g; maddr_list = l }

read_hello-addresses :
    {A : Type 0} ⦃ops : AddressOps A⦄ (addresses : List A)
    → All (λ a. length (ops.to_bytes a) ≡ 16) addresses
    → length addresses ≤ 3640
    → (more : ℕ)
    → read_hello (suc more) (bytes_of (address_list_option addresses))
      ≡ some (heard none none none (map ops.to_bytes addresses))
unfolding address_list_option read_hello
read_hello-addresses [] h few more = refl
read_hello-addresses {A} ⦃ops⦄ (a ∷ rest) h few more =
    let value = unicasts (a ∷ rest) in
    let width = length-unicasts (a ∷ rest) h in
    let whole : nat_beq (length value % 18) 0 ≡ true = ground (arith, width) in
    let count : length value / 18 ≡ length (a ∷ rest) = omega (arith, width) in
    ap (read_hello (suc more)) (sym (append-nil (hello_option 24 value)))
    ∙ read_hello-option more 24 value [] (heard none none none []) (omega arith)
        (omega (arith, width, few)) refl
    ∙ rw (whole, count, read_unicasts-unicasts (a ∷ rest) h) refl

read_hello-generation :
    (fuel : ℕ) (opt : Option ℕ) (rest : List ℕ) (l : List (List ℕ))
    → ((v : ℕ) → opt ≡ some v → v < 2 ^ 32)
    → ((more : ℕ) → read_hello (suc more) rest ≡ some (heard none none none l))
    → read_hello (suc (suc fuel)) (bytes_of (generation_id_option opt) ++ rest)
      ≡ some (heard none none opt l)
unfolding generation_id_option
read_hello-generation fuel none rest l fits e = e (suc fuel)
read_hello-generation fuel (some v) rest l fits e =
    read_hello-option (suc fuel) 20 (long_bytes v) rest (heard none none none l) (omega arith)
      (omega arith) (e fuel)
    ∙ ap (λ k. some (heard none none (some k) l)) (omega (arith, fits v refl))

read_hello-priority :
    (fuel : ℕ) (opt g : Option ℕ) (rest : List ℕ) (l : List (List ℕ))
    → ((v : ℕ) → opt ≡ some v → v < 2 ^ 32)
    → ((more : ℕ) → read_hello (suc (suc more)) rest ≡ some (heard none none g l))
    → read_hello (suc (suc (suc fuel))) (bytes_of (dr_priority_option opt) ++ rest)
      ≡ some (heard none opt g l)
unfolding dr_priority_option
read_hello-priority fuel none g rest l fits e = e (suc fuel)
read_hello-priority fuel (some v) g rest l fits e =
    read_hello-option (suc (suc fuel)) 19 (long_bytes v) rest (heard none none g l) (omega arith)
      (omega arith) (e fuel)
    ∙ ap (λ k. some (heard none (some k) g l)) (omega (arith, fits v refl))

read_hello-holdtime :
    (opt d g : Option ℕ) (rest : List ℕ) (l : List (List ℕ))
    → ((v : ℕ) → opt ≡ some v → v < 2 ^ 16)
    → ((more : ℕ) → read_hello (suc (suc (suc more))) rest ≡ some (heard none d g l))
    → read_hello 4 (bytes_of (holdtime_option opt) ++ rest) ≡ some (heard opt d g l)
unfolding holdtime_option
read_hello-holdtime none d g rest l fits e = e 1
read_hello-holdtime (some v) d g rest l fits e =
    read_hello-option 3 1 (short_bytes v) rest (heard none d g l) (omega arith) (omega arith) (e 0)
    ∙ ap (λ k. some (heard (some k) d g l)) (omega (arith, fits v refl))

length-holdtime_option :
    (opt : Option ℕ) → length (bytes_of (holdtime_option opt)) ≡ optional_size 6 opt
unfolding holdtime_option hello_option
length-holdtime_option none = refl
length-holdtime_option (some v) = refl

length-dr_priority_option :
    (opt : Option ℕ) → length (bytes_of (dr_priority_option opt)) ≡ optional_size 8 opt
unfolding dr_priority_option hello_option
length-dr_priority_option none = refl
length-dr_priority_option (some v) = refl

length-generation_id_option :
    (opt : Option ℕ) → length (bytes_of (generation_id_option opt)) ≡ optional_size 8 opt
unfolding generation_id_option hello_option
length-generation_id_option none = refl
length-generation_id_option (some v) = refl

length-address_list_option :
    {A : Type 0} ⦃ops : AddressOps A⦄ (addresses : List A)
    → All (λ a. length (ops.to_bytes a) ≡ 16) addresses
    → length (bytes_of (address_list_option addresses)) ≡ list_size addresses
unfolding address_list_option hello_option
length-address_list_option [] h = refl
length-address_list_option (a ∷ rest) h = omega (arith, length-unicasts (a ∷ rest) h)

-- What the fields of a message hold.
pub record IsHello {A : Type 0} ⦃ops : AddressOps A⦄ (msg : HelloMsg A) : Type 0 where
  pub holdtime : (v : ℕ) → msg.holdtime ≡ some v → v < 2 ^ 16
  pub dr_priority : (v : ℕ) → msg.dr_priority ≡ some v → v < 2 ^ 32
  pub generation_id : (v : ℕ) → msg.generation_id ≡ some v → v < 2 ^ 32
  pub wide : All (λ a. length (ops.to_bytes a) ≡ 16) msg.maddr_list
  pub few : length msg.maddr_list ≤ 3640

module _ {A : Type 0} ⦃ops : AddressOps A⦄ (msg : HelloMsg A) (v : IsHello msg) where
  -- The options behind the header.
  hello_options : List ℕ
  hello_options =
      bytes_of (holdtime_option msg.holdtime)
      ++ (bytes_of (dr_priority_option msg.dr_priority)
          ++ (bytes_of (generation_id_option msg.generation_id)
              ++ bytes_of (address_list_option msg.maddr_list)))

  length-hello_options : 4 + length hello_options ≡ hello_size msg
  unfolding hello_options
  length-hello_options =
      let ht = bytes_of (holdtime_option msg.holdtime) in
      let dp = bytes_of (dr_priority_option msg.dr_priority) in
      let gi = bytes_of (generation_id_option msg.generation_id) in
      let al = bytes_of (address_list_option msg.maddr_list) in
      omega (
        arith,
        length-holdtime_option msg.holdtime,
        length-dr_priority_option msg.dr_priority,
        length-generation_id_option msg.generation_id,
        length-address_list_option msg.maddr_list v.wide,
        length-append ht (dp ++ (gi ++ al)),
        length-append dp (gi ++ al),
        length-append gi al,
      )

  hello_gen-capped : (room : ℕ) → hello_gen msg room ≡ capped room (hello_header ++ hello_options)
  unfolding hello_gen hello_options hello_header capped put_option
  hello_gen-capped room =
      let h = holdtime_option msg.holdtime in
      let d = dr_priority_option msg.dr_priority in
      let g = generation_id_option msg.generation_id in
      let a = address_list_option msg.maddr_list in
      let ht = bytes_of h in
      let dp = bytes_of d in
      let gi = bytes_of g in
      let al = bytes_of a in
      let start : hello_gen msg room
          ≡ put_option room a (
              put_option room g
                (put_option room d (put_option room h (capped room hello_header)))) =
        elim (Bool-cases (ltb room 4)) [
          | inl over ↦ rw (hello_gen, over) refl
          | inr fits ↦ rw (hello_gen, fits) refl
        ] in
      start
      ∙ ap (λ r. put_option room a (put_option room g (put_option room d r)))
          (put_option-capped room h hello_header)
      ∙ ap (λ r. put_option room a (put_option room g r))
          (put_option-capped room d (hello_header ++ ht))
      ∙ ap (put_option room a) (put_option-capped room g ((hello_header ++ ht) ++ dp))
      ∙ put_option-capped room a (((hello_header ++ ht) ++ dp) ++ gi)
      ∙ ap (λ bs. capped room (hello_header ++ bs))
          (append_assoc (ht ++ dp) gi al ∙ append_assoc ht dp (gi ++ al))

  read_hello-options :
      read_hello 4 hello_options
      ≡ some
          (heard msg.holdtime msg.dr_priority msg.generation_id (map ops.to_bytes msg.maddr_list))
  unfolding hello_options
  read_hello-options =
      let l = map ops.to_bytes msg.maddr_list in
      let al = bytes_of (address_list_option msg.maddr_list) in
      let gi = bytes_of (generation_id_option msg.generation_id) in
      let dp = bytes_of (dr_priority_option msg.dr_priority) in
      read_hello-holdtime msg.holdtime msg.dr_priority msg.generation_id (dp ++ (gi ++ al)) l
        v.holdtime
        (λ more.
          read_hello-priority more msg.dr_priority msg.generation_id (gi ++ al) l v.dr_priority
            (λ more.
              read_hello-generation more msg.generation_id al l v.generation_id
                (read_hello-addresses msg.maddr_list v.wide v.few)))

  -- `gen` returns 0 when a hello message does not fit in the buffer, and generates it otherwise: a
  -- neighbour that reads it by RFC 4601, with the version, the type, the lengths of the options and the
  -- families and encodings of the addresses checked, but not the checksum, then gets the hold time,
  -- the priority, the generation identifier and the addresses that the message has, and none that it
  -- does not have, for values of 16 and 32 bits and at most 3640 addresses.
  pub hello_gen-reads :
      (out : List ℕ) × (length out ≡ hello_size msg)
      × (read_message out
          ≡ some (record {
            holdtime = msg.holdtime;
            dr_priority = msg.dr_priority;
            generation_id = msg.generation_id;
            maddr_list = map ops.to_bytes msg.maddr_list;
          }))
      × ((room : ℕ) → hello_gen msg room ≡ (if ltb room (hello_size msg) then none else some out))
  unfolding hello_header capped read_message
  hello_gen-reads =
      let size : length (hello_header ++ hello_options) ≡ hello_size msg =
        omega (arith, length-hello_options) in
      (
        hello_header ++ hello_options,
        size,
        read_hello-options,
        λ room.
            hello_gen-capped room
            ∙ ap (λ n. if ltb room n then none else some (hello_header ++ hello_options)) size,
      )
