-- ===== src/Icmp/Advert.antt =====
-- The router advertisements of lib/opmip/pmip/icmp_sender.cpp, byte by byte: the options of
-- ip/icmp_options.hpp, the header of ip/icmp.hpp, and the packets of net/ip/icmp6_ra_packet.hpp and
-- net/ip/ipv6_packet.hpp.
pub mod RoundTrip
pub mod Valid
use odi_mm.Base.{
  ℕ, zero, suc, ◌+◌, ◌*◌, ◌/◌, ◌%◌, List, [], ◌∷◌, ◌++◌, Option, none, some, length, take, drop,
  nat_beq, if◌then◌else◌,
}
use odi_mm.Types.{Prefix, prefix_v6, AddressOps}
use odi_mm.Checksum.{Header, notify, words}
use odi_mm.Addrconf.State.{Advertisement}
use odi_mm.Icmp.Parser.{Opt, option_cast}

-- `htons` and `htonl`
abbrev pub short_bytes : ℕ → List ℕ
short_bytes v = (v / 256 % 256) ∷ (v % 256) ∷ []

abbrev pub long_bytes : ℕ → List ℕ
long_bytes v = (v / 16777216 % 256) ∷ (v / 65536 % 256) ∷ (v / 256 % 256) ∷ (v % 256) ∷ []

-- `opt_source_link_layer`, after the assignment of an address.
unfoldable pub link_option : List ℕ → List ℕ
link_option mac = 1 ∷ 1 ∷ mac

-- `opt_mtu`, after `set`.
unfoldable pub mtu_option : ℕ → List ℕ
mtu_option mtu = 5 ∷ 1 ∷ 0 ∷ 0 ∷ long_bytes mtu

-- `opt_prefix_info`, after the setters that the sender calls.
unfoldable pub prefix_option : Prefix → List ℕ
prefix_option p =
    3
    ∷ 4
    ∷ p.length
    ∷ (0x80 + 0x40)
    ∷ (long_bytes 7200 ++ (long_bytes 1800 ++ (long_bytes 0 ++ p.bytes)))

unfoldable pub prefix_options : List Prefix → List ℕ
unfolding prefix_option
prefix_options [] = []
prefix_options (p ∷ ps) = prefix_option p ++ prefix_options ps

module _ {A : Type 0} where
  -- `_options` after the constructor of `icmp_ra_sender`.
  unfoldable pub ra_options : Advertisement A → List ℕ
  unfolding link_option mtu_option prefix_options
  ra_options info =
      link_option info.link_address ++ (mtu_option info.mtu ++ prefix_options info.prefix_list)

  -- `router_advertisement`, after `operator()`; the checksum stands as it is in memory.
  unfoldable pub ra_header : Advertisement A → ℕ → List ℕ
  ra_header info checksum =
      134
      ∷ 0
      ∷ (checksum % 256)
      ∷ (checksum / 256)
      ∷ info.hop_limit
      ∷ 0
      ∷ (short_bytes info.lifetime ++ (long_bytes 0 ++ long_bytes 0))

module _ {A : Type 0} ⦃ops : AddressOps A⦄ where
  -- `pseudo_header`, with the next header of an ICMPv6 packet.
  unfoldable pub pseudo_header : A → A → ℕ → List ℕ
  pseudo_header src dst payload_len =
      ops.to_bytes src ++ (ops.to_bytes dst ++ (long_bytes payload_len ++ 0 ∷ 0 ∷ 0 ∷ 58 ∷ []))

  -- The words of the header, for `notify`.
  unfoldable pub header_of : Advertisement A → Header
  header_of info = record {
    type_code = 134;
    checksum = 0;
    rest = info.hop_limit ∷ words (short_bytes info.lifetime ++ (long_bytes 0 ++ long_bytes 0));
  }

  -- The packet after `ipv6_packet::operator()`, whose length is cut to 16 bits.
  unfoldable pub ra_packet : Advertisement A → List ℕ
  unfolding ra_options ra_header pseudo_header header_of notify
  ra_packet info =
      let options = ra_options info in
      let pseudo = pseudo_header info.source info.destination ((16 + length options) % 65536) in
      let header = notify (words pseudo) (header_of info) (words options) in
      ra_header info header.checksum ++ options

  -- `ipv6_packet::header`, whose flow label holds what the memory held.
  unfoldable pub ipv6_header : ℕ → ℕ → ℕ → Advertisement A → List ℕ
  unfolding ra_options
  ipv6_header f0 f1 f2 info =
      0x60
      ∷ f0
      ∷ f1
      ∷ f2
      ∷ (short_bytes (16 + length (ra_options info))
          ++ 58 ∷ 255 ∷ (ops.to_bytes info.source ++ ops.to_bytes info.destination))

-- What a receiver sums before the packet: the addresses, the length and the next header that stand in
-- the header it has got.
unfoldable pub received_pseudo : List ℕ → List ℕ
received_pseudo (version ∷ f0 ∷ f1 ∷ f2 ∷ hi ∷ lo ∷ next ∷ hops ∷ addresses) =
    take 16 addresses ++ (take 16 (drop 16 addresses) ++ 0 ∷ 0 ∷ hi ∷ lo ∷ 0 ∷ 0 ∷ 0 ∷ next ∷ [])
received_pseudo header = []

-- `opt_prefix_info::prefix` and `opt_mtu::get`, on the body of the option.
unfoldable pub prefix_of : List ℕ → Prefix
unfolding prefix_v6
prefix_of [] = prefix_v6 [] 0
prefix_of (plength ∷ body) = prefix_v6 (take 16 (drop 13 body)) plength

unfoldable pub mtu_of : List ℕ → ℕ
mtu_of (r0 ∷ r1 ∷ a ∷ b ∷ c ∷ d ∷ body) = ((a * 256 + b) * 256 + c) * 256 + d
mtu_of body = 0

-- What a host takes from the options.
pub record View : Type 0 where
  pub link : Option (List ℕ)
  pub mtu : Option ℕ
  pub prefixes : List Prefix

abbrev pub take_in : Opt → View → View
take_in opt v =
    if nat_beq opt.type 1
    then record v { link = some (take 6 opt.body) }
    else if nat_beq opt.type 5
    then record v { mtu = some (mtu_of opt.body) }
    else if nat_beq opt.type 3
    then record v { prefixes = prefix_of opt.body ∷ v.prefixes }
    else v

-- A host reads the options one after the other, as `option::cast` and `option::size` give them.
pub view : ℕ → List ℕ → Option View
view fuel [] = some (record { link = none; mtu = none; prefixes = [] })
view zero (b ∷ bytes) = none
view (suc fuel) (b ∷ bytes) = elim (option_cast (b ∷ bytes)) [
  | none ↦ none
  | some opt ↦ elim (view fuel (drop opt.size (b ∷ bytes))) [
    | none ↦ none
    | some v ↦ some (take_in opt v)
  ]
]
