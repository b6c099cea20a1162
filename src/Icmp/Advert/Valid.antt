-- ===== src/Icmp/Advert/Valid.antt =====
-- The checksum of the router advertisements of lib/opmip/pmip/icmp_sender.cpp.
use odi_mm.Base.{ℕ, ◌+◌, ◌%◌, ◌≤◌, ◌<◌, ◌≡◌, List, All, length}
use odi_mm.Types.{Prefix, IsPrefix, AddressOps}
use odi_mm.Checksum.{words, notify}
use odi_mm.Addrconf.State.{Advertisement}
use odi_mm.Icmp.Advert.{ra_options, pseudo_header, header_of}

abbrev pub IsBytes : List ℕ → Type 0
IsBytes bytes = All (λ b. b < 256) bytes

-- A prefix of bytes.
pub record IsCarried (p : Prefix) : Type 0 where
  pub prefix : IsPrefix p
  pub bytes : IsBytes p.bytes

-- What the fields of an advertisement hold.
pub record IsAdvertisement {A : Type 0} ⦃ops : AddressOps A⦄ (info : Advertisement A) : Type 0 where
  pub hop_limit : info.hop_limit < 256
  pub link_bytes : IsBytes info.link_address
  pub link_width : length info.link_address ≡ 6
  pub prefixes : All IsCarried info.prefix_list
  pub few : length info.prefix_list ≤ 2000
  pub source : IsBytes (ops.to_bytes info.source)
  pub source_width : length (ops.to_bytes info.source) ≡ 16
  pub destination : IsBytes (ops.to_bytes info.destination)
  pub destination_width : length (ops.to_bytes info.destination) ≡ 16

module _ {A : Type 0} ⦃ops : AddressOps A⦄ (info : Advertisement A) (v : IsAdvertisement info) where
  -- What `notify` fills in.
  unfoldable ra_checksum : ℕ
  ra_checksum =
      let len = (16 + length (ra_options info)) % 65536 in
      let filled =
        notify (words (pseudo_header info.source info.destination len)) (header_of info)
          (words (ra_options info)) in
      filled.checksum
