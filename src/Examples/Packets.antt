-- ===== src/Examples/Packets.antt =====
-- The theorems about checksums and router advertisements at concrete packets.
use odi_mm.Base.{ℕ, ◌≡◌, refl, [], ◌∷◌, some, arith}
use odi_mm.Types.{IsPrefix}
use odi_mm.Addrconf.State.{Advertisement}
use odi_mm.Samples.{home}
use odi_mm.Icmp.Advert.{view, ra_options}
use odi_mm.Icmp.Advert.RoundTrip.{view-ra_options}
use odi_mm.Checksum.{update_bytes}
use odi_mm.Run.{done, threw}

update_bytes_odd : update_bytes 0 (1 ∷ 2 ∷ 3 ∷ []) ≡ threw
unfolding update_bytes
update_bytes_odd = refl

update_bytes_even : update_bytes 1 (0xff ∷ 0xff ∷ 2 ∷ 1 ∷ []) ≡ done 0x103
unfolding update_bytes
update_bytes_even = refl

-- An advertisement of one prefix.
abbrev served : Advertisement ℕ
served = record {
  hop_limit = 64;
  lifetime = 1800;
  device_id = 3;
  link_address = 2 ∷ 0 ∷ 0 ∷ 0 ∷ 0 ∷ 9 ∷ [];
  dst_link_address = 2 ∷ 0 ∷ 0 ∷ 0 ∷ 0 ∷ 7 ∷ [];
  mtu = 1460;
  prefix_list = home ∷ [];
  source = 17;
  destination = 18;
  home_addr = 19;
}

home-IsPrefix : IsPrefix home
home-IsPrefix = record { width = refl; short = omega arith }

view-ra_options_example :
    view 3 (ra_options served)
    ≡ some
        (record { link = some (2 ∷ 0 ∷ 0 ∷ 0 ∷ 0 ∷ 9 ∷ []); mtu = some 1460; prefixes = home ∷ [] })
view-ra_options_example = view-ra_options served refl (omega arith) (home-IsPrefix, tt)
