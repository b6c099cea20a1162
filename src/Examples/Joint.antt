-- ===== src/Examples/Joint.antt =====
-- The theorems about the daemons together at concrete inputs.
use odi_mm.Base.{
  false, ℕ, ◌≡◌, refl, inl, List, [], ◌∷◌, ◌++◌, some, arith, nat_eq, list_eq, list_beq, find,
  replicate,
}
use odi_mm.Run.{done, undefined, ◌>>=◌}
use odi_mm.Samples.{number_addresses, wide_addresses, node, database, agreeable}
use odi_mm.Lma
use odi_mm.Mag
use odi_mm.Mag.{mobile_node_attach_}
use odi_mm.Mag.State.{Call, Mag}
use odi_mm.Mag.Examples.{gateway, homed_entry, homed_gateway, homed-routes}
use odi_mm.Addrconf.State.{Server}
use odi_mm.Addrconf.Requests.{dhcp6_handle_message}
use odi_mm.Addrconf.Leases.{Lease, read_lease}
use odi_mm.Addrconf.Service.{message}
use odi_mm.Examples.Clients.{
  link, empty_server, groups, solicit, solicit-IsRequest, solicit_answer, length-fresh, no_client,
}
use odi_mm.NodeDb.{NodeDb}
use odi_mm.Icmp.Driver.{Driver, handle_recv}
use odi_mm.Icmp.Scan.{Other, IsOther}
use odi_mm.Icmp.Solicited.{solicitation-attaches, truncated-crashes}
use odi_mm.Registration.Calls.{serve, attached-leased}

-- The buffers of both daemons still hold ones.
abbrev ones : List ℕ
ones = replicate 8 1

attached-leased_example :
    (call : Call ℕ) × (s' : Server ℕ) × (bytes : List ℕ) × (lease : Lease) × (homed_gateway.addrconf
      ≡ call ∷ [])
    × (serve groups 7 call empty_server ≡ done s')
    × (dhcp6_handle_message ⦃ops = wide_addresses⦄ 0 (replicate 1024 0xaa) (message solicit) s'
        ≡ done (some bytes))
    × (read_lease bytes ≡ some lease)
    × (lease.address ≡ replicate 15 0 ++ 9 ∷ [])
    × (lease.server ≡ 2 ∷ 0 ∷ 0 ∷ 0 ∷ 0 ∷ 1 ∷ [])
    × (lease.client ≡ 0 ∷ 3 ∷ 0 ∷ 1 ∷ link)
    × (lease.id ≡ 77)
    × (lease.tid ≡ 0x123456)
attached-leased_example =
    attached-leased ⦃ops = wide_addresses⦄ agreeable gateway homed_gateway homed_entry groups 7
      empty_server 0 (replicate 1024 0xaa) solicit 2 homed-routes no_client (inl refl)
      solicit-IsRequest solicit_answer refl refl refl length-fresh

abbrev link_database : NodeDb ℕ
link_database = record database { mobiles_by_key = (link, node) ∷ [] }

-- Device 3 is a point of attachment of the gateway.
abbrev driver : Driver ℕ
driver = record {
  mag = record gateway { node_db = link_database };
  poa_dev_map = (3, 2 ∷ 0 ∷ 0 ∷ 0 ∷ 0 ∷ 1 ∷ []) ∷ [];
  receives = 1;
}

abbrev third_device : ℕ → ℕ
third_device ep = 3

-- An MTU option stands before the link address.
abbrev mtu : Other
mtu = record { type = 5; units = 1; body = 0 ∷ 0 ∷ 0 ∷ 0 ∷ 5 ∷ 180 ∷ [] }

mtu-IsOther : IsOther mtu
mtu-IsOther = record {
  positive = omega arith;
  whole = refl;
  other = λ e. absurd (omega (arith, e));
}

solicitation-attaches_example :
    handle_recv third_device 0 false 8
      (133 ∷ 0 ∷ 0 ∷ 0 ∷ 0 ∷ 0 ∷ 0 ∷ 0 ∷ 5 ∷ 1 ∷ 0 ∷ 0 ∷ 0 ∷ 0 ∷ 5 ∷ 180 ∷ 1 ∷ 1 ∷ link)
      6
      driver
    ≡ (mobile_node_attach_ 0 driver.mag
          (record {
            poa_dev_id = 3;
            poa_address = 2 ∷ 0 ∷ 0 ∷ 0 ∷ 0 ∷ 1 ∷ [];
            mn_id = 97 ∷ [];
            mn_address = link;
          })
          (some 6)
        >>= λ mag'. done (record driver { mag = mag' }))
unfolding find list_beq
solicitation-attaches_example =
    solicitation-attaches third_device 0 6 driver 8 (replicate 7 0) (mtu ∷ []) link []
      (2 ∷ 0 ∷ 0 ∷ 0 ∷ 0 ∷ 1 ∷ []) node refl (mtu-IsOther, tt) refl refl refl

-- Ten bytes: the last two announce an option of eight.
truncated-crashes_example :
    handle_recv third_device 0 false 8 (133 ∷ 0 ∷ 0 ∷ 0 ∷ 0 ∷ 0 ∷ 0 ∷ 0 ∷ 1 ∷ 1 ∷ []) 6 driver
    ≡ undefined
truncated-crashes_example =
    truncated-crashes third_device 0 6 driver 8 (replicate 7 0) [] 1 1 [] refl tt (omega arith)
