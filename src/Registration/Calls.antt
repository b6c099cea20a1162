-- ===== src/Registration/Calls.antt =====
-- The calls that the gateway of pmip/mag.cpp makes of its server of pmip/addrconf_server.cpp, and the
-- address that an attached node gets by DHCPv6.
use odi_mm.Base.{
  ℕ, ◌≡◌, ◌⊎◌, refl, ap, ◌∙◌, true, false, List, ◌∷◌, none, some, length, find, list_eq, nat_eq,
}
use odi_mm.Run.{Run, done, ◌>>=◌}
use odi_mm.Types.{Prefix, AddressOps}
use odi_mm.Bulist.{BulistEntry}
use odi_mm.Lma.State.{Kernel}
use odi_mm.Mag.{add_route_entries}
use odi_mm.Mag.Delivery.{add_route_entries-calls}
use odi_mm.Mag.State.{Mag, Call, advertises, withdraws, starts, clears, stops}
use odi_mm.Addrconf.State
use odi_mm.Addrconf.State.{Advertisement, Client, Server, Multicast, mem, client_of}
use odi_mm.Addrconf.Requests.{answer_opcode, dhcp6_handle_message}
use odi_mm.Addrconf.Leases.{Lease, read_lease}
use odi_mm.Addrconf.Advertising.{add-inserts}
use odi_mm.Addrconf.Service.{Request, message, IsRequest, IsServed, handle_message-grants, lease_of}

module _ {A : Type 0} where
  -- `rainfo`, with the defaults of router_advertisement_info. `all_nodes` is `ff02::1`.
  abbrev pub rainfo : A → ℕ → List ℕ → List ℕ → ℕ → List Prefix → A → A → Advertisement A
  rainfo all_nodes device link_address dst_link_address mtu prefix_list home_addr source = record {
    hop_limit = 64;
    lifetime = 0xffff;
    device_id = device;
    link_address = link_address;
    dst_link_address = dst_link_address;
    mtu = mtu;
    prefix_list = prefix_list;
    source = source;
    destination = all_nodes;
    home_addr = home_addr;
  }

  -- What the server does at a call of the gateway.
  unfoldable pub serve : Multicast → A → Call A → Server A → Run (Server A)
  unfolding ◌>>=◌
  serve m all_nodes (advertises device poa mn mtu prefixes home source) s =
      State.add m (rainfo all_nodes device poa mn mtu prefixes home source) s >>= λ (added, s').
      done s'
  serve m all_nodes (withdraws mn) s = done (State.del mn s).1
  serve m all_nodes starts s = done (State.start s)
  serve m all_nodes clears s = done (State.clear s)
  serve m all_nodes stops s = State.stop m s

module _ {A : Type 0} ⦃ops : AddressOps A⦄ where
  -- The server that takes the call of an attachment knows the node.
  serve-served :
      (m : Multicast) (all_nodes source : A) (be : BulistEntry A) (s : Server A)
      → find be.mn_link_address s.clients ≡ none
      → (mem be.poa_dev_id s.mcast_interfaces ≡ true) ⊎ (m.joins s.joined be.poa_dev_id ≡ true)
      → (s' : Server A) × (c : Client A) × (serve m all_nodes
            (advertises be.poa_dev_id be.poa_address be.mn_link_address be.mtu be.mn_prefix_list
              be.home_address source)
            s
          ≡ done s')
        × (find be.mn_link_address s'.clients ≡ some c)
        × (c.home_addr ≡ be.home_address)
        × (c.poa_link_addr ≡ be.poa_address)
  unfolding serve ◌>>=◌
  serve-served m all_nodes source be s free allowed =
      let ai =
        rainfo all_nodes be.poa_dev_id be.poa_address be.mn_link_address be.mtu be.mn_prefix_list
          be.home_address source in
      let (s', added, found) = add-inserts m s ai free allowed in
      (s', client_of ai s.next_timer, rw (serve, added, ◌>>=◌) refl, found, refl, refl)

  -- A node whose routes the gateway has added is known to the gateway's server by the call that the
  -- gateway makes then, and a DHCPv6 solicitation, request, renewal or confirmation of the node is
  -- answered with a lease of the home address of its entry. The server had no client of the node's
  -- link address, the interface is in the group or may join it, and the entry has a home address.
  pub attached-leased :
      (k : Kernel A) (mag mag1 : Mag A) (be : BulistEntry A) (m : Multicast) (all_nodes : A)
      (s : Server A) (junk : ℕ) (fresh : List ℕ) (r : Request) (answer : ℕ)
      → add_route_entries k mag be ≡ done mag1
      → find be.mn_link_address s.clients ≡ none
      → (mem be.poa_dev_id s.mcast_interfaces ≡ true) ⊎ (m.joins s.joined be.poa_dev_id ≡ true)
      → IsRequest r be.mn_link_address
      → answer_opcode r.op ≡ some (answer, false)
      → ops.is_unspecified be.home_address ≡ false
      → length (ops.to_bytes be.home_address) ≡ 16
      → length be.poa_address ≡ 6
      → length fresh ≡ 1024
      → (call : Call A) × (s' : Server A) × (bytes : List ℕ) × (lease : Lease) × (mag1.addrconf
          ≡ call ∷ mag.addrconf)
        × (serve m all_nodes call s ≡ done s')
        × (dhcp6_handle_message junk fresh (message r) s' ≡ done (some bytes))
        × (read_lease bytes ≡ some lease)
        × (lease.address ≡ ops.to_bytes be.home_address)
        × (lease.server ≡ be.poa_address)
        × (lease.client ≡ r.duid)
        × (lease.id ≡ r.id)
        × (lease.tid ≡ r.tid)
  attached-leased k mag mag1 be m all_nodes s junk fresh r answer added free allowed asks op homed
        width poa size =
      let (s', c, served, found, home, point) =
        serve-served m all_nodes mag.link_local_ip be s free allowed in
      let known : IsServed s' c be.mn_link_address = record {
        found = found;
        homed = ap ops.is_unspecified home ∙ homed;
        width = ap (λ a. length (ops.to_bytes a)) home ∙ width;
        poa = ap length point ∙ poa;
      } in
      let (bytes, answered, read) =
        handle_message-grants s' c junk fresh r be.mn_link_address answer asks op known size in
      (
        advertises be.poa_dev_id be.poa_address be.mn_link_address be.mtu be.mn_prefix_list
            be.home_address mag.link_local_ip,
        s',
        bytes,
        lease_of answer r.tid c r.duid r.id,
        add_route_entries-calls k mag mag1 be added,
        served,
        answered,
        read,
        ap ops.to_bytes home,
        point,
        refl,
        refl,
        refl,
      )
