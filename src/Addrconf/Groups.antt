-- ===== src/Addrconf/Groups.antt =====
-- The multicast groups of the server of pmip/addrconf_server.cpp, over a stop and a start.
use odi_mm.Base.{ℕ, ◌≡◌, refl, ap, ◌∙◌, true, false, List, [], ◌∷◌, nat_eq, eq_refl}
use odi_mm.Run.{done, threw}
use odi_mm.Addrconf.State.{Server, Multicast, mem, remove_one, join, start, leave_all, stop}

-- What the system documents of a request to leave a group: it succeeds for a member, and fails when
-- the socket is in no group.
pub record IsMulticast (m : Multicast) : Type 0 where
  pub leaves_joined : (joined : List ℕ) (d : ℕ) → mem d joined ≡ true → m.leaves joined d ≡ true
  pub leaves_none : (d : ℕ) → m.leaves [] d ≡ false

module _ {A : Type 0} (m : Multicast) (v : IsMulticast m) where
  leave_all-joined :
      (ds : List ℕ) (s : Server A)
      → s.joined ≡ ds
      → leave_all m ds s ≡ done (record s { joined = [] })
  unfolding leave_all
  leave_all-joined [] s e = ap (λ j. done (record s { joined = j })) e
  leave_all-joined (d ∷ ds) s e =
      let member : mem d s.joined ≡ true = rw (e, eq_refl d) refl in
      let left : remove_one d s.joined ≡ ds = rw (e, eq_refl d) refl in
      rw (v.leaves_joined s.joined d member)
        (leave_all-joined ds (record s { joined = remove_one d s.joined }) left)

  -- The server leaves its groups when it stops, and still takes their interfaces for joined: after a
  -- new start a client on such an interface does not make it join the group, so that no DHCPv6
  -- message of the interface is received, and a second stop ends in an exception.
  pub restart_deaf :
      (d : ℕ) (ds : List ℕ) (s : Server A)
      → s.joined ≡ d ∷ ds
      → s.mcast_interfaces ≡ d ∷ ds
      → (s' : Server A) × (stop m s ≡ done s')
        × (s'.joined ≡ [])
        × (join m d (start s') ≡ done (start s'))
        × (stop m (start s') ≡ threw)
  unfolding stop join start leave_all
  restart_deaf d ds s j i =
      let stopped = record s { joined = [] } in
      (
        stopped,
        ap (λ is. leave_all m is s) i ∙ leave_all-joined (d ∷ ds) s j,
        refl,
        rw (i, eq_refl d) refl,
        rw (i, v.leaves_none d) refl,
      )
