-- ===== src/Examples/Stores.antt =====
-- The theorems about the tunnels, the routes and the node database at concrete inputs.
use odi_mm.Base.{
  ℕ, ◌<◌, ◌≡◌, refl, [], ◌∷◌, some, length, arith, nat_eq, list_eq, find, put, list_beq,
}
use odi_mm.Types.{prefix_beq, prefix_eq, address_eq}
use odi_mm.Samples.{
  number_addresses, home, first_router, node, database, no_tunnels, one_tunnel, no_routes, agrees,
}
use odi_mm.Tunnels
use odi_mm.Tunnels.{Tunnels, uint_mod, gc_threshold}
use odi_mm.Tunnels.Counts.{count, device_of, IsCollectable, count-get, del-IsCollectable}
use odi_mm.Routes
use odi_mm.Routes.{RouteTable, Entry, find_by_dst, entry_of, clear, add_by_dst}
use odi_mm.Routes.Lookup.{installed, withdrawn}
use odi_mm.Routes.Sync.{in_kernel, IsSynced, add_by_dst-IsSynced, remove_by_dst-IsSynced}
use odi_mm.NodeDb.{
  MobileNode, empty, insert_router, insert_mobile_node, find_mobile_node, find_mobile_node_by_link,
}
use odi_mm.NodeDb.Indexes.{
  is_among, IsConsistent, insert_mobile_node_accepted, insert_router-IsConsistent,
}

one_tunnel-IsCollectable : IsCollectable one_tunnel
unfolding find
one_tunnel-IsCollectable = record { listed = λ k. ground arith }

abbrev after_get : Tunnels ℕ
after_get = record no_tunnels { tunnels = (1, record { device = 7; refcount = 2 }) ∷ [] }

count-get_example :
    (count after_get 1 ≡ 2)
    × (device_of (find 1 after_get.tunnels) ≡ some 7)
    × IsCollectable after_get
unfolding Tunnels.get find
count-get_example =
    count-get (λ local remote global. some 8) one_tunnel after_get 1 1 7 one_tunnel-IsCollectable
      (omega arith) refl

del-IsCollectable_example :
    IsCollectable (Tunnels.del one_tunnel 1) × (length (Tunnels.del one_tunnel 1).gc < gc_threshold)
del-IsCollectable_example = del-IsCollectable one_tunnel 1 one_tunnel-IsCollectable

no_routes-IsSynced : IsSynced agrees no_routes
unfolding find in_kernel
no_routes-IsSynced = record { agrees = λ p. refl }

one_installed-IsSynced : IsSynced agrees (installed no_routes home 7)
unfolding add_by_dst installed
one_installed-IsSynced =
    add_by_dst-IsSynced agrees no_routes (installed no_routes home 7) home 7 no_routes-IsSynced refl

remove_by_dst-IsSynced_example :
    IsSynced agrees (withdrawn (installed no_routes home 7) home (entry_of 7))
unfolding Routes.remove_by_dst installed withdrawn find prefix_beq list_beq put
remove_by_dst-IsSynced_example =
    remove_by_dst-IsSynced agrees (installed no_routes home 7)
      (withdrawn (installed no_routes home 7) home (entry_of 7)) home one_installed-IsSynced refl

abbrev newcomer : MobileNode ℕ
newcomer = record node { id = 98 ∷ []; link_addresses = (3 ∷ []) ∷ [] }

insert_mobile_node_accepted_example :
    (find_mobile_node (insert_mobile_node database newcomer).0 (98 ∷ []) ≡ some newcomer)
    × (find_mobile_node_by_link (insert_mobile_node database newcomer).0 (3 ∷ []) ≡ some newcomer)
    × ((insert_mobile_node database newcomer).0.routers_by_id ≡ database.routers_by_id)
    × ((insert_mobile_node database newcomer).0.routers_by_key ≡ database.routers_by_key)
unfolding insert_mobile_node find list_beq is_among
insert_mobile_node_accepted_example =
    insert_mobile_node_accepted database newcomer (98 ∷ []) (3 ∷ []) refl

empty-IsConsistent : IsConsistent (empty {A = ℕ})
unfolding find
empty-IsConsistent = record {
  by_id = λ id r h. absurd (cc h);
  by_key = λ address r h. absurd (cc h);
}

insert_router-IsConsistent_example : IsConsistent (insert_router (empty {A = ℕ}) first_router).0
insert_router-IsConsistent_example =
    insert_router-IsConsistent (empty {A = ℕ}) first_router empty-IsConsistent
