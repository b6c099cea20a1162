-- ===== src/Lma/Routing.antt =====
-- The routes that the anchor adds and removes for a binding.
use odi_mm.Base.{ℕ, ◌≡◌, refl, Bool, false, not, ◌&&◌, ◌||◌, List, [], ◌∷◌, arith, ◌==◌}
use odi_mm.Run.{done, Ensures, Ensures-done, Ensures-bind, Ensures-itself}
use odi_mm.Types.{Prefix, prefix_eq, prefix_beq_iff, AddressOps}
use odi_mm.Routes
use odi_mm.Routes.{RouteTable, Request, Answer, find_by_dst}
use odi_mm.Routes.Lookup.{find-add_by_dst, find-remove_by_dst}
use odi_mm.Tunnels
use odi_mm.NodeDb.{is_some}
use odi_mm.Bcache.{BcacheEntry}
use odi_mm.Lma.State.{Lma, Kernel}
use odi_mm.Lma.{add_all, remove_all, add_route_entries, del_route_entries}

abbrev pub contains : List Prefix → Prefix → Bool
contains [] q = false
contains (p ∷ ps) q = p == q || contains ps q

module _ {A : Type 0} ⦃ops : AddressOps A⦄ where
  abbrev pub has_route : RouteTable A → Prefix → Bool
  has_route t q = is_some (find_by_dst t q)

  record Installs (t : RouteTable A) (ps : List Prefix) (t' : RouteTable A) : Type 0 where
    routes : (q : Prefix) → has_route t' q ≡ (contains ps q || has_route t q)

  record Withdraws (t : RouteTable A) (ps : List Prefix) (t' : RouteTable A) : Type 0 where
    routes : (q : Prefix) → has_route t' q ≡ (not (contains ps q) && has_route t q)

  add_all-Installs :
      (send : Request → Answer) (t : RouteTable A) (ps : List Prefix) (device : ℕ)
      → Ensures (Installs t ps) (add_all send t ps device)
  unfolding add_all
  add_all-Installs send t [] device = Ensures-done _ _ (record { routes = λ q. refl })
  add_all-Installs send t (p ∷ ps) device =
      Ensures-bind (λ m. Routes.add_by_dst send t p device ≡ done m) _ _ _ (Ensures-itself _)
        (λ m e. record {
          at = λ t' h. record {
            routes = λ q. ground (
              arith,
              ((add_all-Installs send m ps device).at t' h).routes q,
              find-add_by_dst send t m p q device e,
              prefix_beq_iff p q,
            );
          };
        })

  remove_all-Withdraws :
      (send : Request → Answer) (t : RouteTable A) (ps : List Prefix)
      → Ensures (Withdraws t ps) (remove_all send t ps)
  unfolding remove_all
  remove_all-Withdraws send t [] = Ensures-done _ _ (record { routes = λ q. refl })
  remove_all-Withdraws send t (p ∷ ps) =
      Ensures-bind (λ m. Routes.remove_by_dst send t p ≡ done m) _ _ _ (Ensures-itself _)
        (λ m e. record {
          at = λ t' h. record {
            routes = λ q. ground (
              arith,
              ((remove_all-Withdraws send m ps).at t' h).routes q,
              find-remove_by_dst send t m p q e,
              prefix_beq_iff p q,
            );
          };
        })

  abbrev Adds : Lma A → List Prefix → Lma A → Type 0
  Adds lma ps l = Installs lma.routes ps l.routes

  abbrev Drops : Lma A → List Prefix → Lma A → Type 0
  Drops lma ps l = Withdraws lma.routes ps l.routes

  -- After add_route_entries for an entry exactly its prefixes, and those that had a route before,
  -- have a route by destination.
  pub add_route_entries-has_route :
      (k : Kernel A) (lma lma' : Lma A) (be : BcacheEntry A) (q : Prefix)
      → add_route_entries k lma be ≡ done lma'
      → has_route lma'.routes q ≡ (contains be.prefix_list q || has_route lma.routes q)
  unfolding add_route_entries
  add_route_entries-has_route k lma lma' be q h =
      ((Ensures-bind (λ _. Unit {0}) (Adds lma be.prefix_list)
            (Tunnels.get k.open_tunnel lma.tunnels be.care_of_address) _ (record { at = λ a e. tt })
            (λ r _.
              Ensures-bind (Installs lma.routes be.prefix_list) (Adds lma be.prefix_list) _ _
                (add_all-Installs k.checked_send lma.routes be.prefix_list r.1)
                (λ t i. Ensures-done _ _ i))).at
          lma' h).routes
        q

  -- After del_route_entries for an entry exactly the prefixes that had a route before, and are not
  -- the entry's, have a route by destination.
  pub del_route_entries-has_route :
      (k : Kernel A) (lma lma' : Lma A) (be : BcacheEntry A) (q : Prefix)
      → del_route_entries k lma be ≡ done lma'
      → has_route lma'.routes q ≡ (not (contains be.prefix_list q) && has_route lma.routes q)
  unfolding del_route_entries
  del_route_entries-has_route k lma lma' be q h =
      ((Ensures-bind (Withdraws lma.routes be.prefix_list) (Drops lma be.prefix_list) _ _
            (remove_all-Withdraws k.checked_send lma.routes be.prefix_list)
            (λ t i. Ensures-done _ _ i)).at
          lma' h).routes
        q
