-- ===== src/Lma/CheckIn.antt =====
-- The check-in of a binding update: what it returns keeps the cache sound.
use odi_mm.Base.{
  ◌≡◌, refl, sym, Bool, true, false, not, some, arith, nat_beq, ◌==◌, nat_eq, list_eq,
}
use odi_mm.Run.{done, Ensures, Ensures-done, Ensures-if, Ensures-bind}
use odi_mm.Types.{ProxyBindingInfo, AddressOps, address_eq, handoff_not_changed}
use odi_mm.Sequence.{validate_sequence_number}
use odi_mm.NodeDb
use odi_mm.NodeDb.{NodeDb, is_some}
use odi_mm.Bcache.{BcacheEntry, bind_deregistered, removes_in}
use odi_mm.Lma.State.{Lma, Kernel, min_delay_before_bce_delete}
use odi_mm.Lma.{add_route_entries, del_route_entries, moved, pbu_mag_checkin}
use odi_mm.Lma.Sound.{IsOwned, IsSound}

pub not-false : (b : Bool) → not b ≡ false → b ≡ true
not-false true e = refl
not-false false e = sym e

module _ {A : Type 0} ⦃ops : AddressOps A⦄ where
  -- The parts of the anchor that the handling of routes does not touch.
  pub record SameCache (lma lma' : Lma A) : Type 0 where
    pub bcache : lma'.bcache ≡ lma.bcache
    pub node_db : lma'.node_db ≡ lma.node_db

  pub SameCache-refl : (lma : Lma A) → SameCache lma lma
  SameCache-refl lma = record { bcache = refl; node_db = refl }

  pub add_route_entries-SameCache :
      (k : Kernel A) (lma : Lma A) (be : BcacheEntry A)
      → Ensures (SameCache lma) (add_route_entries k lma be)
  unfolding add_route_entries
  add_route_entries-SameCache k lma be =
      Ensures-bind (λ _. Unit {0}) (SameCache lma) _ _ (record { at = λ a e. tt })
        (λ a _.
          Ensures-bind (λ _. Unit {0}) (SameCache lma) _ _ (record { at = λ a e. tt })
            (λ r _. Ensures-done (SameCache lma) _ (record { bcache = refl; node_db = refl })))

  pub del_route_entries-SameCache :
      (k : Kernel A) (lma : Lma A) (be : BcacheEntry A)
      → Ensures (SameCache lma) (del_route_entries k lma be)
  unfolding del_route_entries
  del_route_entries-SameCache k lma be =
      Ensures-bind (λ _. Unit {0}) (SameCache lma) _ _ (record { at = λ a e. tt })
        (λ r _. Ensures-done (SameCache lma) _ (record { bcache = refl; node_db = refl }))

  -- An entry that was checked in: its lifetime is the message's, and its status is to be settled.
  pub record IsChecked (db : NodeDb A) (pb : ProxyBindingInfo A) (be : BcacheEntry A) : Type 0 where
    pub owned : IsOwned db pb.id be
    pub lifetime : be.lifetime ≡ pb.lifetime
    pub deregistered :
        be.bind_status ≡ bind_deregistered
        → be.timer ≡ some (removes_in min_delay_before_bce_delete)

  pub moved-IsChecked :
      (db : NodeDb A) (pb : ProxyBindingInfo A) (be : BcacheEntry A)
      → is_some (NodeDb.find_router db pb.address) ≡ true
      → IsSound db pb.id be
      → IsChecked db pb (moved be pb)
  moved-IsChecked db pb be known s = record {
    owned = record {
      named = s.owned.named;
      known = s.owned.known;
      authorized = ground (arith, known);
    };
    lifetime = refl;
    deregistered = λ e. cc;
  }

  -- What pbu_mag_checkin returns: the cache as it was, and, when it accepts, an entry that was
  -- checked in, for the message as it came.
  pub record Checks (lma : Lma A) (pb : ProxyBindingInfo A)
      (r : Lma A × ProxyBindingInfo A × BcacheEntry A × Bool) : Type 0 where
    pub frame : SameCache lma r.0
    pub entry : r.3 ≡ true → IsChecked lma.node_db r.1 r.2

  pub refused-Checks :
      (lma : Lma A) (pb pb' : ProxyBindingInfo A) (be : BcacheEntry A)
      → Ensures (Checks lma pb) (done (lma, pb', be, false))
  refused-Checks lma pb pb' be =
      Ensures-done _ _ (record { frame = SameCache-refl lma; entry = λ e. cc })

  pub pbu_mag_checkin-Checks :
      (k : Kernel A) (lma : Lma A) (be : BcacheEntry A) (pb : ProxyBindingInfo A)
      → IsSound lma.node_db pb.id be
      → Ensures (Checks lma pb) (pbu_mag_checkin k lma be pb)
  unfolding pbu_mag_checkin
  pbu_mag_checkin-Checks k lma be pb s =
      Ensures-if (Checks lma pb) (not (be.care_of_address == pb.address)) _ _
        (λ other.
          Ensures-if (Checks lma pb) (nat_beq pb.handoff handoff_not_changed) _ _
            (λ _. refused-Checks lma pb _ be)
            (λ _.
              Ensures-if (Checks lma pb) (not (is_some (NodeDb.find_router lma.node_db pb.address)))
                _ _ (λ _. refused-Checks lma pb _ be)
                (λ known.
                  Ensures-if (Checks lma pb) (nat_beq pb.lifetime 0) _ _
                    (λ _. refused-Checks lma pb _ be)
                    (λ _.
                      Ensures-if (Checks lma pb) (ops.is_unspecified be.care_of_address) _ _
                        (λ _. Ensures-done _ _ (record {
                          frame = SameCache-refl lma;
                          entry = λ _. moved-IsChecked lma.node_db pb be (not-false _ known) s;
                        }))
                        (λ _.
                          Ensures-bind (SameCache lma) _ _ _ (del_route_entries-SameCache k lma be)
                            (λ lma' same. Ensures-done _ _ (record {
                              frame = same;
                              entry = λ _. moved-IsChecked lma.node_db pb be (not-false _ known) s;
                            })))))))
        (λ same.
          Ensures-if (Checks lma pb) (not (validate_sequence_number be.sequence pb.sequence)) _ _
            (λ _. refused-Checks lma pb _ be)
            (λ _. Ensures-done _ _ (record {
              frame = SameCache-refl lma;
              entry = λ _. record {
                owned = record {
                  named = s.owned.named;
                  known = s.owned.known;
                  authorized = s.owned.authorized;
                };
                lifetime = refl;
                deregistered = s.deregistered;
              };
            })))
