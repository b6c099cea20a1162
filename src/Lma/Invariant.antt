-- ===== src/Lma/Invariant.antt =====
-- Every event keeps the binding cache sound: the invariant of a whole run of the anchor.
use odi_mm.Base.{
  ℕ, ◌-◌, ◌≡◌, refl, sym, inl, inr, Bool, true, false, not, List, [], ◌∷◌, Option, none, some, find,
  nat_beq, nat_eq, list_eq, if◌then◌else◌, Option-cases,
}
use mathlib.Core.Path.{subst}
use odi_mm.Run.{
  done, threw, asserted, undefined, Ensures, Ensures-done, Ensures-threw, Ensures-if, Ensures-bind,
}
use odi_mm.Types.{ProxyBindingInfo, AddressOps, address_eq}
use odi_mm.NodeDb
use odi_mm.NodeDb.{NodeDb, RouterNode, is_some}
use odi_mm.Bcache.{BcacheEntry, bind_deregistered, removes_in, lookup, remove}
use odi_mm.Wire.Message.{Outcome, Fault}
use odi_mm.Wire.Receiver.{pbu_parse}
use odi_mm.Lma.State.{
  Lma, Kernel, Event, receives, expires, removes, starts, stops, is_registered, is_deregistered,
  min_delay_before_bce_delete,
}
use odi_mm.Lma.{
  expired_entry, remove_entry, proxy_binding_update, mp_receive, start_router, start_, stop_, step,
  run,
}
use odi_mm.Lma.Sound.{IsSound, AllSound, AllSound-erase}
use odi_mm.Lma.CheckIn.{SameCache-refl}
use odi_mm.Lma.Update.{Keeps, Keeps-trans, store-Keeps, proxy_binding_update-Keeps}

module _ {A : Type 0} ⦃ops : AddressOps A⦄ where
  Keeps-refl : (lma : Lma A) → AllSound lma.node_db lma.bcache → Keeps lma lma
  Keeps-refl lma v = record { same_db = refl; sound = v }

  AllSound-empty : (db : NodeDb A) → AllSound db []
  unfolding find
  AllSound-empty db = record { at = λ id be h. absurd (cc h) }

  Keeps-if :
      (lma : Lma A) (b : Bool) (x y : Lma A)
      → Keeps lma x
      → Keeps lma y
      → Keeps lma (if b then x else y)
  Keeps-if lma true x y kx ky = kx
  Keeps-if lma false x y kx ky = ky

  -- What expired_entry writes.
  abbrev pub lapsed : BcacheEntry A → BcacheEntry A
  lapsed be = record be {
    bind_status = bind_deregistered;
    timer = some (removes_in min_delay_before_bce_delete);
  }

  lapsed-IsSound :
      (db : NodeDb A) (id : List ℕ) (be : BcacheEntry A)
      → IsSound db id be
      → IsSound db id (lapsed be)
  lapsed-IsSound db id be s = record {
    owned = record {
      named = s.owned.named;
      known = s.owned.known;
      authorized = s.owned.authorized;
    };
    registered = λ e. cc;
    deregistered = λ e. refl;
  }

  expired_entry-Keeps :
      (lma : Lma A) (failed : Bool) (id : List ℕ)
      → AllSound lma.node_db lma.bcache
      → Keeps lma (expired_entry lma failed id)
  unfolding expired_entry
  expired_entry-Keeps lma true id v = Keeps-refl lma v
  expired_entry-Keeps lma false id v = elim (Option-cases (lookup lma.bcache id)) [
    | inl n ↦ rw (n, expired_entry) (Keeps-refl lma v)
    | inr (be, h) ↦
        rw (h, expired_entry)
          (Keeps-if lma (not (is_registered be.bind_status)) _ _ (Keeps-refl lma v) (
            store-Keeps lma lma id (lapsed be) v (record {
              frame = SameCache-refl lma;
              sound = lapsed-IsSound lma.node_db id be (v.at id be h);
            })))
  ]

  remove_entry-Keeps :
      (lma : Lma A) (failed : Bool) (id : List ℕ)
      → AllSound lma.node_db lma.bcache
      → Keeps lma (remove_entry lma failed id)
  unfolding remove_entry remove
  remove_entry-Keeps lma true id v = Keeps-refl lma v
  remove_entry-Keeps lma false id v = elim (Option-cases (lookup lma.bcache id)) [
    | inl n ↦ rw (n, remove_entry) (Keeps-refl lma v)
    | inr (be, h) ↦
        rw (h, remove_entry)
          (Keeps-if lma (not (is_deregistered be.bind_status)) _ _ (Keeps-refl lma v)
            (record { same_db = refl; sound = AllSound-erase lma.node_db lma.bcache be.id v }))
  ]

  mp_receive-Keeps :
      (k : Kernel A) (lma : Lma A) (endpoint : A) (rbytes : ℕ) (buffer : List ℕ)
      → AllSound lma.node_db lma.bcache
      → Ensures (Keeps lma) (mp_receive k lma endpoint rbytes buffer)
  unfolding mp_receive
  mp_receive-Keeps k lma endpoint rbytes buffer v =
      Ensures-if (Keeps lma) (nat_beq lma.receivers 0) _ _
        (λ _. Ensures-done _ _ (Keeps-refl lma v)) (λ _. finish (pbu_parse endpoint rbytes buffer))
    where
      finish :
          (o : Outcome (ProxyBindingInfo A))
          → Ensures (Keeps lma) (elim o [
            | Outcome.ok pb ↦ proxy_binding_update k lma pb
            | Outcome.refused ↦ done (record lma { receivers = lma.receivers - 1 })
            | Outcome.fault Fault.length_error ↦ threw
            | Outcome.fault Fault.assertion ↦ asserted
            | Outcome.fault Fault.out_of_bounds ↦ undefined
            | Outcome.exhausted ↦ undefined
          ])
      finish (Outcome.ok pb) = proxy_binding_update-Keeps k lma pb v
      finish Outcome.refused = Ensures-done _ _ (record { same_db = refl; sound = v })
      finish (Outcome.fault Fault.length_error) = Ensures-threw _
      finish (Outcome.fault Fault.assertion) = record { at = λ a e. absurd (cc e) }
      finish (Outcome.fault Fault.out_of_bounds) = record { at = λ a e. absurd (cc e) }
      finish Outcome.exhausted = record { at = λ a e. absurd (cc e) }

  start_-Keeps :
      (lma : Lma A) (id : List ℕ) (tunnel_global_address : Bool)
      → AllSound lma.node_db lma.bcache
      → Ensures (Keeps lma) (start_ lma id tunnel_global_address)
  unfolding start_ start_router
  start_-Keeps lma id g v = finish (NodeDb.find_router_by_id lma.node_db id)
    where
      finish : (o : Option (RouterNode A)) → Ensures (Keeps lma) (start_router lma id g o)
      finish none = Ensures-threw _
      finish (some node) = Ensures-done _ _ (record { same_db = refl; sound = v })

  step-Keeps :
      (k : Kernel A) (lma : Lma A) (e : Event A)
      → AllSound lma.node_db lma.bcache
      → Ensures (Keeps lma) (step k lma e)
  unfolding step stop_
  step-Keeps k lma (receives endpoint rbytes buffer) v =
      mp_receive-Keeps k lma endpoint rbytes buffer v
  step-Keeps k lma (expires failed id) v = Ensures-done _ _ (expired_entry-Keeps lma failed id v)
  step-Keeps k lma (removes failed id) v = Ensures-done _ _ (remove_entry-Keeps lma failed id v)
  step-Keeps k lma (starts id g) v = start_-Keeps lma id g v
  step-Keeps k lma stops v =
      Ensures-done _ _ (record { same_db = refl; sound = AllSound-empty lma.node_db })

  run-Keeps :
      (lma : Lma A) (events : List (Kernel A × Event A))
      → AllSound lma.node_db lma.bcache
      → Ensures (Keeps lma) (run lma events)
  unfolding run
  run-Keeps lma [] v = Ensures-done _ _ (Keeps-refl lma v)
  run-Keeps lma ((k, e) ∷ es) v = Ensures-bind (Keeps lma) _ _ _ (step-Keeps k lma e v) (λ m w.
      record {
        at = λ n h.
            Keeps-trans lma m n w
              ((run-Keeps m es (subst (λ d. AllSound d m.bcache) (sym w.same_db) w.sound)).at n h);
      })

  -- In every state that an anchor with an empty binding cache reaches, whatever datagrams arrive,
  -- timers fire and answers the kernel gives, each entry of the cache is kept under its own
  -- identifier, belongs to a mobile node of the database and has that node's prefixes; its
  -- care-of address is a router's of the database or the unspecified one; a registered entry has a
  -- positive lifetime and an expiry timer of that lifetime; a deregistered one waits for removal.
  pub run-AllSound :
      (lma lma' : Lma A) (events : List (Kernel A × Event A))
      → lma.bcache ≡ []
      → run lma events ≡ done lma'
      → AllSound lma.node_db lma'.bcache
  run-AllSound lma lma' events empty h =
      ((run-Keeps lma events
          (subst (AllSound lma.node_db) (sym empty) (AllSound-empty lma.node_db))).at
        lma' h).sound
