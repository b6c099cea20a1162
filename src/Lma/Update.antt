-- ===== src/Lma/Update.antt =====
-- The handler of a binding update keeps the cache sound.
use odi_mm.Base.{
  ℕ, ◌≡◌, refl, sym, ap, ◌∙◌, Bool, true, false, not, ◌&&◌, List, Option, none, some, arith, put,
  nat_beq, eq_iff, nat_eq, list_eq,
}
use mathlib.Core.Path.{subst, subst₂}
use odi_mm.Run.{done, ◌>>=◌, Ensures, Ensures-done, Ensures-if, Ensures-bind}
use odi_mm.Types.{ProxyBindingInfo, AddressOps, address_eq, status_ok}
use odi_mm.Bcache.{BcacheEntry, bind_registered, expires_in}
use odi_mm.Lma.State.{Lma, Kernel, is_registered}
use odi_mm.Lma.{
  store, pbu_get_be, register, deregister, bind_entry, process_entry, pbu_process,
  proxy_binding_update,
}
use odi_mm.Lma.Sound.{IsSound, AllSound, AllSound-put, Gets, pbu_get_be-Gets}
use odi_mm.Lma.CheckIn.{
  SameCache, SameCache-refl, add_route_entries-SameCache, del_route_entries-SameCache, IsChecked,
  Checks, pbu_mag_checkin-Checks,
}

module _ {A : Type 0} ⦃ops : AddressOps A⦄ where
  -- An entry whose timer was started if the message registers it.
  pub record Registers (lma : Lma A) (pb : ProxyBindingInfo A) (r : Lma A × BcacheEntry A)
      : Type 0 where
    pub frame : SameCache lma r.0
    pub checked : IsChecked lma.node_db pb r.1
    pub timed :
        r.1.bind_status ≡ bind_registered
        → nat_beq pb.lifetime 0 ≡ false
        → r.1.timer ≡ some (expires_in pb.lifetime)

  register-Registers :
      (k : Kernel A) (lma : Lma A) (pb : ProxyBindingInfo A) (be : BcacheEntry A)
      → IsChecked lma.node_db pb be
      → Ensures (Registers lma pb) (register k lma pb be)
  unfolding register
  register-Registers k lma pb be c =
      Ensures-if (Registers lma pb) (nat_beq pb.lifetime 0) _ _
        (λ zero_.
          Ensures-done _ _
            (record { frame = SameCache-refl lma; checked = c; timed = λ r e. absurd (cc) }))
        (λ _. Ensures-bind (SameCache lma) _ _ _ (add_route_entries-SameCache k lma _) (λ lma' same.
          Ensures-done _ _ (record {
            frame = same;
            checked = record {
              owned = record {
                named = c.owned.named;
                known = c.owned.known;
                authorized = c.owned.authorized;
              };
              lifetime = c.lifetime;
              deregistered = λ e. cc;
            };
            timed = λ r e. refl;
          })))

  -- The cache and the entry that is to be written in it.
  pub record Settles (lma : Lma A) (id : List ℕ) (r : Lma A × BcacheEntry A) : Type 0 where
    pub frame : SameCache lma r.0
    pub sound : IsSound lma.node_db id r.1

  Registers-IsSound :
      (lma : Lma A) (pb : ProxyBindingInfo A) (lma' : Lma A) (be : BcacheEntry A)
      → Registers lma pb (lma', be)
      → (nat_beq pb.lifetime 0 && is_registered be.bind_status) ≡ false
      → IsSound lma.node_db pb.id be
  Registers-IsSound lma pb lma' be g unchanged = record {
    owned = g.checked.owned;
    registered = λ r.
        let positive : nat_beq pb.lifetime 0 ≡ false = ground (arith, unchanged, r) in
        let same = g.checked.lifetime in
        (
          ground (arith, positive, same),
          g.timed r positive ∙ ap (λ n. some (expires_in n)) (sym same),
        );
    deregistered = g.checked.deregistered;
  }

  deregister-Settles :
      (k : Kernel A) (lma : Lma A) (pb : ProxyBindingInfo A) (lma' : Lma A) (be : BcacheEntry A)
      → Registers lma pb (lma', be)
      → Ensures (Settles lma pb.id) (deregister k lma' pb be)
  unfolding deregister
  deregister-Settles k lma pb lma' be g =
      Ensures-if (Settles lma pb.id) (nat_beq pb.lifetime 0 && is_registered be.bind_status) _ _
        (λ _.
          Ensures-bind (SameCache lma') _ _ _ (del_route_entries-SameCache k lma' _) (λ lma'' same.
            Ensures-done _ _ (record {
              frame = record {
                bcache = same.bcache ∙ g.frame.bcache;
                node_db = same.node_db ∙ g.frame.node_db;
              };
              sound = record {
                owned = record {
                  named = g.checked.owned.named;
                  known = g.checked.owned.known;
                  authorized = ground (arith, eq_iff ops.any ops.any);
                };
                registered = λ e. cc;
                deregistered = λ e. refl;
              };
            })))
        (λ unchanged.
          Ensures-done _ _
            (record { frame = g.frame; sound = Registers-IsSound lma pb lma' be g unchanged }))

  -- A handler keeps the database and leaves a sound cache.
  pub record Keeps (lma lma' : Lma A) : Type 0 where
    pub same_db : lma'.node_db ≡ lma.node_db
    pub sound : AllSound lma.node_db lma'.bcache

  pub Keeps-trans : (l m n : Lma A) → Keeps l m → Keeps m n → Keeps l n
  Keeps-trans l m n a b = record {
    same_db = b.same_db ∙ a.same_db;
    sound = subst (λ d. AllSound d n.bcache) a.same_db b.sound;
  }

  pub SameCache-Keeps : (l m : Lma A) → AllSound l.node_db l.bcache → SameCache l m → Keeps l m
  SameCache-Keeps l m v same = record {
    same_db = same.node_db;
    sound = subst (AllSound l.node_db) (sym same.bcache) v;
  }

  pub store-Keeps :
      (lma lma' : Lma A) (id : List ℕ) (be : BcacheEntry A)
      → AllSound lma.node_db lma.bcache
      → Settles lma id (lma', be)
      → Keeps lma (store be lma')
  store-Keeps lma lma' id be v s = record {
    same_db = s.frame.node_db;
    sound =
        subst₂ (λ i c. AllSound lma.node_db (put i be c)) (sym s.sound.owned.named)
          (sym s.frame.bcache) (AllSound-put lma.node_db lma.bcache id be v s.sound);
  }

  bind_entry-Keeps :
      (k : Kernel A) (lma : Lma A) (pb : ProxyBindingInfo A) (be : BcacheEntry A)
      → AllSound lma.node_db lma.bcache
      → IsChecked lma.node_db pb be
      → Ensures (Keeps lma) (bind_entry k lma pb be)
  unfolding bind_entry
  bind_entry-Keeps k lma pb be v c =
      Ensures-bind (Registers lma pb) _ _ _ (register-Registers k lma pb be c) (λ r g.
        Ensures-bind (λ _. Unit {0}) _ _ _ (record { at = λ a e. tt })
          (λ _ _.
            Ensures-bind (Settles lma pb.id) _ _ _ (deregister-Settles k lma pb r.0 r.1 g)
              (λ q s. Ensures-done _ _ (store-Keeps lma q.0 pb.id q.1 v s))))

  abbrev pub KeepsFirst : Lma A → Lma A × ProxyBindingInfo A → Type 0
  KeepsFirst lma r = Keeps lma r.0

  process_entry-Keeps :
      (k : Kernel A) (lma : Lma A) (pb : ProxyBindingInfo A) (be : BcacheEntry A)
      → AllSound lma.node_db lma.bcache
      → IsSound lma.node_db pb.id be
      → Ensures (KeepsFirst lma) (process_entry k lma pb be)
  unfolding process_entry
  process_entry-Keeps k lma pb be v s =
      Ensures-bind (Checks lma pb) _ _ _ (pbu_mag_checkin-Checks k lma be pb s) (λ r c. finish r c)
    where
      after :
          (r : Lma A × ProxyBindingInfo A × BcacheEntry A × Bool) → Checks lma pb r → Keeps lma r.0
      after r c = SameCache-Keeps lma r.0 v c.frame

      finish :
          (r : Lma A × ProxyBindingInfo A × BcacheEntry A × Bool)
          → Checks lma pb r
          → Ensures (KeepsFirst lma) (elim r.3 [
            | true ↦ bind_entry k r.0 r.1 r.2 >>= λ l. done (l, r.1)
            | false ↦ done (r.0, r.1)
          ])
      finish (l, p, b, false) c = Ensures-done _ _ (after (l, p, b, false) c)
      finish (l, p, b, true) c =
          Ensures-bind (Keeps l) _ _ _
            (bind_entry-Keeps k l p b
              (subst (λ d. AllSound d l.bcache) (sym c.frame.node_db)
                (after (l, p, b, true) c).sound)
              (subst (λ d. IsChecked d p b) (sym c.frame.node_db) (c.entry refl)))
            (λ m w. Ensures-done _ _ (Keeps-trans lma l m (after (l, p, b, true) c) w))

  pub pbu_process-Keeps :
      (k : Kernel A) (lma : Lma A) (pb : ProxyBindingInfo A)
      → AllSound lma.node_db lma.bcache
      → Ensures (KeepsFirst lma) (pbu_process k lma pb)
  unfolding pbu_process
  pbu_process-Keeps k lma pb v = finish (pbu_get_be lma pb) (pbu_get_be-Gets lma pb v)
    where
      finish :
          (r : Lma A × ProxyBindingInfo A × Option (BcacheEntry A))
          → Gets lma r
          → Ensures
              (KeepsFirst lma)
              (elim r.2 [ none ↦ done (r.0, r.1) | some be ↦ process_entry k r.0 r.1 be ])
      finish (l, p, none) g = Ensures-done _ _ (record { same_db = g.same_db; sound = g.sound })
      finish (l, p, some be) g = record {
        at = λ x e.
            Keeps-trans lma l x.0 (record { same_db = g.same_db; sound = g.sound })
              ((process_entry-Keeps k l p be
                  (subst (λ d. AllSound d l.bcache) (sym g.same_db) g.sound)
                  (subst (λ d. IsSound d p.id be) (sym g.same_db) (g.entry be refl))).at
                x e);
      }

  pub proxy_binding_update-Keeps :
      (k : Kernel A) (lma : Lma A) (pb : ProxyBindingInfo A)
      → AllSound lma.node_db lma.bcache
      → Ensures (Keeps lma) (proxy_binding_update k lma pb)
  unfolding proxy_binding_update
  proxy_binding_update-Keeps k lma pb v =
      Ensures-if (Keeps lma) (not (nat_beq pb.status status_ok)) _ _
        (λ _. Ensures-done _ _ (record { same_db = refl; sound = v }))
        (λ _.
          Ensures-bind (KeepsFirst lma) _ _ _ (pbu_process-Keeps k lma pb v)
            (λ r w. Ensures-done _ _ (record { same_db = w.same_db; sound = w.sound })))
