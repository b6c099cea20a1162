-- ===== src/Registration/Handshake.antt =====
-- The registration of a mobile node, from its attachment to a gateway to the acknowledgement.
use odi_mm.Base.{list_eq, nat_eq}
use odi_mm.Types.{ProxyBindingInfo, AddressOps, handoff_unknown}
use odi_mm.Bulist.{BulistEntry}
use odi_mm.Lma
use odi_mm.Lma.State.{Lma}
use odi_mm.Mag
use odi_mm.Mag.{binding_update}
use odi_mm.Mag.State.{Mag}

module _ {A : Type 0} ⦃ops : AddressOps A⦄ where
  -- The update that the gateway sends for an entry.
  abbrev pub update_of : BulistEntry A → ProxyBindingInfo A
  update_of be = binding_update be be.lifetime handoff_unknown
