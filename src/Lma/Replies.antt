-- ===== src/Lma/Replies.antt =====
-- What the anchor answers to a binding update from a stranger, and how a state is after an answer.
use odi_mm.Base.{◌∷◌, nat_eq, list_eq}
use odi_mm.Types.{ProxyBindingInfo, AddressOps, address_eq, status_not_authorized_for_proxy_reg}
use odi_mm.NodeDb
use odi_mm.NodeDb.{NodeDb, RouterNode}
use odi_mm.Lma.State.{Lma}

module _ {A : Type 0} ⦃ops : AddressOps A⦄ where
  abbrev pub answered : Lma A → ProxyBindingInfo A → Lma A
  answered lma pb = record lma { sent = pb ∷ lma.sent }

  abbrev refusal : ProxyBindingInfo A → ProxyBindingInfo A
  refusal pb = record pb { status = status_not_authorized_for_proxy_reg }
